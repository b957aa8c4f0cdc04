-- ===== src/Config.antt =====
-- config/config.go: the records of the configuration and their check, and PathIsValid of
-- utils/file.go. The check reads its argument by reflection: a struct is here the list of its
-- fields, each with its name, the text of its tag "vaild" and its value. Whether a file is there and
-- whether one can be written are parameters. ReadConfig itself is the library viper's work.
pub mod Check
mod Tests
use vermouth.Prelude.{
  ℕ, zero, suc, Bool, true, false, not, Option, none, some, List, [], Str, codes, contains, Go, ret,
  block, Result, ok, err, ℤ, pos, negsuc, ◌∷◌, ◌==◌, if◌then◌else◌, ◌>>=◌, nat_eq, str_eq,
}
use vermouth.Proxy.{HttpProxyArgs}
use vermouth.Net.{parse_tag}
use vermouth.Golib.Strings.{contains_text, split}

pub record ServerArgs : Type 0 where
  pub http_server : Bool
  pub http_port : ℤ
  pub rpc_server : Bool
  pub rpc_port : ℤ
  pub name : Str
  pub mode : Str
  pub root_level : Str
  pub data_dir : Str

pub record Discovery : Type 0 where
  pub port : ℤ
  pub namespace : Str
  pub address : List Str
  pub connect_timeout : ℤ

pub record RaftArgs : Type 0 where
  pub tcp_address : Str
  pub leader : Bool
  pub method : Str
  pub leader_address : Str
  pub snapshot_interval : ℤ
  pub snapshot_threshold : ℤ
  pub heartbeat_timeout : ℤ
  pub election_timeout : ℤ

pub record LogArgs : Type 0 where
  pub name : Str
  pub type : Str
  pub level : Str
  pub color : Bool
  pub format : Str
  pub file_name : Str
  pub max_size : ℤ
  pub max_line : ℤ
  pub date_slice : Str

pub record VermouthConfig : Type 0 where
  pub server : ServerArgs
  pub http_proxy : List HttpProxyArgs
  pub discovery : List Discovery
  pub raft : RaftArgs
  pub log : List LogArgs

-- A value by its kind: a string, a signed integer, a struct, or one of another kind.
mutual
  pub data Value : Type 0 where
    text : Str → Value
    int : ℤ → Value
    struct : Fields → Value
    other : Value

  pub data Fields : Type 0 where
    end : Fields
    field : Str → Str → Value → Fields → Fields

pub data ConfigError : Type 0 where
  unknown_tag : ConfigError
  illegal_config_file : ConfigError
  enum_fields_too_short : ConfigError
  cannot_catch_any_enum : ConfigError

-- The values that the check reads, with the tags of the source.
unfoldable pub server_fields : ServerArgs → Fields
server_fields s = field (codes "HttpServer") [] other (
    field (codes "HttpPort") (codes "required") (int s.http_port) (
      field (codes "RpcServer") [] other (
        field (codes "RpcPort") (codes "required") (int s.rpc_port) (
          field (codes "Name") (codes "required") (text s.name) (
            field (codes "Mode") (codes "required, enum:stand_cluster") (text s.mode) (
              field (codes "RootLevel") [] (text s.root_level)
                (field (codes "DataDir") (codes "required, filePath") (text s.data_dir) end)))))))

unfoldable pub raft_fields : RaftArgs → Fields
raft_fields r = field (codes "TcpAddress") [] (text r.tcp_address) (
    field (codes "Leader") [] other (
      field (codes "Method") [] (text r.method) (
        field (codes "LeaderAddress") [] (text r.leader_address) (
          field (codes "SnapshotInterval") [] (int r.snapshot_interval) (
            field (codes "SnapshotThreshold") [] (int r.snapshot_threshold) (
              field (codes "HeartbeatTimeout") [] (int r.heartbeat_timeout)
                (field (codes "ElectionTimeout") [] (int r.election_timeout) end)))))))

unfoldable pub config_fields : VermouthConfig → Fields
unfolding server_fields raft_fields
config_fields c = field (codes "Server") [] (struct (server_fields c.server)) (
    field (codes "HttpProxy") [] other (
      field (codes "Discovery") [] other
        (field (codes "Raft") [] (struct (raft_fields c.raft)) (field (codes "Log") [] other end))))

-- The fields of reflect.StructField, what reflection knows of a field. None of them is a struct.
unfoldable pub struct_field : Str → Str → Value → Fields
struct_field name tag value = field (codes "Name") [] (text name) (
    field (codes "PkgPath") [] (text []) (
      field (codes "Type") [] other (
        field (codes "Tag") [] (text tag) (
          field (codes "Offset") [] other
            (field (codes "Index") [] other (field (codes "Anonymous") [] other end))))))

-- What os.Stat and ioutil.WriteFile of an empty file would say of a path.
pub record FileSystem : Type 0 where
  pub stat : Str → Bool
  pub write_file : Str → Bool

-- PathIsValid
unfoldable pub path_is_valid : FileSystem → Str → Bool
path_is_valid fs fp = if fs.stat fp then true else if fs.write_file fp then true else false

abbrev pub is_zero : ℤ → Bool
is_zero (pos n) = n == 0
is_zero (negsuc n) = false

-- checkInt
unfoldable pub check_int : ℤ → Str → Result ConfigError Bool
check_int val rule = if rule == codes "required" then ok (not (is_zero val)) else err unknown_tag

-- checkString, for the texts of an enum
unfoldable pub check_enum : Str → List Str → Result ConfigError Bool
unfolding split
check_enum val [] = err enum_fields_too_short
check_enum val (x ∷ []) = err enum_fields_too_short
check_enum val (x ∷ enums ∷ xs) =
    if contains (split b'_' enums) val then ok true else err cannot_catch_any_enum

module _ (fs : FileSystem) where
  -- checkString
  unfoldable pub check_string : Str → Str → Result ConfigError Bool
  unfolding contains_text check_enum path_is_valid split
  check_string val rule =
      if rule == codes "required"
      then ok (not (val == []))
      else if rule == codes "filePath"
      then ok (path_is_valid fs val)
      else if contains_text (codes "enum") rule
      then check_enum val (split b':' rule)
      else err unknown_tag

  -- checkSingleTag
  unfoldable pub check_single_tag : Value → Str → Result ConfigError Bool
  unfolding check_string check_int
  check_single_tag (text s) rule = check_string s rule
  check_single_tag (int n) rule = check_int n rule
  check_single_tag (struct fields) rule = ok true
  check_single_tag other rule = ok true

  -- The loop over the rules of a field.
  unfoldable pub check_rules : Value → List Str → Result ConfigError Bool
  unfolding check_single_tag
  check_rules val [] = ok true
  check_rules val (rule ∷ rules) = elim (check_single_tag val rule) [
    | err e ↦ err e
    | ok false ↦ ok false
    | ok true ↦ check_rules val rules
  ]

  -- A field that is no struct.
  unfoldable pub check_tag : Str → Value → Result ConfigError Bool
  unfolding check_rules parse_tag
  check_tag tag val = if tag == [] then ok true else check_rules val (parse_tag tag)

  -- The loop of checkArg, with the check of the fields that are structs.
  unfoldable pub check_fields :
      (Str → Str → Value → Go (Result ConfigError Bool)) → Fields → Go (Result ConfigError Bool)
  unfolding check_tag
  check_fields nested end = ret (ok true)
  check_fields nested (field name tag (struct inner) fields) =
      nested name tag (struct inner) >>= λ r. elim r [
        | err e ↦ ret (err e)
        | ok false ↦ ret (ok false)
        | ok true ↦ check_fields nested fields
      ]
  check_fields nested (field name tag val fields) = elim (check_tag tag val) [
    | err e ↦ ret (err e)
    | ok false ↦ ret (ok false)
    | ok true ↦ check_fields nested fields
  ]

  -- checkArg, with fuel for the depth of structs in structs. For a field that is a struct, it is
  -- called on reflect.ValueOf(field), the description of the field.
  unfoldable pub check_arg : ℕ → Fields → Go (Result ConfigError Bool)
  unfolding check_fields struct_field
  check_arg zero fields = block
  check_arg (suc depth) fields =
      check_fields (λ name tag value. check_arg depth (struct_field name tag value)) fields

  -- VaildConfig
  abbrev pub verdict : Result ConfigError Bool → Option ConfigError
  verdict (err e) = some e
  verdict (ok false) = some illegal_config_file
  verdict (ok true) = none

  unfoldable pub vaild_config : VermouthConfig → Go (Option ConfigError)
  unfolding check_arg config_fields
  vaild_config c = check_arg 2 (config_fields c) >>= λ r. ret (verdict r)
