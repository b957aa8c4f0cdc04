-- ===== src/Config/Check.antt =====
-- config/config.go: what the check of a configuration lets pass, and what its rules say of the
-- section of the server.
use vermouth.Golib.Strings.{has_prefix, contains_text, split}
use vermouth.Config.{
  end, struct, field, other, int, text, check_enum, check_int, path_is_valid, check_string,
  cannot_catch_any_enum, verdict, check_single_tag, is_zero, VermouthConfig, ConfigError,
  struct_field, check_rules, check_fields, ServerArgs, config_fields, server_fields, Value,
  FileSystem, Fields, check_tag, vaild_config, check_arg,
}
use vermouth.Net.{parse_tag}
use vermouth.Prelude.{
  ℕ, suc, refl, ap, Bool, true, false, not, none, [], Str, codes, str_beq, contains, Go, ret,
  Result, ok, err, ℤ, ◌≡◌, ◌&&◌, ◌||◌, ◌∷◌, ◌==◌, if◌then◌else◌, ◌>>=◌, nat_eq, str_eq,
}

-- Every field is a struct, whatever is in it, or has no rules.
abbrev pub IsUntagged : Fields → Type 0
IsUntagged end = Unit
IsUntagged (field name tag (struct inner) fields) = IsUntagged fields
IsUntagged (field name tag (text s) fields) = (tag ≡ []) × IsUntagged fields
IsUntagged (field name tag (int n) fields) = (tag ≡ []) × IsUntagged fields
IsUntagged (field name tag other fields) = (tag ≡ []) × IsUntagged fields

-- The description of a field passes.
struct_field-passes :
    (fs : FileSystem) (depth : ℕ) (name tag : Str) (value : Value)
    → check_arg fs (suc depth) (struct_field name tag value) ≡ ret (ok true)
unfolding check_arg str_beq
struct_field-passes fs depth name tag value = refl

check_tag-nil : (fs : FileSystem) (value : Value) → check_tag fs [] value ≡ ok true
unfolding check_tag str_beq
check_tag-nil fs value = refl

pub check_arg-untagged :
    (fs : FileSystem) (depth : ℕ) (fields : Fields)
    → IsUntagged fields
    → check_arg fs (suc (suc depth)) fields ≡ ret (ok true)
unfolding check_arg check_fields str_beq
check_arg-untagged fs depth end h = refl
check_arg-untagged fs depth (field name tag (struct inner) fields) h =
    rw (struct_field-passes fs depth name tag (struct inner)) (check_arg-untagged fs depth fields h)
check_arg-untagged fs depth (field name tag (text s) fields) (h, hs) =
    rw (h, check_tag-nil fs (text s)) (check_arg-untagged fs depth fields hs)
check_arg-untagged fs depth (field name tag (int n) fields) (h, hs) =
    rw (h, check_tag-nil fs (int n)) (check_arg-untagged fs depth fields hs)
check_arg-untagged fs depth (field name tag other fields) (h, hs) =
    rw (h, check_tag-nil fs other) (check_arg-untagged fs depth fields hs)

-- VaildConfig accepts every configuration, whatever ports, names, modes and paths it has, and
-- whatever files there are: the sections are structs, for which the check reads the description of
-- the field in place of the section, or lists, which have no rules.
pub vaild_config-accepts : (fs : FileSystem) (c : VermouthConfig) → vaild_config fs c ≡ ret none
unfolding vaild_config config_fields
vaild_config-accepts fs c =
    ap (λ m. m >>= λ r. ret (verdict fs r))
      (check_arg-untagged fs 0 (config_fields c) (refl, (refl, (refl, tt))))

-- The rules of ServerArgs, one after the other.
abbrev pub server_verdict : FileSystem → ServerArgs → Result ConfigError Bool
server_verdict fs s =
    if is_zero s.http_port || is_zero s.rpc_port || s.name == [] || s.mode == []
    then ok false
    else if not (contains (codes "stand" ∷ codes "cluster" ∷ []) s.mode)
    then err cannot_catch_any_enum
    else ok (not (s.data_dir == []) && path_is_valid fs s.data_dir)

last_rule :
    (r : Result ConfigError Bool)
    → ◌≡◌ {A = Result ConfigError Bool}
        (elim r [ err e ↦ err e | ok false ↦ ok false | ok true ↦ ok true ])
        r
last_rule (err e) = refl
last_rule (ok true) = refl
last_rule (ok false) = refl

required_int :
    (fs : FileSystem) (n : ℤ) → check_tag fs (codes "required") (int n) ≡ ok (not (is_zero n))
unfolding check_tag check_rules check_single_tag check_int str_beq parse_tag split
required_int fs n = last_rule (ok (not (is_zero n)))

required_text :
    (fs : FileSystem) (s : Str) → check_tag fs (codes "required") (text s) ≡ ok (not (s == []))
unfolding check_tag check_rules check_single_tag check_string str_beq parse_tag split
required_text fs [] = refl
required_text fs (c ∷ s) = refl

required_path :
    (fs : FileSystem) (s : Str)
    → check_tag fs (codes "required, filePath") (text s) ≡ ok (not (s == []) && path_is_valid fs s)
unfolding check_tag check_rules check_single_tag check_string str_beq parse_tag split
required_path fs [] = refl
required_path fs (c ∷ s) = last_rule (ok (path_is_valid fs (c ∷ s)))

required_mode :
    (fs : FileSystem) (s : Str)
    → check_tag fs (codes "required, enum:stand_cluster") (text s) ≡ (
        if s == []
        then ok false
        else if contains (codes "stand" ∷ codes "cluster" ∷ []) s
        then ok true
        else err cannot_catch_any_enum)
unfolding check_tag check_rules check_single_tag check_string check_enum str_beq parse_tag split
    contains_text has_prefix contains
required_mode fs [] = refl
required_mode fs (c ∷ s) = last_rule (
    if contains (codes "stand" ∷ codes "cluster" ∷ []) (c ∷ s)
    then ok true
    else err cannot_catch_any_enum)

-- The rest of the fields, behind the result for one.
abbrev after : Result ConfigError Bool → Go (Result ConfigError Bool) → Go (Result ConfigError Bool)
after (err e) k = ret (err e)
after (ok false) k = ret (ok false)
after (ok true) k = k

module _ (fs : FileSystem) (nested : Str → Str → Value → Go (Result ConfigError Bool))
    (name tag : Str) (fields : Fields) where
  text_step :
      (s : Str) (r : Result ConfigError Bool)
      → check_tag fs tag (text s) ≡ r
      → check_fields fs nested (field name tag (text s) fields)
        ≡ after r (check_fields fs nested fields)
  unfolding check_fields
  text_step s (err e) h = rw (h, check_fields) refl
  text_step s (ok true) h = rw (h, check_fields) refl
  text_step s (ok false) h = rw (h, check_fields) refl

  int_step :
      (n : ℤ) (r : Result ConfigError Bool)
      → check_tag fs tag (int n) ≡ r
      → check_fields fs nested (field name tag (int n) fields)
        ≡ after r (check_fields fs nested fields)
  unfolding check_fields
  int_step n (err e) h = rw (h, check_fields) refl
  int_step n (ok true) h = rw (h, check_fields) refl
  int_step n (ok false) h = rw (h, check_fields) refl

other_step :
    (fs : FileSystem) (nested : Str → Str → Value → Go (Result ConfigError Bool)) (name : Str)
    (fields : Fields)
    → check_fields fs nested (field name [] other fields) ≡ check_fields fs nested fields
unfolding check_fields str_beq
other_step fs nested name fields = refl

in_turn :
    (a b c d e f : Bool)
    → after (ok (not a)) (
        after (ok (not b)) (
          after (ok (not c)) (
            after
              (if d then ok false else if e then ok true else err cannot_catch_any_enum)
              (after (ok f) (ret (ok true))))))
      ≡ ret
          (if a || b || c || d then ok false else if not e then err cannot_catch_any_enum else ok f)
in_turn true b c d e f = refl
in_turn false true c d e f = refl
in_turn false false true d e f = refl
in_turn false false false true e f = refl
in_turn false false false false false f = refl
in_turn false false false false true true = refl
in_turn false false false false true false = refl

-- checkArg of the section of the server itself passes exactly if both ports are there, the name is,
-- the mode is one of stand and cluster, and the directory is a valid path. It reports a mode that is
-- none of the two, if all before it is there.
pub check_arg-server :
    (fs : FileSystem) (depth : ℕ) (s : ServerArgs)
    → check_arg fs (suc depth) (server_fields s) ≡ ret (server_verdict fs s)
unfolding check_arg server_fields
check_arg-server fs depth s =
    rw
      (
        other_step,
        int_step fs _ _ _ _ s.http_port _ (required_int fs s.http_port),
        other_step,
        int_step fs _ _ _ _ s.rpc_port _ (required_int fs s.rpc_port),
        text_step fs _ _ _ _ s.name _ (required_text fs s.name),
        text_step fs _ _ _ _ s.mode _ (required_mode fs s.mode),
        text_step fs _ _ _ _ s.root_level _ (check_tag-nil fs (text s.root_level)),
        text_step fs _ _ _ _ s.data_dir _ (required_path fs s.data_dir),
      )
      (in_turn (is_zero s.http_port) (is_zero s.rpc_port) (s.name == []) (s.mode == []) _
        (not (s.data_dir == []) && path_is_valid fs s.data_dir))
