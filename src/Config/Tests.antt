-- ===== src/Config/Tests.antt =====
-- config/config.go: a configuration with nothing in it.
use vermouth.Config.Check.{check_arg-server, vaild_config-accepts}
use vermouth.Config.{
  cannot_catch_any_enum, server_fields, vaild_config, VermouthConfig, FileSystem, ServerArgs,
  check_arg,
}
use vermouth.Prelude.{false, none, [], codes, str_beq, contains, ret, err, pos, ◌≡◌, nat_eq, str_eq}

abbrev no_files : FileSystem
no_files = record { stat = λ path. false; write_file = λ path. false }

abbrev empty_server : ServerArgs
empty_server = record {
  http_server = false;
  http_port = pos 0;
  rpc_server = false;
  rpc_port = pos 0;
  name = [];
  mode = codes "alone";
  root_level = [];
  data_dir = [];
}

abbrev empty_config : VermouthConfig
empty_config = record {
  server = empty_server;
  http_proxy = [];
  discovery = [];
  raft = record {
    tcp_address = [];
    leader = false;
    method = codes "none";
    leader_address = [];
    snapshot_interval = pos 0;
    snapshot_threshold = pos 0;
    heartbeat_timeout = pos 0;
    election_timeout = pos 0;
  };
  log = [];
}

vaild_config-accepts_example : vaild_config no_files empty_config ≡ ret none
vaild_config-accepts_example = vaild_config-accepts no_files empty_config

abbrev unknown_mode : ServerArgs
unknown_mode = record empty_server { http_port = pos 9000; rpc_port = pos 9001; name = codes "a" }

check_arg-server_example :
    check_arg no_files 1 (server_fields unknown_mode) ≡ ret (err cannot_catch_any_enum)
unfolding str_beq contains
check_arg-server_example = check_arg-server no_files 0 unknown_mode
