-- ===== src/Lifecycle.antt =====
-- vermouth/vermouth.go and vermouth/start.go: what a node of a cluster does when raft tells it that it
-- became the leader, or no longer is. The rpc server runs in a goroutine, which waits at
-- rpcServerCloseChan for the word to stop; a send on this channel waits for such a goroutine.
pub mod Leadership
pub mod Refusal
mod Tests
use vermouth.Prelude.{
  ℕ, Bool, true, false, not, Option, none, some, List, [], Str, Go, ret, panic, block, ℤ, ◌+◌, ◌-◌,
  ◌&&◌, ◌∷◌, ◌==◌, if◌then◌else◌, ◌>>=◌, ◌>>◌, nat_eq, str_eq,
}
use vermouth.Prelude.Int.{int_eq}
use vermouth.Prelude.Map
use vermouth.Prelude.Map.{Map}
use vermouth.Server
use vermouth.Server.{HttpServer, new_http_server, set_write_flag}

-- The section of the server itself, and the classes and ports of service discovery.
pub record ServerArgs : Type 0 where
  pub http_server : Bool
  pub http_port : ℤ
  pub rpc_server : Bool
  pub discovery : List (Str × ℤ)

-- `http_server` is none where it is nil. `rpc_waiting` counts the goroutines of the rpc server that
-- wait for the word to stop, and `discovery_runs` how often every discovery was started.
pub record Node : Type 0 where
  pub leader : Bool
  pub http_server : Option HttpServer
  pub rpc_server : Bool
  pub rpc_waiting : ℕ
  pub discoveries : Map ℤ Str
  pub discovery_runs : ℕ

-- buildDiscovery, where `known` is whether there is a factory for a class: a class that is not known is
-- skipped, and the last one for a port counts.
unfoldable pub build_discovery : (Str → Bool) → List (Str × ℤ) → Map ℤ Str → Map ℤ Str
build_discovery known [] built = built
build_discovery known ((namespace, port) ∷ args) built =
    build_discovery known args (if known namespace then Map.put built port namespace else built)

-- NewVermouth
unfoldable pub new_vermouth : (Str → Bool) → ServerArgs → Node
unfolding build_discovery
new_vermouth known conf = record {
  leader = false;
  http_server = if conf.http_server then some (new_http_server conf.http_port) else none;
  rpc_server = conf.rpc_server;
  rpc_waiting = 0;
  discoveries = build_discovery known conf.discovery [];
  discovery_runs = 0;
}

-- SetWriteFlag on the http server, a panic where it is nil.
unfoldable pub permit : Bool → Node → Go Node
unfolding set_write_flag
permit flag node = elim node.http_server [
  | none ↦ panic
  | some h ↦ ret (record node { http_server = some (set_write_flag flag h) })
]

-- The start of the rpc server, where its port can be listened at or not.
unfoldable pub start_rpc : Bool → Node → Node
start_rpc listens node =
    if node.rpc_server && listens then record node { rpc_waiting = node.rpc_waiting + 1 } else node

-- rpcServerCloseChan <- struct{}{}
unfoldable pub stop_rpc : Node → Go Node
stop_rpc node =
    if not node.rpc_server
    then ret node
    else if node.rpc_waiting == 0
    then block
    else ret (record node { rpc_waiting = node.rpc_waiting - 1 })

-- A round of the loop over leaderNotify.
unfoldable pub notified : Bool → Bool → Node → Go Node
unfolding permit start_rpc stop_rpc
notified listens true node = do
  permitted ← permit true (record node { leader = true; discovery_runs = node.discovery_runs + 1 })
  ret (start_rpc listens permitted)
notified listens false node = permit false (record node { leader = false }) >>= stop_rpc

-- The loop, for what raft sends.
unfoldable pub notified_all : Bool → List Bool → Node → Go Node
unfolding notified
notified_all listens [] node = ret node
notified_all listens (leader ∷ notices) node = do
  next ← notified listens leader node
  notified_all listens notices next
