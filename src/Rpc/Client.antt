-- ===== src/Rpc/Client.antt =====
-- client/client.go: the client, which remembers what it registered. The calls of HTTP that
-- InvokeMethod makes, and the signal that makes the client cancel, are not modelled.
use vermouth.State.Manager.{RaftAnswer, Vermouth}
use vermouth.State.Bodies.{Codecs}
use vermouth.Rate.{RateLib}
use vermouth.Rpc.{
  load_balance, no_host, server_error, load_balance, register_to_proxy, cancel, server_error,
  success, RpcError, join_cluster, Res,
}
use vermouth.Prelude.{
  Bool, false, Option, none, some, List, [], Str, codes, Go, ret, Result, ok, err, ℤ, ◌∷◌, ◌==◌,
  if◌then◌else◌, ◌>>=◌, nat_eq, str_eq,
}

-- What the client remembers.
pub record RpcClient : Type 0 where
  pub port : ℤ
  pub prefix : Str
  pub local_addr : Str

-- The options of RegisterToProxy: the first is the mode of the balancer.
abbrev pub mode_of : List Str → Str
mode_of [] = codes "round-robin"
mode_of (x ∷ xs) = x

-- The error that the client makes of the answer of a server.
abbrev pub error_of : Res → Option RpcError
error_of (message, some e) = some e
error_of (message, none) = if message == success then none else some server_error

module _ (lib : RateLib) (codecs : Codecs) (listens : ℤ → Bool) (raft : Str → RaftAnswer) where
  -- RegisterToProxy
  unfoldable pub client_register :
      ℤ
      → Str
      → Str
      → List Str
      → RpcClient
      → Vermouth lib
      → Go (Option RpcError × RpcClient × Vermouth lib)
  unfolding register_to_proxy
  client_register port prefix addr opt client v = do
    (res, v') ←
        register_to_proxy lib codecs listens raft
          (record {
            port = port;
            prefix = prefix;
            balance_mode = mode_of opt;
            local_addr = addr;
            static = false;
          })
          v
    elim (error_of res) [
      | some e ↦ ret (some e, client, v')
      | none ↦ ret (none, record { port = port; prefix = prefix; local_addr = addr }, v')
    ]

  -- Cancel
  unfoldable pub client_cancel : RpcClient → Vermouth lib → Go (Option RpcError × Vermouth lib)
  unfolding cancel
  client_cancel client v = do
    (res, v') ←
        cancel lib codecs listens raft
          (record { port = client.port; prefix = client.prefix; local_addr = client.local_addr }) v
    ret (error_of res, v')

  -- loadBalance
  unfoldable pub client_load_balance :
      ℤ → Str → Str → Vermouth lib → Go (Result RpcError Str × Vermouth lib)
  unfolding load_balance
  client_load_balance port prefix fact v = do
    (res, v') ←
        load_balance lib codecs listens raft (record { port = port; prefix = prefix; fact = fact })
          v
    elim res.1 [
      | some e ↦ ret (err e, v')
      | none ↦ ret (if res.0 == [] then err no_host else ok res.0, v')
    ]

-- JoinCluster
unfoldable pub client_join_cluster : (Str → Str → Bool) → Str → Str → Str → Option RpcError
unfolding join_cluster
client_join_cluster add_voter mode tcp_address name =
    error_of (join_cluster add_voter mode (record { node_name = name; tcp_address = tcp_address }))
