-- ===== src/Rpc.antt =====
-- vermouth/rpc_server.go and client/client.go: services register their hosts with a proxy and ask it
-- for hosts. gRPC is not code of the repository: a call of the client is a call of the server.
-- `add_voter` is whether raft takes a peer.
pub mod Client
pub mod Register
mod Tests
use vermouth.Prelude.{
  Bool, true, false, Option, none, some, [], Str, codes, length, Go, ret, lock, ℤ, ◌∷◌, ◌==◌,
  if◌then◌else◌, ◌>>=◌, ◌>>◌, nat_eq, str_eq,
}
use vermouth.State.Manager
use vermouth.State.Manager.{RaftAnswer, Vermouth}
use vermouth.Proxy
use vermouth.Proxy.{HttpReverseProxy}
use vermouth.Prelude.Map
use vermouth.Prelude.Int.{int_eq}
use vermouth.State.Context.{
  on_proxy, add_http_proxy_host_opt, add_http_proxy_prefix_opt, do_add_prefix, do_add_host,
}
use vermouth.State.Bodies.{HttpProxyHostBody, AddHttpProxyPrefixBody, Codecs}
use vermouth.Rate.{RateLib}

-- The messages of pb, as far as the program reads them.
pub record RegisterToProxyReq : Type 0 where
  pub port : ℤ
  pub prefix : Str
  pub balance_mode : Str
  pub local_addr : Str
  pub static : Bool

pub record CancelReq : Type 0 where
  pub port : ℤ
  pub prefix : Str
  pub local_addr : Str

pub record LoadBalanceReq : Type 0 where
  pub port : ℤ
  pub prefix : Str
  pub fact : Str

pub record JoinClusterReq : Type 0 where
  pub node_name : Str
  pub tcp_address : Str

pub data RpcError : Type 0 where
  proxy_not_exists : RpcError
  stand_mode : RpcError
  joining_failed : RpcError
  server_error : RpcError
  no_host : RpcError

-- pb.Res with the error of the call
abbrev pub Res : Type 0
Res = Str × Option RpcError

abbrev pub success : Str
success = codes "success"

abbrev pub failed : Str
failed = codes "failed"

module _ (lib : RateLib) (codecs : Codecs) (listens : ℤ → Bool) (raft : Str → RaftAnswer) where
  -- The answer to a command that is the last of its call.
  unfoldable pub reply_to : Option Manager.ManagerError × Vermouth lib → Go (Res × Vermouth lib)
  reply_to (some e, v) = ret ((failed, none), v)
  reply_to (none, v) = ret ((success, none), v)

  -- checkPrefixExists takes the lock.
  unfoldable pub check_prefix_exists : HttpReverseProxy lib → Str → Go Bool
  unfolding lock
  check_prefix_exists proxy prefix = do
    _ ← lock proxy.mutex
    ret (Proxy.prefix_exists lib proxy prefix)

  abbrev pub prefix_body : RegisterToProxyReq → AddHttpProxyPrefixBody
  prefix_body req = record {
    port = req.port;
    prefix = req.prefix;
    balance_type = req.balance_mode;
    proxy_pass = req.local_addr ∷ [];
    static = req.static;
  }

  abbrev pub host_body : RegisterToProxyReq → HttpProxyHostBody
  host_body req = record { port = req.port; prefix = req.prefix; host = req.local_addr }

  -- The change of the table in stand mode, and the entry of the log in cluster mode.
  unfoldable pub register_stand : RegisterToProxyReq → Bool → Vermouth lib → Go (Res × Vermouth lib)
  register_stand req false v = do
    ctx ←
        on_proxy lib req.port
          (Proxy.add_prefix lib req.prefix req.balance_mode (req.local_addr ∷ []) req.static) v.ctx
    ret ((success, none), record v { ctx = ctx })
  register_stand req true v = do
    ctx ← on_proxy lib req.port (Proxy.add_host lib req.prefix req.local_addr) v.ctx
    ret ((success, none), record v { ctx = ctx })

  unfoldable pub register_cluster :
      RegisterToProxyReq → Bool → Vermouth lib → Go (Res × Vermouth lib)
  unfolding reply_to Manager.append_log_entry
  register_cluster req false v =
      Manager.append_log_entry lib codecs listens raft add_http_proxy_prefix_opt codecs.add_prefix
        (prefix_body req) v
      >>= reply_to
  register_cluster req true v =
      Manager.append_log_entry lib codecs listens raft add_http_proxy_host_opt codecs.host
        (host_body req) v
      >>= reply_to

  -- RegisterToProxy, behind the creation of the proxy.
  unfoldable pub register_host :
      RegisterToProxyReq → HttpReverseProxy lib → Vermouth lib → Go (Res × Vermouth lib)
  unfolding check_prefix_exists register_stand register_cluster
  register_host req proxy v =
      if v.mode == Manager.stand
      then (do known ← check_prefix_exists proxy req.prefix; register_stand req known v)
      else if v.mode == Manager.cluster
      then (do known ← check_prefix_exists proxy req.prefix; register_cluster req known v)
      else ret ((success, none), v)

  -- RegisterToProxy: a port without a proxy gets one.
  unfoldable pub register_to_proxy : RegisterToProxyReq → Vermouth lib → Go (Res × Vermouth lib)
  unfolding register_host Manager.add_http_proxy
  register_to_proxy req v = elim (Map.get v.ctx.proxies req.port) [
    | some proxy ↦ register_host req proxy v
    | none ↦ (do
      (e, v1) ←
          Manager.add_http_proxy lib codecs listens raft
            (record { port = req.port; prefix_type = codes "hash-prefixer" }) v
      elim e [
        | some _ ↦ ret ((failed, none), v1)
        | none ↦ elim (Map.get v1.ctx.proxies req.port) [
          | none ↦ ret ((failed, none), v1)
          | some proxy ↦ register_host req proxy v1
        ]
      ])
  ]

  -- Cancel, behind the removal of the host: a prefix that has no hosts is removed too.
  unfoldable pub cancel_prefix : CancelReq → Vermouth lib → Go (Res × Vermouth lib)
  unfolding reply_to
  cancel_prefix req v = do
    proxy ← Proxy.deref (Map.get v.ctx.proxies req.port)
    hosts ← Proxy.get_hosts lib proxy req.prefix
    if length hosts == 0
        then Manager.remove_http_proxy_prefix lib codecs listens raft
            (record { port = req.port; prefix = req.prefix }) v
          >>= reply_to
        else ret ((success, none), v)

  -- Cancel
  unfoldable pub cancel : CancelReq → Vermouth lib → Go (Res × Vermouth lib)
  unfolding cancel_prefix
  cancel req v = do
    (e, v1) ←
        Manager.remove_http_proxy_host lib codecs listens raft
          (record { port = req.port; prefix = req.prefix; host = req.local_addr }) v
    elim e [ some _ ↦ ret ((failed, none), v1) | none ↦ cancel_prefix req v1 ]

  -- LoadBalance
  unfoldable pub load_balance : LoadBalanceReq → Vermouth lib → Go (Res × Vermouth lib)
  load_balance req v = elim (Map.get v.ctx.proxies req.port) [
    | none ↦ ret (([], some proxy_not_exists), v)
    | some proxy ↦ (do
      (addr, proxy') ← Proxy.load_balance lib req.prefix req.fact proxy
      ret (
        (addr, none),
        record v { ctx = record { proxies = Map.put v.ctx.proxies req.port proxy' } },
      ))
  ]

-- JoinCluster, for a Vermouth of this mode
unfoldable pub join_cluster : (Str → Str → Bool) → Str → JoinClusterReq → Res
join_cluster add_voter mode req =
    if mode == Manager.stand
    then (failed, some stand_mode)
    else if add_voter req.node_name req.tcp_address
    then (success, none)
    else (failed, some joining_failed)
