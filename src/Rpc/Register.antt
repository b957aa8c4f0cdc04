-- ===== src/Rpc/Register.antt =====
-- vermouth/rpc_server.go and client/client.go: a host that is registered, and its cancellation.
use vermouth.State.Hosts.{remove-listed}
use vermouth.State.Context.{on_proxy, do_add_prefix}
use vermouth.Rpc.Client.{RpcClient, mode_of, client_cancel, client_register}
use vermouth.State.Manager.{RaftAnswer, Vermouth}
use vermouth.Proxy.{HttpReverseProxy}
use vermouth.Rate.{RateLib}
use vermouth.Prelude.{
  refl, Bool, true, false, none, some, List, [], Str, codes, str_beq, beq_refl, contains, ret,
  unlocked, lock, unlock, ℤ, ◌≡◌, ◌∷◌, nat_eq, str_eq,
}
use vermouth.Prelude.Map
use vermouth.Prelude.Int.{int_eq}
use vermouth.Proxy
use vermouth.Prefix
use vermouth.State.Manager
use vermouth.State.Bodies.{Codecs}
use vermouth.Rpc.{server_error, register_host, register_to_proxy, success, cancel}
use vermouth.Balancer
use vermouth.State.Manager

round_robin_built :
    (hosts : List Str)
    → Balancer.build (codes "round-robin") hosts
      ≡ ret (some (Balancer.round_robin (record { idx = 0; hosts = hosts })))
unfolding Balancer.build str_beq vermouth.Balancer.RoundRobin.new
round_robin_built hosts = refl

module _ (lib : RateLib) where
  -- AddPrefix of a prefix that is not there lists the host.
  add_prefix-listed :
      (prefix addr : Str) (static : Bool) (proxy : HttpReverseProxy lib)
      → proxy.mutex ≡ unlocked
      → Map.has proxy.prefix_mapping.mapping prefix ≡ false
      → (p : HttpReverseProxy lib) × (Proxy.add_prefix lib prefix
            (codes "round-robin")
            (addr ∷ [])
            static
            proxy
          ≡ ret p)
        × (Proxy.host_exists lib p prefix addr ≡ true)
  unfolding Proxy.add_prefix Proxy.locked lock unlock Proxy.add_prefix_body Prefix.add Prefix.added
      Prefix.get_balancer Balancer.hosts Proxy.host_exists contains
  add_prefix-listed prefix addr static proxy free new = (
    listing,
    rw
        (
          Proxy.add_prefix,
          Proxy.locked,
          lock,
          free,
          Proxy.add_prefix_body,
          new,
          Prefix.add,
          round_robin_built (addr ∷ []),
          Prefix.get_balancer,
          Map.get-put_self proxy.prefix_mapping.mapping prefix added,
        )
        refl,
    rw (Map.get-put_self proxy.paths prefix (addr ∷ []), beq_refl addr) refl,
  )
    where
      added : Balancer.Balancer
      added = Balancer.round_robin (record { idx = 0; hosts = addr ∷ [] })

      listing : HttpReverseProxy lib
      listing = record proxy {
        static_mapping = Map.put proxy.static_mapping prefix static;
        prefix_mapping = record { mapping = Map.put proxy.prefix_mapping.mapping prefix added };
        balancer_type = Map.put proxy.balancer_type prefix (codes "round-robin");
        paths = Map.put proxy.paths prefix (addr ∷ []);
        mutex = unlocked;
      }

module _ (lib : RateLib) (codecs : Codecs) (listens : ℤ → Bool) (raft : Str → RaftAnswer) where
  register_to_proxy-listed :
      (port : ℤ) (prefix addr : Str) (v : Vermouth lib) (proxy p : HttpReverseProxy lib)
      → v.mode ≡ Manager.stand
      → Map.get v.ctx.proxies port ≡ some proxy
      → proxy.mutex ≡ unlocked
      → Proxy.prefix_exists lib proxy prefix ≡ false
      → Proxy.add_prefix lib prefix (codes "round-robin") (addr ∷ []) false proxy ≡ ret p
      → register_to_proxy lib codecs listens raft
          (record {
            port = port;
            prefix = prefix;
            balance_mode = codes "round-robin";
            local_addr = addr;
            static = false;
          })
          v
        ≡ ret
            ((success, none), record v { ctx = record { proxies = Map.put v.ctx.proxies port p } })
  unfolding register_to_proxy register_host do_add_prefix on_proxy lock str_beq Proxy.prefix_exists
      Map.put
  register_to_proxy-listed port prefix addr v proxy p stands listed free missing added =
      rw
        (
          register_to_proxy, listed, register_host, free, missing, stands, do_add_prefix, on_proxy,
          listed, added,
        )
        refl

  -- In stand mode, on a port whose proxy has a free lock and does not know the prefix: the client
  -- registers its host without an error, with the algorithm round-robin, which is the default. If it
  -- cancels then, the call reports an error, and the table is as it was, with the host still listed.
  pub client_register-cancel :
      (port : ℤ) (prefix addr : Str) (opt : List Str) (client : RpcClient) (v : Vermouth lib)
      (proxy : HttpReverseProxy lib)
      → mode_of opt ≡ codes "round-robin"
      → v.mode ≡ Manager.stand
      → Map.get v.ctx.proxies port ≡ some proxy
      → proxy.mutex ≡ unlocked
      → Proxy.prefix_exists lib proxy prefix ≡ false
      → Map.has proxy.prefix_mapping.mapping prefix ≡ false
      → (c : RpcClient) × (w : Vermouth lib) × (p : HttpReverseProxy lib) × (client_register lib
            codecs listens raft port prefix addr opt client v
          ≡ ret (none, c, w))
        × (Map.get w.ctx.proxies port ≡ some p)
        × (Proxy.host_exists lib p prefix addr ≡ true)
        × (client_cancel lib codecs listens raft c w ≡ ret (some server_error, w))
  unfolding client_register client_cancel cancel str_beq
  client_register-cancel port prefix addr opt client v proxy mode stands listed free missing
        unmapped =
      let (p, added, there) = add_prefix-listed lib prefix addr false proxy free unmapped in
      let w : Vermouth lib = record v { ctx = record { proxies = Map.put v.ctx.proxies port p } } in
      let c : RpcClient = record { port = port; prefix = prefix; local_addr = addr } in
      let found = Map.get-put_self v.ctx.proxies port p in
      (
        c,
        w,
        p,
        rw
            (
              client_register,
              mode,
              register_to_proxy-listed port prefix addr v proxy p stands listed free missing added,
            )
            refl,
        found,
        there,
        rw (cancel, remove-listed lib codecs listens raft port prefix addr p w found there) refl,
      )
