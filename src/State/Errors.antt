-- ===== src/State/Errors.antt =====
-- vermouth/vermouth_state_manager.go: a command that returns an error, in either mode.
use vermouth.Prelude.{
  ℕ, refl, inl, inr, Bool, not, none, some, [], arith, Bool-cases, Option-cases, Str, str_beq_iff,
  Go, ret, >>=-eq-ret, ℤ, ◌≡◌, ◌⊎◌, ◌&&◌, ◌∷◌, ◌++◌, ◌==◌, nat_eq, str_eq,
}
use vermouth.Prelude.Int.{int_eq}
use vermouth.Prelude.Map
use vermouth.Balancer
use vermouth.Prefix
use vermouth.Proxy
use vermouth.Rate.{RateLib}
use vermouth.State.Bodies.{
  Codec, Codecs, AddHttpProxyBody, ChangeHttpProxyStateBody, AddHttpProxyPrefixBody,
  HttpProxyHostBody, HttpBlackListBody, RemoveHttpProxyPrefixBody, HttpRateLimiterBody,
  HttpChangeStatic, HttpChangeLbBody,
}
use vermouth.State.LogEntry.{encode}
use vermouth.State.Stand
use vermouth.State.Context.{
  apply, StateContext, add_http_proxy_opt, add_http_proxy_prefix_opt, rmv_http_proxy_prefix_opt,
  add_http_proxy_host_opt, rmv_http_proxy_host_opt, add_http_black_list_opt,
  rmv_http_black_list_opt, set_rate_limiter_opt, chg_static_opt, chg_state_opt, chg_lb_opt,
}
use vermouth.State.Manager.{RaftAnswer, applied, refused, lost, write_log_entry}
use vermouth.State.Command.{
  Command, execute, adding_proxy, adding_prefix, removing_prefix, adding_host, removing_host,
  adding_black_list, removing_black_list, setting_rate_limiter, changing_static, changing_lb,
  changing_available,
}
use vermouth.State.Manager.{
  RaftAnswer, RaftAnswer, RaftAnswer, RaftAnswer, RaftAnswer, RaftAnswer, RaftAnswer, RaftAnswer,
  RaftAnswer, RaftAnswer, write_log_entry, RaftAnswer, RaftAnswer, Vermouth, ManagerError, by_mode,
  append_log_entry, stand, cluster, add_http_proxy, add_http_proxy_prefix, remove_http_proxy_prefix,
  add_http_proxy_host, remove_http_proxy_host, add_black_list, remove_black_list, set_rate_limiter,
  change_static, change_lb, change_proxy_available,
}

module _ (lib : RateLib) (raft : Str → RaftAnswer) where
  -- Nothing was changed; or, in cluster mode, one entry went into the log for which raft lost its
  -- answer, and the table is as it was.
  unfoldable pub Undone : Vermouth lib → Vermouth lib → Type 0
  Undone v v' =
      (v' ≡ v)
      ⊎ ((v.mode ≡ cluster)
          × ((entry : Str) × (raft entry ≡ lost) × (v' ≡ record v { log = v.log ++ entry ∷ [] })))

module _ (lib : RateLib) (codecs : Codecs) (listens : ℤ → Bool) (raft : Str → RaftAnswer) where
  write-error :
      (entry : Str) (answer : RaftAnswer) (v v' : Vermouth lib) (e : ManagerError)
      → write_log_entry lib codecs listens raft entry answer v ≡ ret (some e, v')
      → (v' ≡ v) ⊎ ((answer ≡ lost) × (v' ≡ record v { log = v.log ++ entry ∷ [] }))
  unfolding write_log_entry
  write-error entry refused v v' e r = inl cc
  write-error entry lost v v' e r = inr (refl, cc)
  write-error entry applied v v' e r =
      let (x, k, q) =
        >>=-eq-ret (apply lib codecs listens (some entry) v.ctx)
          (λ x. ret (none, record v { log = v.log ++ entry ∷ []; ctx = x.1 })) r in
      cc

  append-error :
      {Body : Type 0} (opt : ℕ) (codec : Codec Body) (body : Body) (v v' : Vermouth lib)
      (e : ManagerError)
      → v.mode ≡ cluster
      → append_log_entry lib codecs listens raft opt codec body v ≡ ret (some e, v')
      → Undone lib raft v v'
  unfolding append_log_entry Undone
  append-error opt codec body v v' e m r = elim (Option-cases (codec.encode body)) [
    | inl h ↦ (let r' = (rw (h, append_log_entry) at r) in inl cc)
    | inr (payload, h) ↦
        (let entry = encode (record { opt = opt; payload = payload }) in
          elim (write-error entry (raft entry) v v' e (rw (h, append_log_entry) at r)) [
            | inl same ↦ inl same
            | inr (gone, logged) ↦ inr (m, (entry, gone, logged))
          ])
  ]

  by_mode-error :
      {Body : Type 0} (opt : ℕ) (codec : Codec Body)
      (act : Body → StateContext lib → Go (StateContext lib)) (body : Body) (v v' : Vermouth lib)
      (e : ManagerError)
      → by_mode lib codecs listens raft opt codec act body v ≡ ret (some e, v')
      → Undone lib raft v v'
  unfolding by_mode Undone
  by_mode-error opt codec act body v v' e r = elim (Bool-cases (v.mode == stand)) [
    | inl h ↦
        (let (ctx, k, q) =
            >>=-eq-ret (act body v.ctx) (λ c. ret (none, record v { ctx = c }))
              (rw (h, by_mode) at r) in
          inl cc)
    | inr h ↦ elim (Bool-cases (v.mode == cluster)) [
      | inl k ↦
          append-error opt codec body v v' e (ground (arith, str_beq_iff v.mode cluster))
            (rw (h, k, by_mode) at r)
      | inr k ↦ (let r' = (rw (h, k, by_mode) at r) in inl cc)
    ]
  ]

  add_http_proxy-error :
      (body : AddHttpProxyBody) (v v' : Vermouth lib) (e : ManagerError)
      → add_http_proxy lib codecs listens raft body v ≡ ret (some e, v')
      → Undone lib raft v v'
  unfolding add_http_proxy Undone
  add_http_proxy-error body v v' e r = elim (Bool-cases (Map.has v.ctx.proxies body.port)) [
    | inl k ↦ (let r' = (rw (k, add_http_proxy) at r) in inl cc)
    | inr k ↦
        by_mode-error add_http_proxy_opt codecs.add_http_proxy (Stand.add_proxy lib listens) body v
          v' e (rw (k, add_http_proxy) at r)
  ]

  add_http_proxy_prefix-error :
      (body : AddHttpProxyPrefixBody) (v v' : Vermouth lib) (e : ManagerError)
      → add_http_proxy_prefix lib codecs listens raft body v ≡ ret (some e, v')
      → Undone lib raft v v'
  unfolding add_http_proxy_prefix Undone
  add_http_proxy_prefix-error body v v' e r =
      elim (Option-cases (Map.get v.ctx.proxies body.port)) [
        | inl h ↦ (let r' = (rw (h, add_http_proxy_prefix) at r) in inl cc)
        | inr (proxy, h) ↦ elim (Bool-cases (Proxy.prefix_exists lib proxy body.prefix)) [
          | inl k ↦ (let r' = (rw (h, k, add_http_proxy_prefix) at r) in inl cc)
          | inr k ↦
              by_mode-error add_http_proxy_prefix_opt codecs.add_prefix (Stand.add_prefix lib) body
                v v' e (rw (h, k, add_http_proxy_prefix) at r)
        ]
      ]

  remove_http_proxy_prefix-error :
      (body : RemoveHttpProxyPrefixBody) (v v' : Vermouth lib) (e : ManagerError)
      → remove_http_proxy_prefix lib codecs listens raft body v ≡ ret (some e, v')
      → Undone lib raft v v'
  unfolding remove_http_proxy_prefix Undone
  remove_http_proxy_prefix-error body v v' e r =
      elim (Option-cases (Map.get v.ctx.proxies body.port)) [
        | inl h ↦ (let r' = (rw (h, remove_http_proxy_prefix) at r) in inl cc)
        | inr (proxy, h) ↦ elim (Bool-cases (Proxy.prefix_exists lib proxy body.prefix)) [
          | inl k ↦
              by_mode-error rmv_http_proxy_prefix_opt codecs.remove_prefix (Stand.remove_prefix lib)
                body v v' e (rw (h, k, remove_http_proxy_prefix) at r)
          | inr k ↦ (let r' = (rw (h, k, remove_http_proxy_prefix) at r) in inl cc)
        ]
      ]

  add_http_proxy_host-error :
      (body : HttpProxyHostBody) (v v' : Vermouth lib) (e : ManagerError)
      → add_http_proxy_host lib codecs listens raft body v ≡ ret (some e, v')
      → Undone lib raft v v'
  unfolding add_http_proxy_host Undone
  add_http_proxy_host-error body v v' e r = elim (Option-cases (Map.get v.ctx.proxies body.port)) [
    | inl h ↦ (let r' = (rw (h, add_http_proxy_host) at r) in inl cc)
    | inr (proxy, h) ↦ elim (Bool-cases (Proxy.host_exists lib proxy body.prefix body.host)) [
      | inl k ↦ (let r' = (rw (h, k, add_http_proxy_host) at r) in inl cc)
      | inr k ↦
          by_mode-error add_http_proxy_host_opt codecs.host (Stand.add_host lib) body v v' e
            (rw (h, k, add_http_proxy_host) at r)
    ]
  ]

  remove_http_proxy_host-error :
      (body : HttpProxyHostBody) (v v' : Vermouth lib) (e : ManagerError)
      → remove_http_proxy_host lib codecs listens raft body v ≡ ret (some e, v')
      → Undone lib raft v v'
  unfolding remove_http_proxy_host Undone
  remove_http_proxy_host-error body v v' e r =
      elim (Option-cases (Map.get v.ctx.proxies body.port)) [
        | inl h ↦ (let r' = (rw (h, remove_http_proxy_host) at r) in inl cc)
        | inr (proxy, h) ↦ elim (Bool-cases (Proxy.host_exists lib proxy body.prefix body.host)) [
          | inl k ↦ (let r' = (rw (h, k, remove_http_proxy_host) at r) in inl cc)
          | inr k ↦
              by_mode-error rmv_http_proxy_host_opt codecs.host (Stand.remove_host lib) body v v' e
                (rw (h, k, remove_http_proxy_host) at r)
        ]
      ]

  add_black_list-error :
      (body : HttpBlackListBody) (v v' : Vermouth lib) (e : ManagerError)
      → add_black_list lib codecs listens raft body v ≡ ret (some e, v')
      → Undone lib raft v v'
  unfolding add_black_list Undone
  add_black_list-error body v v' e r =
      elim (Bool-cases (v.mode == stand && not (Map.has v.ctx.proxies body.port))) [
        | inl k ↦ (let r' = (rw (k, add_black_list) at r) in inl cc)
        | inr k ↦
            by_mode-error add_http_black_list_opt codecs.black_list (Stand.add_black_list lib) body
              v v' e (rw (k, add_black_list) at r)
      ]

  remove_black_list-error :
      (body : HttpBlackListBody) (v v' : Vermouth lib) (e : ManagerError)
      → remove_black_list lib codecs listens raft body v ≡ ret (some e, v')
      → Undone lib raft v v'
  unfolding remove_black_list Undone
  remove_black_list-error body v v' e r =
      elim (Bool-cases (v.mode == stand && not (Map.has v.ctx.proxies body.port))) [
        | inl k ↦ (let r' = (rw (k, remove_black_list) at r) in inl cc)
        | inr k ↦
            by_mode-error rmv_http_black_list_opt codecs.black_list (Stand.remove_black_list lib)
              body v v' e (rw (k, remove_black_list) at r)
      ]

  set_rate_limiter-error :
      (body : HttpRateLimiterBody) (v v' : Vermouth lib) (e : ManagerError)
      → set_rate_limiter lib codecs listens raft body v ≡ ret (some e, v')
      → Undone lib raft v v'
  unfolding set_rate_limiter Undone
  set_rate_limiter-error body v v' e r = elim (Bool-cases (Map.has v.ctx.proxies body.port)) [
    | inl k ↦
        by_mode-error set_rate_limiter_opt codecs.rate_limiter (Stand.set_rate_limiter lib) body v
          v' e (rw (k, set_rate_limiter) at r)
    | inr k ↦ (let r' = (rw (k, set_rate_limiter) at r) in inl cc)
  ]

  change_static-error :
      (body : HttpChangeStatic) (v v' : Vermouth lib) (e : ManagerError)
      → change_static lib codecs listens raft body v ≡ ret (some e, v')
      → Undone lib raft v v'
  unfolding change_static Undone
  change_static-error body v v' e r = elim (Bool-cases (Map.has v.ctx.proxies body.port)) [
    | inl k ↦
        by_mode-error chg_static_opt codecs.change_static (Stand.change_static lib) body v v' e
          (rw (k, change_static) at r)
    | inr k ↦ (let r' = (rw (k, change_static) at r) in inl cc)
  ]

  change_proxy_available-error :
      (body : ChangeHttpProxyStateBody) (v v' : Vermouth lib) (e : ManagerError)
      → change_proxy_available lib codecs listens raft body v ≡ ret (some e, v')
      → Undone lib raft v v'
  unfolding change_proxy_available Undone
  change_proxy_available-error body v v' e r = elim (Bool-cases (Map.has v.ctx.proxies body.port)) [
    | inl k ↦
        by_mode-error chg_state_opt codecs.change_state (Stand.change_available lib) body v v' e
          (rw (k, change_proxy_available) at r)
    | inr k ↦ (let r' = (rw (k, change_proxy_available) at r) in inl cc)
  ]

  change_lb-error :
      (body : HttpChangeLbBody) (v v' : Vermouth lib) (e : ManagerError)
      → change_lb lib codecs listens raft body v ≡ ret (some e, v')
      → Undone lib raft v v'
  unfolding change_lb Undone
  change_lb-error body v v' e r = elim (Option-cases (Map.get v.ctx.proxies body.port)) [
    | inl h ↦ (let r' = (rw (h, change_lb) at r) in inl cc)
    | inr (proxy, h) ↦ elim (Option-cases (Prefix.get_balancer proxy.prefix_mapping body.prefix)) [
      | inl q ↦ (let r' = (rw (h, q, change_lb) at r) in inl cc)
      | inr (lb, q) ↦ elim (Bool-cases (Balancer.mode lb == body.lb)) [
        | inl k ↦ (let r' = (rw (h, q, k, change_lb) at r) in inl cc)
        | inr k ↦
            by_mode-error chg_lb_opt codecs.change_lb (Stand.change_lb lib) body v v' e
              (rw (h, q, k, change_lb) at r)
      ]
    ]
  ]

  -- A command that returns an error leaves the table as it was, and the log too, but for the entry of
  -- a cluster's command for which raft lost its answer.
  pub execute-error :
      (c : Command) (v v' : Vermouth lib) (e : ManagerError)
      → execute lib codecs listens raft c v ≡ ret (some e, v')
      → Undone lib raft v v'
  unfolding execute
  execute-error (adding_proxy b) v v' e r = add_http_proxy-error b v v' e r
  execute-error (adding_prefix b) v v' e r = add_http_proxy_prefix-error b v v' e r
  execute-error (removing_prefix b) v v' e r = remove_http_proxy_prefix-error b v v' e r
  execute-error (adding_host b) v v' e r = add_http_proxy_host-error b v v' e r
  execute-error (removing_host b) v v' e r = remove_http_proxy_host-error b v v' e r
  execute-error (adding_black_list b) v v' e r = add_black_list-error b v v' e r
  execute-error (removing_black_list b) v v' e r = remove_black_list-error b v v' e r
  execute-error (setting_rate_limiter b) v v' e r = set_rate_limiter-error b v v' e r
  execute-error (changing_static b) v v' e r = change_static-error b v v' e r
  execute-error (changing_available b) v v' e r = change_proxy_available-error b v v' e r
  execute-error (changing_lb b) v v' e r = change_lb-error b v v' e r
