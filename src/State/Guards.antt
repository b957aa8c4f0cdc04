-- ===== src/State/Guards.antt =====
-- vermouth/vermouth_state_manager.go: what a command that succeeds has passed. Its guards held, and
-- what is left is the switch on the mode.
use vermouth.Prelude.{
  inl, inr, Bool, not, none, Bool-cases, Option-cases, Str, ret, ℤ, ◌≡◌, ◌&&◌, ◌==◌, nat_eq, str_eq,
}
use vermouth.Prelude.Int.{int_eq}
use vermouth.Prelude.Map
use vermouth.Proxy
use vermouth.Rate.{RateLib}
use vermouth.State.Bodies.{
  Codecs, AddHttpProxyBody, ChangeHttpProxyStateBody, AddHttpProxyPrefixBody, HttpProxyHostBody,
  HttpBlackListBody, RemoveHttpProxyPrefixBody, HttpRateLimiterBody, HttpChangeStatic,
}
use vermouth.State.Stand
use vermouth.State.Context.{
  add_http_proxy_opt, add_http_proxy_prefix_opt, add_http_proxy_host_opt, add_http_black_list_opt,
  rmv_http_proxy_prefix_opt, rmv_http_proxy_host_opt, rmv_http_black_list_opt, set_rate_limiter_opt,
  chg_static_opt, chg_state_opt,
}
use vermouth.State.Manager.{
  RaftAnswer, Vermouth, by_mode, stand, add_http_proxy, add_http_proxy_prefix,
  remove_http_proxy_prefix, add_http_proxy_host, remove_http_proxy_host, add_black_list,
  remove_black_list, set_rate_limiter, change_static, change_proxy_available,
}

module _ (lib : RateLib) (codecs : Codecs) (listens : ℤ → Bool) (raft : Str → RaftAnswer) where
  pub add_http_proxy-by_mode :
      (body : AddHttpProxyBody) (v v' : Vermouth lib)
      → add_http_proxy lib codecs listens raft body v ≡ ret (none, v')
      → by_mode lib codecs listens raft add_http_proxy_opt codecs.add_http_proxy
          (Stand.add_proxy lib listens)
          body
          v
        ≡ ret (none, v')
  unfolding add_http_proxy
  add_http_proxy-by_mode body v v' e = elim (Bool-cases (Map.has v.ctx.proxies body.port)) [
    | inl k ↦ (let e' = (rw (k, add_http_proxy) at e) in cc)
    | inr k ↦ rw (k, add_http_proxy) at e
  ]

  pub add_http_proxy_prefix-by_mode :
      (body : AddHttpProxyPrefixBody) (v v' : Vermouth lib)
      → add_http_proxy_prefix lib codecs listens raft body v ≡ ret (none, v')
      → by_mode lib codecs listens raft add_http_proxy_prefix_opt codecs.add_prefix
          (Stand.add_prefix lib)
          body
          v
        ≡ ret (none, v')
  unfolding add_http_proxy_prefix
  add_http_proxy_prefix-by_mode body v v' e =
      elim (Option-cases (Map.get v.ctx.proxies body.port)) [
        | inl h ↦ (let e' = (rw (h, add_http_proxy_prefix) at e) in cc)
        | inr (proxy, h) ↦ elim (Bool-cases (Proxy.prefix_exists lib proxy body.prefix)) [
          | inl k ↦ (let e' = (rw (h, k, add_http_proxy_prefix) at e) in cc)
          | inr k ↦ rw (h, k, add_http_proxy_prefix) at e
        ]
      ]

  pub remove_http_proxy_prefix-by_mode :
      (body : RemoveHttpProxyPrefixBody) (v v' : Vermouth lib)
      → remove_http_proxy_prefix lib codecs listens raft body v ≡ ret (none, v')
      → by_mode lib codecs listens raft rmv_http_proxy_prefix_opt codecs.remove_prefix
          (Stand.remove_prefix lib)
          body
          v
        ≡ ret (none, v')
  unfolding remove_http_proxy_prefix
  remove_http_proxy_prefix-by_mode body v v' e =
      elim (Option-cases (Map.get v.ctx.proxies body.port)) [
        | inl h ↦ (let e' = (rw (h, remove_http_proxy_prefix) at e) in cc)
        | inr (proxy, h) ↦ elim (Bool-cases (Proxy.prefix_exists lib proxy body.prefix)) [
          | inl k ↦ rw (h, k, remove_http_proxy_prefix) at e
          | inr k ↦ (let e' = (rw (h, k, remove_http_proxy_prefix) at e) in cc)
        ]
      ]

  pub add_http_proxy_host-by_mode :
      (body : HttpProxyHostBody) (v v' : Vermouth lib)
      → add_http_proxy_host lib codecs listens raft body v ≡ ret (none, v')
      → by_mode lib codecs listens raft add_http_proxy_host_opt codecs.host
          (Stand.add_host lib)
          body
          v
        ≡ ret (none, v')
  unfolding add_http_proxy_host
  add_http_proxy_host-by_mode body v v' e = elim (Option-cases (Map.get v.ctx.proxies body.port)) [
    | inl h ↦ (let e' = (rw (h, add_http_proxy_host) at e) in cc)
    | inr (proxy, h) ↦ elim (Bool-cases (Proxy.host_exists lib proxy body.prefix body.host)) [
      | inl k ↦ (let e' = (rw (h, k, add_http_proxy_host) at e) in cc)
      | inr k ↦ rw (h, k, add_http_proxy_host) at e
    ]
  ]

  pub remove_http_proxy_host-by_mode :
      (body : HttpProxyHostBody) (v v' : Vermouth lib)
      → remove_http_proxy_host lib codecs listens raft body v ≡ ret (none, v')
      → by_mode lib codecs listens raft rmv_http_proxy_host_opt codecs.host
          (Stand.remove_host lib)
          body
          v
        ≡ ret (none, v')
  unfolding remove_http_proxy_host
  remove_http_proxy_host-by_mode body v v' e =
      elim (Option-cases (Map.get v.ctx.proxies body.port)) [
        | inl h ↦ (let e' = (rw (h, remove_http_proxy_host) at e) in cc)
        | inr (proxy, h) ↦ elim (Bool-cases (Proxy.host_exists lib proxy body.prefix body.host)) [
          | inl k ↦ (let e' = (rw (h, k, remove_http_proxy_host) at e) in cc)
          | inr k ↦ rw (h, k, remove_http_proxy_host) at e
        ]
      ]

  pub add_black_list-by_mode :
      (body : HttpBlackListBody) (v v' : Vermouth lib)
      → add_black_list lib codecs listens raft body v ≡ ret (none, v')
      → by_mode lib codecs listens raft add_http_black_list_opt codecs.black_list
          (Stand.add_black_list lib)
          body
          v
        ≡ ret (none, v')
  unfolding add_black_list
  add_black_list-by_mode body v v' e =
      elim (Bool-cases (v.mode == stand && not (Map.has v.ctx.proxies body.port))) [
        | inl k ↦ (let e' = (rw (k, add_black_list) at e) in cc)
        | inr k ↦ rw (k, add_black_list) at e
      ]

  pub remove_black_list-by_mode :
      (body : HttpBlackListBody) (v v' : Vermouth lib)
      → remove_black_list lib codecs listens raft body v ≡ ret (none, v')
      → by_mode lib codecs listens raft rmv_http_black_list_opt codecs.black_list
          (Stand.remove_black_list lib)
          body
          v
        ≡ ret (none, v')
  unfolding remove_black_list
  remove_black_list-by_mode body v v' e =
      elim (Bool-cases (v.mode == stand && not (Map.has v.ctx.proxies body.port))) [
        | inl k ↦ (let e' = (rw (k, remove_black_list) at e) in cc)
        | inr k ↦ rw (k, remove_black_list) at e
      ]

  pub set_rate_limiter-by_mode :
      (body : HttpRateLimiterBody) (v v' : Vermouth lib)
      → set_rate_limiter lib codecs listens raft body v ≡ ret (none, v')
      → by_mode lib codecs listens raft set_rate_limiter_opt codecs.rate_limiter
          (Stand.set_rate_limiter lib)
          body
          v
        ≡ ret (none, v')
  unfolding set_rate_limiter
  set_rate_limiter-by_mode body v v' e = elim (Bool-cases (Map.has v.ctx.proxies body.port)) [
    | inl k ↦ rw (k, set_rate_limiter) at e
    | inr k ↦ (let e' = (rw (k, set_rate_limiter) at e) in cc)
  ]

  pub change_static-by_mode :
      (body : HttpChangeStatic) (v v' : Vermouth lib)
      → change_static lib codecs listens raft body v ≡ ret (none, v')
      → by_mode lib codecs listens raft chg_static_opt codecs.change_static
          (Stand.change_static lib)
          body
          v
        ≡ ret (none, v')
  unfolding change_static
  change_static-by_mode body v v' e = elim (Bool-cases (Map.has v.ctx.proxies body.port)) [
    | inl k ↦ rw (k, change_static) at e
    | inr k ↦ (let e' = (rw (k, change_static) at e) in cc)
  ]

  pub change_proxy_available-by_mode :
      (body : ChangeHttpProxyStateBody) (v v' : Vermouth lib)
      → change_proxy_available lib codecs listens raft body v ≡ ret (none, v')
      → by_mode lib codecs listens raft chg_state_opt codecs.change_state
          (Stand.change_available lib)
          body
          v
        ≡ ret (none, v')
  unfolding change_proxy_available
  change_proxy_available-by_mode body v v' e = elim (Bool-cases (Map.has v.ctx.proxies body.port)) [
    | inl k ↦ rw (k, change_proxy_available) at e
    | inr k ↦ (let e' = (rw (k, change_proxy_available) at e) in cc)
  ]
