-- ===== src/Proxy/Runs.antt =====
-- vermouth/http_proxy.go: runs of operations on a new proxy, and its tables.
use vermouth.Prelude.{
  ℕ, refl, inl, inr, Bool, true, false, List, [], Bool-cases, Option-cases, Str, str_beq, Go, ret,
  >>=-eq-ret, ret-injective, ℤ, pos, ◌≡◌, ◌∷◌, ◌==◌, nat_eq, str_eq,
}
use mathlib.Core.Path.{subst}
use vermouth.Balancer.Kinds.{add-mode, remove-mode}
use vermouth.Acl.{RadixTree}
use vermouth.Prefix
use vermouth.Rate
use vermouth.Rate.{RateLib, QpsRateLimiter}
use vermouth.Prelude.Int.{int_eq}
use vermouth.Prelude.Map
use vermouth.Proxy.{
  HttpReverseProxy, HttpProxyArgs, new_http_reverse_proxy, add_prefix, remove_prefix, add_host,
  remove_host, change_lb, change_static, change_state, start, stop, close, deref,
  change_static_body, set_available,
}
use vermouth.Proxy.Networks.{add_black_list, remove_black_list, change_acl}
use vermouth.Proxy.Limiters.{set_rate_limit, create_rate_limiter, complete_url, set_rate_limit_body}
use vermouth.Proxy.Ops.{
  Op, adding_prefix, removing_prefix, adding_host, removing_host, changing_lb, changing_static,
  changing_state, adding_black_list, removing_black_list, setting_rate_limit, serving, serve,
  perform, perform_all,
}
use vermouth.Proxy.Create.{create-IsSynced}
use vermouth.Proxy.Requests.{serve_http-IsSynced}
use vermouth.Proxy.Serve.{serve_http}
use vermouth.Net.{Request}
use vermouth.Proxy.Sync.{
  IsSynced, Keeps, locked-IsSynced, add_prefix_body-IsSynced, remove_prefix_body-IsSynced,
  change_host_body-IsSynced,
}

module _ (lib : RateLib) where
  remove_prefix-IsSynced : (prefix : Str) → Keeps lib (remove_prefix lib prefix)
  unfolding remove_prefix
  remove_prefix-IsSynced prefix =
      locked-IsSynced lib _ λ p q e s.
        subst (IsSynced lib) (ret-injective e) (remove_prefix_body-IsSynced lib prefix p s)

  add_prefix-IsSynced :
      (prefix algo : Str) (hosts : List Str) (is_static : Bool)
      → Keeps lib (add_prefix lib prefix algo hosts is_static)
  unfolding add_prefix
  add_prefix-IsSynced prefix algo hosts is_static =
      locked-IsSynced lib _ (add_prefix_body-IsSynced lib prefix algo hosts is_static)

  change_lb-IsSynced : (prefix lb : Str) → Keeps lib (change_lb lib prefix lb)
  unfolding change_lb
  change_lb-IsSynced prefix lb p q e s =
      let (old, _, e1) = >>=-eq-ret (deref (Prefix.get_balancer p.prefix_mapping prefix)) _ e in
      let (r, removed, e2) = >>=-eq-ret (remove_prefix lib prefix p) _ e1 in
      add_prefix-IsSynced prefix lb _ _ r q e2 (remove_prefix-IsSynced prefix p r removed s)

  change_static-IsSynced : (prefix : Str) → Keeps lib (change_static lib prefix)
  unfolding change_static
  change_static-IsSynced prefix = locked-IsSynced lib (change_static_body lib prefix) λ p q e s.
      subst (IsSynced lib) (ret-injective e) (record { hosts = s.hosts; types = s.types })

  set_available-IsSynced : (b : Bool) → Keeps lib (set_available lib b)
  unfolding set_available
  set_available-IsSynced b p q e s =
      subst (IsSynced lib) (ret-injective e) (record { hosts = s.hosts; types = s.types })

  start-IsSynced : Keeps lib (start lib)
  unfolding start
  start-IsSynced = locked-IsSynced lib (set_available lib true) (set_available-IsSynced true)

  stop-IsSynced : Keeps lib (stop lib)
  unfolding stop
  stop-IsSynced = locked-IsSynced lib (set_available lib false) (set_available-IsSynced false)

  close-IsSynced : Keeps lib (close lib)
  unfolding close
  close-IsSynced p q e s = elim (Bool-cases p.serving) [
    | inl up ↦
        subst (IsSynced lib) (ret-injective (rw up at e))
          (record { hosts = s.hosts; types = s.types })
    | inr down ↦ let e' = (rw down at e) in cc
  ]

  change_state-IsSynced : (state : ℤ) → Keeps lib (change_state lib state)
  unfolding change_state
  change_state-IsSynced state p q e s = elim (Bool-cases (state == pos 1)) [
    | inl one ↦ start-IsSynced p q (rw one at e) s
    | inr not_one ↦ elim (Bool-cases (state == pos 2)) [
      | inl two ↦ stop-IsSynced p q (rw (not_one, two) at e) s
      | inr other ↦ close-IsSynced p q (rw (not_one, other) at e) s
    ]
  ]

  change_acl-IsSynced : (f : RadixTree → Go RadixTree) → Keeps lib (change_acl lib f)
  unfolding change_acl
  change_acl-IsSynced f p q e s =
      let (t, _, e') = >>=-eq-ret (f p.acl) _ e in
      subst (IsSynced lib) (ret-injective e') (record { hosts = s.hosts; types = s.types })

  add_black_list-IsSynced : (ips : List Str) → Keeps lib (add_black_list lib ips)
  unfolding add_black_list
  add_black_list-IsSynced ips = locked-IsSynced lib _ (change_acl-IsSynced _)

  remove_black_list-IsSynced : (ips : List Str) → Keeps lib (remove_black_list lib ips)
  unfolding remove_black_list
  remove_black_list-IsSynced ips = locked-IsSynced lib _ (change_acl-IsSynced _)

  set_rate_limit_body-IsSynced :
      (prefix api_path type : Str) (init speed : ℤ)
      → Keeps lib (set_rate_limit_body lib prefix api_path type init speed)
  unfolding set_rate_limit_body
  set_rate_limit_body-IsSynced prefix api_path type init speed p q e s =
      elim (Option-cases (Map.get p.rate_limiters (complete_url prefix api_path))) [
        | inl missing ↦
            let ((l, r), run, e') =
              >>=-eq-ret (create_rate_limiter lib prefix api_path type init speed p) _
                (rw (missing, set_rate_limit_body) at e) in
            subst (IsSynced lib) (ret-injective e')
              (create-IsSynced lib prefix api_path type init speed p r l run s)
        | inr (l0, there) ↦
            let (l1, _, e') =
              >>=-eq-ret (Rate.set_rate lib init speed l0) _
                (rw (there, set_rate_limit_body) at e) in
            subst (IsSynced lib) (ret-injective e') (record { hosts = s.hosts; types = s.types })
      ]

  set_rate_limit-IsSynced :
      (prefix api_path type : Str) (init speed : ℤ)
      → Keeps lib (set_rate_limit lib prefix api_path type init speed)
  unfolding set_rate_limit
  set_rate_limit-IsSynced prefix api_path type init speed =
      locked-IsSynced lib (set_rate_limit_body lib prefix api_path type init speed)
        (set_rate_limit_body-IsSynced prefix api_path type init speed)

  serve-IsSynced :
      (now : ℕ) (peer_available : Bool) (r : Request) → Keeps lib (serve lib now peer_available r)
  unfolding serve
  serve-IsSynced now peer_available r p q e s =
      let ((reply, d), run, e1) = >>=-eq-ret (serve_http lib now peer_available r p) _ e in
      subst (IsSynced lib) (ret-injective e1)
        (serve_http-IsSynced lib now peer_available r p d reply run s)

  perform-IsSynced : (op : Op) → Keeps lib (perform lib op)
  unfolding perform
  perform-IsSynced (adding_prefix prefix algo hosts is_static) =
      add_prefix-IsSynced prefix algo hosts is_static
  perform-IsSynced (removing_prefix prefix) = remove_prefix-IsSynced prefix
  perform-IsSynced (adding_host prefix host) =
      unfold add_host in
      locked-IsSynced lib _ (change_host_body-IsSynced lib _ prefix (add-mode host))
  perform-IsSynced (removing_host prefix host) =
      unfold remove_host in
      locked-IsSynced lib _ (change_host_body-IsSynced lib _ prefix (remove-mode host))
  perform-IsSynced (changing_lb prefix lb) = change_lb-IsSynced prefix lb
  perform-IsSynced (changing_static prefix) = change_static-IsSynced prefix
  perform-IsSynced (changing_state state) = change_state-IsSynced state
  perform-IsSynced (adding_black_list ips) = add_black_list-IsSynced ips
  perform-IsSynced (removing_black_list ips) = remove_black_list-IsSynced ips
  perform-IsSynced (setting_rate_limit prefix api_path type init speed) =
      set_rate_limit-IsSynced prefix api_path type init speed
  perform-IsSynced (serving now peer_available r) = serve-IsSynced now peer_available r

  run-IsSynced : (ops : List Op) → Keeps lib (perform_all lib ops)
  unfolding perform_all
  run-IsSynced [] p q e s = subst (IsSynced lib) (ret-injective e) s
  run-IsSynced (op ∷ ops) p q e s =
      let (r, run, e') = >>=-eq-ret (perform lib op p) _ e in
      run-IsSynced ops r q e' (perform-IsSynced op p r run s)

  new-IsSynced :
      (args : HttpProxyArgs) (new : HttpReverseProxy lib)
      → new_http_reverse_proxy lib args ≡ ret new
      → IsSynced lib new
  unfolding new_http_reverse_proxy Prefix.build
  new-IsSynced args new e =
      elim (Bool-cases (str_beq args.prefixer_type Prefix.type_hash_prefixer)) [
        | inl known ↦
            subst (IsSynced lib) (ret-injective (rw known at e))
              (unfold Map.get in record { hosts = λ k. refl; types = λ k. refl })
        | inr unknown ↦ let e' = (rw unknown at e) in cc
      ]

  -- Whatever operations and requests a new proxy goes through, as long as none panics or waits for ever, the
  -- recorded hosts and types of every prefix are those of its balancer afterwards, and nothing is
  -- recorded for a prefix without a balancer.
  pub perform_all-IsSynced :
      (ops : List Op) (args : HttpProxyArgs) (new q : HttpReverseProxy lib)
      → new_http_reverse_proxy lib args ≡ ret new
      → perform_all lib ops new ≡ ret q
      → IsSynced lib q
  perform_all-IsSynced ops args new q made run =
      run-IsSynced ops new q run (new-IsSynced args new made)
