-- ===== src/Proxy/Answers.antt =====
-- vermouth/http_proxy.go: what ServeHTTP needs in order to come back.
use vermouth.Prelude.{
  ℕ, refl, ap, inl, inr, Bool, true, false, not, some, Bool-cases, Option-cases, Str, codes,
  str_beq, ret, unlocked, lock, ◌≡◌, ◌∙◌, ◌||◌, if◌then◌else◌, ◌>>=◌, nat_eq, str_eq,
}
use vermouth.Net.{Request, remote_ip}
use vermouth.Acl
use vermouth.Prefix.Total.{IsStaffed, mapping_path-staffed}
use vermouth.Prelude.Map
use vermouth.Rate
use vermouth.Rate.{RateLib, QpsRateLimiter, inf}
use vermouth.Proxy.{HttpReverseProxy, is_static_resource}
use vermouth.Proxy.Limiters.{complete_url, create_rate_limiter}
use vermouth.Proxy.Serve.{
  Reply, limiter_for, take_token, sent, not_found, serve_mapped, serve_checked, serve_http,
}

module _ (lib : RateLib) where
  -- Without a limiter for a path, one is made, on a proxy whose lock is free.
  limiter_for-ret :
      (prefix api_path : Str) (p : HttpReverseProxy lib)
      → p.mutex ≡ unlocked
      → (l : QpsRateLimiter lib) × (q : HttpReverseProxy lib) × (limiter_for lib prefix api_path p
          ≡ ret (l, q))
  unfolding limiter_for create_rate_limiter lock Rate.build Rate.set_rate str_beq
  limiter_for-ret prefix api_path p free =
      elim (Option-cases (Map.get p.rate_limiters (complete_url prefix api_path))) [
        | inl missing ↦ rw (missing, limiter_for, free) (_, _, refl)
        | inr (l, there) ↦ (l, p, rw (there, limiter_for) refl)
      ]

  take_token-ret :
      (now : ℕ) (prefix api_path : Str) (p : HttpReverseProxy lib)
      → p.mutex ≡ unlocked
      → (allowed : Bool) × (q : HttpReverseProxy lib) × (take_token lib now prefix api_path p
          ≡ ret (allowed, q))
  unfolding take_token
  take_token-ret now prefix api_path p free = elim (Bool-cases (is_static_resource lib p prefix)) [
    | inl static ↦ (true, p, rw (static, take_token) refl)
    | inr live ↦
        (let (l, q, made) = limiter_for-ret prefix api_path p free in
          rw (live, take_token, made) (_, _, refl))
  ]

  -- A proxy that serves, whose lock is free, whose root is registered and whose prefixes all have a
  -- round robin balancer with a host, replies to every request of a client that the black list lets
  -- in: it does not panic and does not wait.
  pub serve_http-ret :
      (now : ℕ) (r : Request) (proxy : HttpReverseProxy lib)
      → proxy.available ≡ true
      → proxy.mutex ≡ unlocked
      → Acl.access_control proxy.acl (remote_ip r) ≡ ret false
      → IsStaffed proxy.prefix_mapping
      → Map.has proxy.prefix_mapping.mapping (codes "/") ≡ true
      → (reply : Reply) × (proxy' : HttpReverseProxy lib) × (serve_http lib now true r proxy
          ≡ ret (reply, proxy'))
  unfolding serve_http serve_checked serve_mapped
  serve_http-ret now r proxy up free allowed staffed root =
      let (m, p, mapped) = mapping_path-staffed proxy.prefix_mapping r.path (some r) staffed root in
      let (yes_or_no, q, took) =
        take_token-ret now m.prefix m.api_path (record proxy { prefix_mapping = p }) free in
      (
        sent yes_or_no m.real_path,
        q,
        (ap
              (λ b.
                if not b || not true
                then ret (not_found, proxy)
                else (Acl.access_control proxy.acl (remote_ip r) >>= serve_checked lib now r proxy))
              up
            ∙ ap (λ a. a >>= serve_checked lib now r proxy) allowed
            ∙ ap (λ a. a >>= λ x. serve_mapped lib now x.0 (record proxy { prefix_mapping = x.1 }))
                mapped
            ∙ ap (λ a. a >>= λ x. ret (sent x.0 m.real_path, x.1)) took),
      )
