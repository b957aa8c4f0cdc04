-- ===== src/Proxy/Create.antt =====
-- vermouth/http_proxy.go: createRateLimiter, and what is recorded for a prefix.
use vermouth.Prelude.{
  ap, inl, inr, Option, Option-cases, Str, ret, >>=-eq-ret, ret-injective, lock, ℤ, ◌≡◌, nat_eq,
  str_eq,
}
use mathlib.Core.Path.{subst}
use vermouth.Rate
use vermouth.Rate.{RateLib, QpsRateLimiter}
use vermouth.Proxy.{HttpReverseProxy}
use vermouth.Proxy.Limiters.{create_rate_limiter, create_body}
use vermouth.Proxy.Sync.{IsSynced}

module _ (lib : RateLib) where
  create_body-IsSynced :
      (prefix api_path type : Str) (init speed : ℤ) (p q : HttpReverseProxy lib)
      (l : Option (QpsRateLimiter lib))
      → create_body lib prefix api_path type init speed p ≡ ret (l, q)
      → IsSynced lib p
      → IsSynced lib q
  unfolding create_body
  create_body-IsSynced prefix api_path type init speed p q l e s =
      elim (Option-cases (Rate.build lib type)) [
        | inl unknown ↦
            subst (IsSynced lib)
              (ap (λ (r : Option (QpsRateLimiter lib) × HttpReverseProxy lib). r.1)
                (ret-injective (rw (unknown, create_body) at e)))
              s
        | inr (l0, known) ↦
            let (l1, _, e') =
              >>=-eq-ret (Rate.set_rate lib init speed l0) _ (rw (known, create_body) at e) in
            subst (IsSynced lib)
              (ap (λ (r : Option (QpsRateLimiter lib) × HttpReverseProxy lib). r.1)
                (ret-injective e'))
              (record { hosts = s.hosts; types = s.types })
      ]

  pub create-IsSynced :
      (prefix api_path type : Str) (init speed : ℤ) (p q : HttpReverseProxy lib)
      (l : Option (QpsRateLimiter lib))
      → create_rate_limiter lib prefix api_path type init speed p ≡ ret (l, q)
      → IsSynced lib p
      → IsSynced lib q
  unfolding create_rate_limiter
  create-IsSynced prefix api_path type init speed p q l e s =
      let (m, _, e1) = >>=-eq-ret (lock p.mutex) _ e in
      let ((l1, d), run, e2) =
        >>=-eq-ret (create_body lib prefix api_path type init speed (record p { mutex = m })) _
          e1 in
      let k =
        create_body-IsSynced prefix api_path type init speed (record p { mutex = m }) d l1 run
          (record { hosts = s.hosts; types = s.types }) in
      subst (IsSynced lib)
        (ap (λ (r : Option (QpsRateLimiter lib) × HttpReverseProxy lib). r.1) (ret-injective e2))
        (record { hosts = k.hosts; types = k.types })
