-- ===== src/Proxy/Doubling.antt =====
-- vermouth/http_proxy.go: the recorded limiters of a prefix over Restore.
use vermouth.Prelude.{
  sym, ap, Option, some, List, [], append-nil, append_assoc, Str, All, ret, >>=-eq-ret,
  ret-injective, lock, ◌≡◌, ◌∙◌, ◌∷◌, ◌++◌, nat_eq, str_eq,
}
use vermouth.Prelude.Map
use vermouth.Rate
use vermouth.Rate.{RateLib, LimiterInfo, QpsRateLimiter}
use vermouth.Proxy.{HttpReverseProxy}
use vermouth.Proxy.Limiters.{create_rate_limiter, create_body}
use vermouth.Proxy.Restore.{create_limiters}

module _ (lib : RateLib) where
  -- The factory knows the type of a limiter.
  abbrev pub IsKnown : LimiterInfo → Type 0
  IsKnown v = (l : QpsRateLimiter lib) × (Rate.build lib v.type ≡ some l)

  create_body-append :
      (prefix : Str) (v : LimiterInfo) (p q : HttpReverseProxy lib)
      (l : Option (QpsRateLimiter lib)) (old : List LimiterInfo)
      → IsKnown v
      → Map.get p.rate_limiter_type prefix ≡ some old
      → create_body lib prefix v.url v.type v.init v.speed p ≡ ret (l, q)
      → Map.get q.rate_limiter_type prefix ≡ some (old ++ v ∷ [])
  unfolding create_body
  create_body-append prefix v p q l old (l0, known) there e =
      let (l1, _, e') =
        >>=-eq-ret (Rate.set_rate lib v.init v.speed l0) _ (rw (known, create_body) at e) in
      let is =
        ap (λ (x : Option (QpsRateLimiter lib) × HttpReverseProxy lib). x.1) (ret-injective e') in
      rw (← is, there) (Map.get-put_self p.rate_limiter_type prefix (old ++ v ∷ []))

  create-append :
      (prefix : Str) (v : LimiterInfo) (p q : HttpReverseProxy lib)
      (l : Option (QpsRateLimiter lib)) (old : List LimiterInfo)
      → IsKnown v
      → Map.get p.rate_limiter_type prefix ≡ some old
      → create_rate_limiter lib prefix v.url v.type v.init v.speed p ≡ ret (l, q)
      → Map.get q.rate_limiter_type prefix ≡ some (old ++ v ∷ [])
  unfolding create_rate_limiter
  create-append prefix v p q l old known there e =
      let (m, _, e1) = >>=-eq-ret (lock p.mutex) _ e in
      let ((l1, d), run, e2) =
        >>=-eq-ret (create_body lib prefix v.url v.type v.init v.speed (record p { mutex = m })) _
          e1 in
      let is =
        ap (λ (x : Option (QpsRateLimiter lib) × HttpReverseProxy lib). x.1) (ret-injective e2) in
      rw (← is) (create_body-append prefix v (record p { mutex = m }) d l1 old known there run)

  create_limiters-append :
      (prefix : Str) (infos : List LimiterInfo) (p q : HttpReverseProxy lib)
      (old : List LimiterInfo)
      → All IsKnown infos
      → Map.get p.rate_limiter_type prefix ≡ some old
      → create_limiters lib prefix infos p ≡ ret q
      → Map.get q.rate_limiter_type prefix ≡ some (old ++ infos)
  unfolding create_limiters
  create_limiters-append prefix [] p q old known there e =
      let is = ret-injective e in rw (← is, there) (ap some (sym (append-nil old)))
  create_limiters-append prefix (v ∷ infos) p q old (known, all_known) there e =
      let ((l, d), run, e1) =
        >>=-eq-ret (create_rate_limiter lib prefix v.url v.type v.init v.speed p) _ e in
      create_limiters-append prefix infos d q (old ++ v ∷ []) all_known
        (create-append prefix v p d l old known there run) e1
      ∙ ap some (append_assoc old (v ∷ []) infos)

  -- Making the limiters of a prefix again from what is recorded, as Restore does, records each of
  -- them a second time.
  pub create_limiters-doubles :
      (prefix : Str) (infos : List LimiterInfo) (p q : HttpReverseProxy lib)
      → All IsKnown infos
      → Map.get p.rate_limiter_type prefix ≡ some infos
      → create_limiters lib prefix infos p ≡ ret q
      → Map.get q.rate_limiter_type prefix ≡ some (infos ++ infos)
  create_limiters-doubles prefix infos p q known there e =
      create_limiters-append prefix infos p q infos known there e
