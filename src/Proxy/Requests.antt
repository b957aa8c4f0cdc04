-- ===== src/Proxy/Requests.antt =====
-- vermouth/http_proxy.go: what a request changes of a proxy. The balancer counts, and a limiter is
-- made or loses a token.
use vermouth.Prelude.{
  ℕ, refl, ap, inl, inr, Bool, true, false, not, Option, none, some, [], arith, Bool-cases,
  Option-cases, Str, codes, str_beq_iff, ret, >>=-eq-ret, ret-injective, Result, ok, err, pos, ◌≡◌,
  ◌||◌, nat_eq, str_eq,
}
use mathlib.Core.Path.{subst}
use vermouth.Prelude.Map
use vermouth.Net.{Request, remote_ip}
use vermouth.Acl
use vermouth.Balancer
use vermouth.Balancer.{Balancer}
use vermouth.Balancer.Kinds.{balance-keeps}
use vermouth.Prefix
use vermouth.Prefix.{Mapped, MappingError, HashPrefixer, route, balance_at, answer}
use vermouth.Rate.{RateLib, QpsRateLimiter, inf}
use vermouth.Proxy.{HttpReverseProxy, is_static_resource, deref}
use vermouth.Proxy.Limiters.{complete_url, create_rate_limiter}
use vermouth.Proxy.Create.{create-IsSynced}
use vermouth.Proxy.Sync.{IsSynced}
use vermouth.Proxy.Serve.{Reply, take_token, limiter_for, serve_mapped, serve_checked, serve_http}

answer-mapping :
    (prefix tail : Str) (p p' : HashPrefixer) (host : Option Str) (m : Result MappingError Mapped)
    → answer prefix tail p host ≡ ret (m, p')
    → p' ≡ p
unfolding answer
answer-mapping prefix tail p p' none m e = cc
answer-mapping prefix tail p p' (some h) m e = cc

module _ (lib : RateLib) where
  -- The balancer that a request asked takes the place of the one that it was.
  asked-IsSynced :
      (proxy : HttpReverseProxy lib) (prefix : Str) (old lb : Balancer)
      → Map.get proxy.prefix_mapping.mapping prefix ≡ some old
      → Balancer.mode lb ≡ Balancer.mode old
      → Balancer.hosts lb ≡ Balancer.hosts old
      → IsSynced lib proxy
      → IsSynced lib (record proxy {
        prefix_mapping = record { mapping = Map.put proxy.prefix_mapping.mapping prefix lb };
      })
  asked-IsSynced proxy prefix old lb there same kept s = record {
    hosts = λ k. ground (
      arith,
      Map.get-put proxy.prefix_mapping.mapping prefix k lb,
      s.hosts k,
      str_beq_iff prefix k,
    );
    types = λ k. ground (
      arith,
      Map.get-put proxy.prefix_mapping.mapping prefix k lb,
      s.types k,
      str_beq_iff prefix k,
    );
  }

  route-IsSynced :
      (proxy : HttpReverseProxy lib) (p' : HashPrefixer) (prefix tail : Str) (r : Option Request)
      (lb : Option Balancer) (m : Result MappingError Mapped)
      → Map.get proxy.prefix_mapping.mapping prefix ≡ lb
      → route proxy.prefix_mapping prefix tail r lb ≡ ret (m, p')
      → IsSynced lib proxy
      → IsSynced lib (record proxy { prefix_mapping = p' })
  unfolding route balance_at
  route-IsSynced proxy p' prefix tail r none m there e s =
      let is = ap (λ x. x.1) (ret-injective e) in
      rw (← is) (record { hosts = s.hosts; types = s.types })
  route-IsSynced proxy p' prefix tail r (some lb) m there e s =
      let ((host, lb'), ran, e') = >>=-eq-ret (Balancer.balance lb [] r) _ e in
      let is = answer-mapping prefix tail _ p' host m e' in
      let (same, kept) = balance-keeps lb lb' [] r host ran in
      rw is (asked-IsSynced proxy prefix lb lb' there same kept s)

  mapping_path-IsSynced :
      (proxy : HttpReverseProxy lib) (p' : HashPrefixer) (path : Str) (r : Option Request)
      (m : Result MappingError Mapped)
      → Prefix.mapping_path proxy.prefix_mapping path r ≡ ret (m, p')
      → IsSynced lib proxy
      → IsSynced lib (record proxy { prefix_mapping = p' })
  unfolding Prefix.mapping_path
  mapping_path-IsSynced proxy p' path r m e s = route-IsSynced proxy p' _ _ r _ m refl e s

  limiter_for-IsSynced :
      (prefix api_path : Str) (p q : HttpReverseProxy lib) (l : QpsRateLimiter lib)
      → limiter_for lib prefix api_path p ≡ ret (l, q)
      → IsSynced lib p
      → IsSynced lib q
  unfolding limiter_for
  limiter_for-IsSynced prefix api_path p q l e s =
      elim (Option-cases (Map.get p.rate_limiters (complete_url prefix api_path))) [
        | inl missing ↦
            (let ((made, d), run, e1) =
                >>=-eq-ret
                  (create_rate_limiter lib prefix api_path (codes "qps") (pos inf) (pos inf) p) _
                  (rw (missing, limiter_for) at e) in
              let (k, _, e2) = >>=-eq-ret (deref made) _ e1 in
              subst (IsSynced lib)
                (ap (λ (x : QpsRateLimiter lib × HttpReverseProxy lib). x.1) (ret-injective e2))
                (create-IsSynced lib prefix api_path (codes "qps") (pos inf) (pos inf) p d made run
                  s))
        | inr (old, there) ↦
            subst (IsSynced lib)
              (ap (λ (x : QpsRateLimiter lib × HttpReverseProxy lib). x.1)
                (ret-injective (rw (there, limiter_for) at e)))
              s
      ]

  take_token-IsSynced :
      (now : ℕ) (prefix api_path : Str) (p q : HttpReverseProxy lib) (allowed : Bool)
      → take_token lib now prefix api_path p ≡ ret (allowed, q)
      → IsSynced lib p
      → IsSynced lib q
  unfolding take_token
  take_token-IsSynced now prefix api_path p q allowed e s =
      elim (Bool-cases (is_static_resource lib p prefix)) [
        | inl static ↦
            subst (IsSynced lib)
              (ap (λ (x : Bool × HttpReverseProxy lib). x.1)
                (ret-injective (rw (static, take_token) at e)))
              s
        | inr live ↦
            (let ((l, d), run, e1) =
                >>=-eq-ret (limiter_for lib prefix api_path p) _ (rw (live, take_token) at e) in
              let k = limiter_for-IsSynced prefix api_path p d l run s in
              subst (IsSynced lib)
                (ap (λ (x : Bool × HttpReverseProxy lib). x.1) (ret-injective e1))
                (record { hosts = k.hosts; types = k.types }))
      ]

  serve_mapped-IsSynced :
      (now : ℕ) (mapped : Result MappingError Mapped) (p q : HttpReverseProxy lib) (reply : Reply)
      → serve_mapped lib now mapped p ≡ ret (reply, q)
      → IsSynced lib p
      → IsSynced lib q
  unfolding serve_mapped
  serve_mapped-IsSynced now (err x) p q reply e s =
      subst (IsSynced lib) (ap (λ (x : Reply × HttpReverseProxy lib). x.1) (ret-injective e)) s
  serve_mapped-IsSynced now (ok found) p q reply e s =
      let ((allowed, d), run, e1) =
        >>=-eq-ret (take_token lib now found.prefix found.api_path p) _ e in
      subst (IsSynced lib) (ap (λ (x : Reply × HttpReverseProxy lib). x.1) (ret-injective e1))
        (take_token-IsSynced now found.prefix found.api_path p d allowed run s)

  serve_checked-IsSynced :
      (now : ℕ) (r : Request) (denied : Bool) (p q : HttpReverseProxy lib) (reply : Reply)
      → serve_checked lib now r p denied ≡ ret (reply, q)
      → IsSynced lib p
      → IsSynced lib q
  unfolding serve_checked
  serve_checked-IsSynced now r true p q reply e s =
      subst (IsSynced lib) (ap (λ (x : Reply × HttpReverseProxy lib). x.1) (ret-injective e)) s
  serve_checked-IsSynced now r false p q reply e s =
      let ((mapped, m), run, e1) =
        >>=-eq-ret (Prefix.mapping_path p.prefix_mapping r.path (some r)) _ e in
      serve_mapped-IsSynced now mapped (record p { prefix_mapping = m }) q reply e1
        (mapping_path-IsSynced p m r.path (some r) mapped run s)

  pub serve_http-IsSynced :
      (now : ℕ) (peer_available : Bool) (r : Request) (p q : HttpReverseProxy lib) (reply : Reply)
      → serve_http lib now peer_available r p ≡ ret (reply, q)
      → IsSynced lib p
      → IsSynced lib q
  unfolding serve_http
  serve_http-IsSynced now peer_available r p q reply e s =
      elim (Bool-cases (not p.available || not peer_available)) [
        | inl down ↦
            subst (IsSynced lib)
              (ap (λ (x : Reply × HttpReverseProxy lib). x.1)
                (ret-injective (rw (down, serve_http) at e)))
              s
        | inr up ↦
            (let (denied, _, e1) =
                >>=-eq-ret (Acl.access_control p.acl (remote_ip r)) _ (rw (up, serve_http) at e) in
              serve_checked-IsSynced now r denied p q reply e1 s)
      ]
