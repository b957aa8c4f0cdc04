-- ===== src/Proxy/Limiters.antt =====
-- vermouth/http_proxy.go: SetRateLimit and createRateLimiter.
use vermouth.Prelude.{
  Option, none, some, List, [], Str, codes, Go, ret, lock, unlock, ℤ, ◌∷◌, ◌++◌, ◌==◌,
  if◌then◌else◌, ◌>>=◌, nat_eq, str_eq,
}
use vermouth.Prelude.Map
use vermouth.Rate
use vermouth.Rate.{RateLib, LimiterInfo, QpsRateLimiter}
use vermouth.Proxy.{HttpReverseProxy, list_or_nil, locked}

-- The full path of a limiter: the root prefix is not repeated.
abbrev pub complete_url : Str → Str → Str
complete_url prefix api_path = if prefix == codes "/" then api_path else prefix ++ api_path

module _ (lib : RateLib) where
  -- The body of createRateLimiter, with the limiter that it returns.
  unfoldable pub create_body :
      Str
      → Str
      → Str
      → ℤ
      → ℤ
      → HttpReverseProxy lib
      → Go (Option (QpsRateLimiter lib) × HttpReverseProxy lib)
  create_body prefix api_path limiter_type init speed proxy = elim (Rate.build lib limiter_type) [
    | none ↦ ret (none, proxy)
    | some l ↦ do
      limiter ← Rate.set_rate lib init speed l
      ret (
        some limiter,
        record proxy {
          rate_limiters = Map.put proxy.rate_limiters (complete_url prefix api_path) limiter;
          rate_limiter_type = Map.put proxy.rate_limiter_type prefix (
              list_or_nil (Map.get proxy.rate_limiter_type prefix)
              ++ record { url = api_path; type = limiter_type; init = init; speed = speed } ∷ []);
        },
      )
  ]

  -- createRateLimiter takes the lock: `none` is ErrLimiterTypeNotSupported.
  unfoldable pub create_rate_limiter :
      Str
      → Str
      → Str
      → ℤ
      → ℤ
      → HttpReverseProxy lib
      → Go (Option (QpsRateLimiter lib) × HttpReverseProxy lib)
  unfolding lock unlock create_body
  create_rate_limiter prefix api_path limiter_type init speed proxy = do
    m ← lock proxy.mutex
    (limiter, done) ←
        create_body prefix api_path limiter_type init speed (record proxy { mutex = m })
    ret (limiter, record done { mutex = unlock done.mutex })

  -- The loop of SetRateLimit: the first info for the path gets the new numbers.
  unfoldable pub set_info : Str → ℤ → ℤ → List LimiterInfo → List LimiterInfo
  set_info api_path init speed [] = []
  set_info api_path init speed (info ∷ infos) =
      if info.url == api_path
      then record info { init = init; speed = speed } ∷ infos
      else info ∷ set_info api_path init speed infos

  -- SetRateLimit calls createRateLimiter while it holds the lock.
  unfoldable pub set_rate_limit_body :
      Str → Str → Str → ℤ → ℤ → HttpReverseProxy lib → Go (HttpReverseProxy lib)
  unfolding set_info
  set_rate_limit_body prefix api_path limiter_type init speed proxy =
      elim (Map.get proxy.rate_limiters (complete_url prefix api_path)) [
        | none ↦
            (create_rate_limiter prefix api_path limiter_type init speed proxy >>= λ r. ret r.1)
        | some limiter ↦ do
          limiter' ← Rate.set_rate lib init speed limiter
          ret (record proxy {
            rate_limiter_type = elim (Map.get proxy.rate_limiter_type prefix) [
              | none ↦ proxy.rate_limiter_type
              | some infos ↦
                  Map.put proxy.rate_limiter_type prefix (set_info api_path init speed infos)
            ];
            rate_limiters = Map.put proxy.rate_limiters (complete_url prefix api_path) limiter';
          })
      ]

  unfoldable pub set_rate_limit :
      Str → Str → Str → ℤ → ℤ → HttpReverseProxy lib → Go (HttpReverseProxy lib)
  unfolding locked create_rate_limiter set_rate_limit_body
  set_rate_limit prefix api_path limiter_type init speed =
      locked lib (set_rate_limit_body prefix api_path limiter_type init speed)
