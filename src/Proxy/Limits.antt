-- ===== src/Proxy/Limits.antt =====
-- vermouth/http_proxy.go: the rate limiters of a prefix, when one is set and when its prefix goes.
use vermouth.Prelude.{
  refl, inl, inr, true, none, some, ltb, Bool-cases, Str, ret, block, lock, ℤ, ◌≡◌, ◌||◌, ◌==◌,
  if◌then◌else◌, nat_eq, str_eq,
}
use vermouth.Prelude.Int.{int_eq}
use vermouth.Prelude.Map
use mathlib.Core.Option
use vermouth.Prelude.Map.{Map}
use vermouth.Proxy.Limiters.{set_info}
use vermouth.Rate
use vermouth.Rate.{RateLib, QpsRateLimiter}
use vermouth.Proxy.{HttpReverseProxy, locked}
use vermouth.Proxy.Limiters.{set_rate_limit, set_rate_limit_body, create_rate_limiter, complete_url}

module _ (lib : RateLib) where
  body-block :
      (prefix api_path limiter_type : Str) (init speed : ℤ) (proxy : HttpReverseProxy lib)
      → proxy.mutex.writer ≡ true
      → Map.get proxy.rate_limiters (complete_url prefix api_path) ≡ none
      → set_rate_limit_body lib prefix api_path limiter_type init speed proxy ≡ block
  unfolding set_rate_limit_body create_rate_limiter lock
  body-block prefix api_path limiter_type init speed proxy w h =
      rw (h, set_rate_limit_body, create_rate_limiter, lock, w) refl

  -- SetRateLimit for a path that has no limiter yet never returns, whatever the proxy, since
  -- createRateLimiter waits for the lock that SetRateLimit holds.
  pub set_rate_limit-block :
      (prefix api_path limiter_type : Str) (init speed : ℤ) (proxy : HttpReverseProxy lib)
      → Map.get proxy.rate_limiters (complete_url prefix api_path) ≡ none
      → set_rate_limit lib prefix api_path limiter_type init speed proxy ≡ block
  unfolding set_rate_limit locked lock
  set_rate_limit-block prefix api_path limiter_type init speed proxy h =
      elim (Bool-cases (proxy.mutex.writer || ltb 0 proxy.mutex.readers)) [
        | inl k ↦ rw (k, set_rate_limit, locked, lock) refl
        | inr k ↦
            rw
              (
                k,
                set_rate_limit,
                locked,
                lock,
                body-block prefix api_path limiter_type init speed
                    (record proxy { mutex = record proxy.mutex { writer = true } }) refl h,
              )
              refl
      ]

  -- What SetRateLimit does to a path that has a limiter: the limiter gets the new numbers, those of
  -- other paths are as they were, and so is every other table and flag of the proxy.
  pub record IsLimited (prefix api_path : Str) (init speed : ℤ)
      (proxy proxy' : HttpReverseProxy lib) : Type 0 where
    pub old : QpsRateLimiter lib
    pub new : QpsRateLimiter lib
    pub was : Map.get proxy.rate_limiters (complete_url prefix api_path) ≡ some old
    pub made : Rate.set_rate lib init speed old ≡ ret new
    pub limiters :
        (k : Str)
        → Map.get proxy'.rate_limiters k
          ≡ (if complete_url prefix api_path == k then some new else Map.get proxy.rate_limiters k)
    pub infos :
        (k : Str)
        → Map.get proxy'.rate_limiter_type k ≡ (
            if prefix == k
            then Option.map (set_info lib api_path init speed) (Map.get proxy.rate_limiter_type k)
            else Map.get proxy.rate_limiter_type k)
    pub prefixes : proxy'.prefix_mapping ≡ proxy.prefix_mapping
    pub paths : proxy'.paths ≡ proxy.paths
    pub static : proxy'.static_mapping ≡ proxy.static_mapping
    pub acl : proxy'.acl ≡ proxy.acl
    pub types : proxy'.balancer_type ≡ proxy.balancer_type
    pub available : proxy'.available ≡ proxy.available
    pub port : proxy'.port ≡ proxy.port
    pub prefixer_type : proxy'.prefixer_type ≡ proxy.prefixer_type
    pub serving : proxy'.serving ≡ proxy.serving
    pub shutdown : proxy'.shutdown ≡ proxy.shutdown
