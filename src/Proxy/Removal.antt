-- ===== src/Proxy/Removal.antt =====
-- vermouth/http_proxy.go: what RemovePrefix takes away, and what it leaves.
use vermouth.Prelude.{
  refl, false, none, [], arith, Str, str_beq, beq_refl, ret, unlocked, ◌≡◌, ◌≢◌, ◌∷◌, ◌++◌, ◌==◌,
  if◌then◌else◌, nat_eq, str_eq,
}
use vermouth.Prelude.Map
use vermouth.Rate.{RateLib}
use vermouth.Prefix
use vermouth.Proxy.{HttpReverseProxy, remove_prefix, remove_prefix_body}
use vermouth.Proxy.Unknown.{remove_prefix-ret}

module _ (lib : RateLib) where
  -- The prefix is gone from every table that is kept by prefix, and so is the limiter whose URL is the
  -- prefix itself; the entries of other prefixes and the limiters of the paths below the prefix are
  -- as they were, and so is all else: the static flags (that of the prefix too), the black list and
  -- the state of the proxy. The lock is free again.
  pub record IsRemoved (prefix : Str) (proxy proxy' : HttpReverseProxy lib) : Type 0 where
    pub balancers :
        (k : Str)
        → Map.get proxy'.prefix_mapping.mapping k
          ≡ (if prefix == k then none else Map.get proxy.prefix_mapping.mapping k)
    pub hosts :
        (k : Str) → Map.get proxy'.paths k ≡ (if prefix == k then none else Map.get proxy.paths k)
    pub types :
        (k : Str)
        → Map.get proxy'.balancer_type k
          ≡ (if prefix == k then none else Map.get proxy.balancer_type k)
    pub infos :
        (k : Str)
        → Map.get proxy'.rate_limiter_type k
          ≡ (if prefix == k then none else Map.get proxy.rate_limiter_type k)
    pub limiters :
        (k : Str)
        → Map.get proxy'.rate_limiters k
          ≡ (if prefix == k then none else Map.get proxy.rate_limiters k)
    pub below :
        (tail : Str)
        → tail ≢ []
        → Map.get proxy'.rate_limiters (prefix ++ tail)
          ≡ Map.get proxy.rate_limiters (prefix ++ tail)
    pub static : proxy'.static_mapping ≡ proxy.static_mapping
    pub acl : proxy'.acl ≡ proxy.acl
    pub available : proxy'.available ≡ proxy.available
    pub port : proxy'.port ≡ proxy.port
    pub prefixer_type : proxy'.prefixer_type ≡ proxy.prefixer_type
    pub serving : proxy'.serving ≡ proxy.serving
    pub shutdown : proxy'.shutdown ≡ proxy.shutdown
    pub free : proxy'.mutex ≡ unlocked

  append-ne : (s t : Str) → t ≢ [] → str_beq s (s ++ t) ≡ false
  unfolding str_beq
  append-ne [] [] h = absurd (h refl)
  append-ne [] (c ∷ t) h = refl
  append-ne (c ∷ s) t h = rw (beq_refl c) (append-ne s t h)

  -- RemovePrefix returns on a proxy whose lock is free, and does what `IsRemoved` says.
  pub remove_prefix-IsRemoved :
      (prefix : Str) (proxy : HttpReverseProxy lib)
      → proxy.mutex ≡ unlocked
      → (proxy' : HttpReverseProxy lib) × (remove_prefix lib prefix proxy ≡ ret proxy')
        × IsRemoved prefix proxy proxy'
  unfolding remove_prefix_body Prefix.remove
  remove_prefix-IsRemoved prefix proxy free = (
    remove_prefix_body lib prefix proxy,
    remove_prefix-ret lib prefix proxy free,
    record {
      balancers = λ k. Map.get-remove proxy.prefix_mapping.mapping prefix k;
      hosts = λ k. Map.get-remove proxy.paths prefix k;
      types = λ k. Map.get-remove proxy.balancer_type prefix k;
      infos = λ k. Map.get-remove proxy.rate_limiter_type prefix k;
      limiters = λ k. Map.get-remove proxy.rate_limiters prefix k;
      below = λ tail ne. ground (
        arith,
        Map.get-remove proxy.rate_limiters prefix (prefix ++ tail),
        append-ne prefix tail ne,
      );
      static = refl;
      acl = refl;
      available = refl;
      port = refl;
      prefixer_type = refl;
      serving = refl;
      shutdown = refl;
      free = free;
    },
  )
