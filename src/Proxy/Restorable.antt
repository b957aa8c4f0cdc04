-- ===== src/Proxy/Restorable.antt =====
-- vermouth/http_proxy.go: which proxies a snapshot gives back, and what Restore rebuilds of one.
use vermouth.Prelude.{
  ℕ, refl, sym, ap, inl, inr, Bool, true, false, Option, none, some, List, [], arith, Option-cases,
  Str, str_beq, All, ret, unlocked, ◌^◌, ◌<◌, ◌≡◌, ◌∙◌, ◌⊎◌, ◌||◌, ◌∷◌, nat_eq, str_eq,
}
use vermouth.Balancer
use vermouth.Balancer.{Balancer}
use vermouth.Prefix
use vermouth.Prefix.{find_prefix}
use vermouth.Prelude.Map
use vermouth.Prelude.Map.{Map}
use vermouth.Rate.{RateLib}
use vermouth.Net.{inet_toi}
use vermouth.Golib.Strings.{split, first}
use vermouth.Acl
use vermouth.Acl.{RadixTree, access_control}
use vermouth.Acl.Coverage.{is_covered, IsNetwork}
use vermouth.Acl.Longest.{Network}
use vermouth.Acl.Represents.{new-Represents}
use mathlib.Core.Option
use vermouth.Proxy.{HttpReverseProxy, is_static_resource, or_false}
use vermouth.Proxy.Networks.{add_ips}
use vermouth.Proxy.Forbidden.{
  texts, onto, onto-IsNetwork, onto-is_covered, add_ips-Represents, access_control-covered,
}
use vermouth.Proxy.Rebuild.{IsAlgorithm, mode-IsAlgorithm, IsBuilt, IsKnownPath}
use vermouth.Proxy.Remade.{keys, All_of_keys, add_entries-add_ips, IsInfo}
use vermouth.Proxy.Restore.{add_entries}
use vermouth.Proxy.Snapshot.{saved, loaded}
use vermouth.Proxy.Sync.{IsSynced}

module _ (lib : RateLib) where
  -- A proxy whose tables agree, with recorded limiters that can be made again, and a record of the
  -- black list that holds the texts of the networks `ms`.
  pub record IsRestorable (ms : List Network) (p : HttpReverseProxy lib) : Type 0 where
    pub synced : IsSynced lib p
    pub known : p.prefixer_type ≡ Prefix.type_hash_prefixer
    pub infos : All (λ e. All IsInfo e.1) p.rate_limiter_type
    pub listed : keys p.acl.entries ≡ texts ms
    pub networks : All IsNetwork ms

  -- The proxy `q` serves by the same tables as `p`, and nobody can close it.
  pub record IsRestored (ms : List Network) (p q : HttpReverseProxy lib) : Type 0 where
    pub port : q.port ≡ p.port
    pub available : q.available ≡ p.available
    pub paths : (k : Str) → Map.get q.paths k ≡ Map.get p.paths k
    pub types : (k : Str) → Map.get q.balancer_type k ≡ Map.get p.balancer_type k
    pub statics : (k : Str) → is_static_resource lib q k ≡ is_static_resource lib p k
    pub synced : IsSynced lib q
    pub finds : (path : Str) → find_prefix q.prefix_mapping path ≡ find_prefix p.prefix_mapping path
    pub forbids :
        (ip : Str) (key : ℕ)
        → inet_toi (first (split b':' ip)) ≡ ret (some key)
        → key < 2 ^ 32
        → access_control q.acl ip ≡ ret (is_covered key ms)
    pub free : q.mutex ≡ unlocked
    pub serving : q.serving ≡ false
    pub shutdown : q.shutdown ≡ false

  abbrev pub types_of : HttpReverseProxy lib → Str → Option Str
  types_of p k = Map.get p.balancer_type k

  abbrev pub statics_of : HttpReverseProxy lib → Str → Bool
  statics_of p k = or_false (Map.get p.static_mapping k)

  -- The decoded proxy, before the prefixes are added again.
  abbrev pub bare : HttpReverseProxy lib → HttpReverseProxy lib
  bare p = record (loaded lib (saved lib p)) {
    prefix_mapping = Prefix.new_hash_prefixer;
    paths = [];
  }

  pub bare-IsBuilt : (p : HttpReverseProxy lib) → IsBuilt lib (types_of p) (statics_of p) (bare p)
  unfolding loaded saved Map.get
  bare-IsBuilt p = record {
    free = refl;
    hosts = λ k. refl;
    types = λ k. refl;
    modes = λ k lb e. cc;
    statics = λ k. refl;
  }

  pub recorded-IsKnownPath :
      (p : HttpReverseProxy lib)
      → IsSynced lib p
      → All (IsKnownPath lib (types_of p) (statics_of p)) p.paths
  unfolding Map.has
  recorded-IsKnownPath p s =
      All_of_keys (λ k. (algo : Str) × (types_of p k ≡ some algo) × IsAlgorithm algo) p.paths
        (λ k there. known_at k there (Option-cases (Map.get p.prefix_mapping.mapping k)))
    where
      known_at :
          (k : Str)
          → Map.has p.paths k ≡ true
          → (Map.get p.prefix_mapping.mapping k ≡ none)
            ⊎ ((lb : Balancer) × (Map.get p.prefix_mapping.mapping k ≡ some lb))
          → (algo : Str) × (types_of p k ≡ some algo) × IsAlgorithm algo
      known_at k there (inl missing) = absurd (ground (arith, s.hosts k))
      known_at k there (inr (lb, held)) =
          (Balancer.mode lb, s.types k ∙ ap (Option.map Balancer.mode) held, mode-IsAlgorithm lb)

  pub built-known :
      (t : Str) → t ≡ Prefix.type_hash_prefixer → Prefix.build t ≡ some Prefix.new_hash_prefixer
  unfolding Prefix.build vermouth.Prelude.str_beq
  built-known t e = rw e refl

  -- The same prefixes are there.
  pub has-same :
      (p q : HttpReverseProxy lib)
      → IsSynced lib p
      → ((k : Str)
          → Map.get q.paths k ≡ Option.map Balancer.hosts (Map.get q.prefix_mapping.mapping k))
      → ((k : Str) → Map.get q.paths k ≡ Map.get p.paths k)
      → (k : Str) → Map.has q.prefix_mapping.mapping k ≡ Map.has p.prefix_mapping.mapping k
  unfolding Map.has
  has-same p q s hosts same k = ground (arith, s.hosts k, hosts k, same k)

  -- What is recorded is what is held, after the paths were added again.
  pub rebuilt-IsSynced :
      (p w : HttpReverseProxy lib)
      → IsSynced lib p
      → IsBuilt lib (types_of p) (statics_of p) w
      → ((k : Str) → Map.get w.paths k ≡ Map.get p.paths k)
      → IsSynced lib w
  rebuilt-IsSynced p w s b same = record {
    hosts = b.hosts;
    types = λ k. b.types k ∙ type_at k (Option-cases (Map.get w.prefix_mapping.mapping k));
  }
    where
      type_at :
          (k : Str)
          → (Map.get w.prefix_mapping.mapping k ≡ none)
            ⊎ ((lb : Balancer) × (Map.get w.prefix_mapping.mapping k ≡ some lb))
          → types_of p k ≡ Option.map Balancer.mode (Map.get w.prefix_mapping.mapping k)
      type_at k (inl missing) = ground (arith, b.hosts k, same k, s.hosts k, s.types k)
      type_at k (inr (lb, held)) = b.modes k lb held ∙ ap (Option.map Balancer.mode) (sym held)

  -- The black list, built again from its record.
  pub forbidding :
      (ms : List Network) (entries : Map Str Bool)
      → keys entries ≡ texts ms
      → All IsNetwork ms
      → (t : RadixTree) × (add_entries entries Acl.new_radix_tree ≡ ret t)
        × ((ip : Str) (key : ℕ)
            → inet_toi (first (split b':' ip)) ≡ ret (some key)
            → key < 2 ^ 32
            → access_control t ip ≡ ret (is_covered key ms))
  forbidding ms entries listed h =
      let (t, ps, ran, rep) =
        add_ips-Represents lib ms [] Acl.new_radix_tree ([] ∷ []) h new-Represents in
      (
        t,
        add_entries-add_ips lib entries Acl.new_radix_tree
            ∙ ap (λ ks. add_ips lib ks Acl.new_radix_tree) listed
            ∙ ran,
        λ ip key address k.
            access_control-covered t ps (onto ms []) ip key rep (onto-IsNetwork ms [] h tt) address
              k
            ∙ ap ret (onto-is_covered key ms [] ∙ or_nothing (is_covered key ms)),
      )
    where
      or_nothing : (b : Bool) → (b || false) ≡ b
      or_nothing true = refl
      or_nothing false = refl
