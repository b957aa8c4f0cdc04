-- ===== src/Proxy/Rebuild.antt =====
-- vermouth/http_proxy.go: the loops of Restore, on a proxy that a snapshot gave.
use vermouth.Proxy.Restore.{add_paths}
use vermouth.Proxy.{list_or_nil, add_prefix_body, locked, or_false, HttpReverseProxy, add_prefix}
use vermouth.Rate.{RateLib}
use vermouth.Prelude.{
  refl, ap, inl, inr, Bool, true, false, Option, none, some, List, [], arith, Bool-cases, Str,
  str_beq, str_beq_iff, All, ret, RwMutex, unlocked, lock, unlock, ◌≡◌, ◌∙◌, ◌⊎◌, ◌∷◌,
  if◌then◌else◌, ◌>>=◌, nat_eq, str_eq,
}
use vermouth.Balancer
use vermouth.Balancer.{Balancer, type_round_robin, type_consistence_hash}
use vermouth.Balancer.ConsistentHash
use vermouth.Balancer.ConsistentHash.Listed.{new-list}
use vermouth.Balancer.RoundRobin
use vermouth.Balancer.Kinds.{build-mode}
use vermouth.Prefix
use vermouth.Prelude.Map
use vermouth.Prelude.Map.{Map}
use mathlib.Core.Option

-- The algorithms that the factory knows.
abbrev pub IsAlgorithm : Str → Type 0
IsAlgorithm t = (t ≡ type_round_robin) ⊎ (t ≡ type_consistence_hash)

pub mode-IsAlgorithm : (lb : Balancer) → IsAlgorithm (Balancer.mode lb)
unfolding Balancer.mode
mode-IsAlgorithm (Balancer.round_robin r) = inl refl
mode-IsAlgorithm (Balancer.consistence_hash c) = inr refl

-- What the factory builds for a known algorithm lists the hosts that it was given.
pub build-hosts :
    (algo : Str) (hosts : List Str)
    → IsAlgorithm algo
    → (lb : Balancer) × (Balancer.build algo hosts ≡ ret (some lb)) × (Balancer.hosts lb ≡ hosts)
unfolding Balancer.build Balancer.hosts ConsistentHash.new RoundRobin.new vermouth.Prelude.str_beq
build-hosts algo hosts (inl rr) = (Balancer.round_robin (RoundRobin.new hosts), rw rr refl, refl)
build-hosts algo hosts (inr ch) =
    let (c, built, listed) = new-list hosts in
    (Balancer.consistence_hash c, rw (ch, built) refl, listed)

module _ (lib : RateLib) where
  -- A proxy whose prefixes are added again: the types `T` and the flags `S` were recorded before.
  pub record IsBuilt (T : Str → Option Str) (S : Str → Bool) (p : HttpReverseProxy lib)
      : Type 0 where
    pub free : p.mutex ≡ unlocked
    pub hosts :
        (k : Str)
        → Map.get p.paths k ≡ Option.map Balancer.hosts (Map.get p.prefix_mapping.mapping k)
    pub types : (k : Str) → Map.get p.balancer_type k ≡ T k
    pub modes :
        (k : Str) (lb : Balancer)
        → Map.get p.prefix_mapping.mapping k ≡ some lb
        → T k ≡ some (Balancer.mode lb)
    pub statics : (k : Str) → or_false (Map.get p.static_mapping k) ≡ S k

  -- What AddPrefix does not touch.
  pub record KeepsRest (p q : HttpReverseProxy lib) : Type 0 where
    pub port : q.port ≡ p.port
    pub prefixer_type : q.prefixer_type ≡ p.prefixer_type
    pub infos : q.rate_limiter_type ≡ p.rate_limiter_type
    pub acl : q.acl ≡ p.acl
    pub available : q.available ≡ p.available
    pub serving : q.serving ≡ p.serving
    pub shutdown : q.shutdown ≡ p.shutdown

  keeps_refl : (p : HttpReverseProxy lib) → KeepsRest p p
  keeps_refl p = record {
    port = refl;
    prefixer_type = refl;
    infos = refl;
    acl = refl;
    available = refl;
    serving = refl;
    shutdown = refl;
  }

  -- The same from a proxy that AddPrefix left.
  keeps_of :
      {p q : HttpReverseProxy lib} {paths : Map Str (List Str)} {types : Map Str Str}
      {statics : Map Str Bool} {prefixes : Prefix.HashPrefixer} {m : RwMutex}
      → KeepsRest
          (record p {
            paths = paths;
            balancer_type = types;
            static_mapping = statics;
            prefix_mapping = prefixes;
            mutex = m;
          })
          q
      → KeepsRest p q
  keeps_of k = record {
    port = k.port;
    prefixer_type = k.prefixer_type;
    infos = k.infos;
    acl = k.acl;
    available = k.available;
    serving = k.serving;
    shutdown = k.shutdown;
  }

  abbrev added_prefix : Str → Str → Bool → Balancer → HttpReverseProxy lib → HttpReverseProxy lib
  added_prefix prefix algo is_static lb p = record p {
    static_mapping = Map.put p.static_mapping prefix is_static;
    prefix_mapping = record { mapping = Map.put p.prefix_mapping.mapping prefix lb };
    balancer_type = Map.put p.balancer_type prefix algo;
    paths = Map.put p.paths prefix (Balancer.hosts lb);
  }

  add_prefix-there :
      (prefix algo : Str) (hosts : List Str) (is_static : Bool) (p : HttpReverseProxy lib)
      → p.mutex ≡ unlocked
      → Map.has p.prefix_mapping.mapping prefix ≡ true
      → add_prefix lib prefix algo hosts is_static p ≡ ret (record p { mutex = unlocked })
  unfolding add_prefix locked add_prefix_body lock unlock
  add_prefix-there prefix algo hosts is_static p free there = rw (free, there) refl

  add_prefix-new :
      (prefix algo : Str) (hosts : List Str) (is_static : Bool) (lb : Balancer)
      (p : HttpReverseProxy lib)
      → p.mutex ≡ unlocked
      → Map.has p.prefix_mapping.mapping prefix ≡ false
      → Balancer.build algo hosts ≡ ret (some lb)
      → add_prefix lib prefix algo hosts is_static p
        ≡ ret (record (added_prefix prefix algo is_static lb p) { mutex = unlocked })
  unfolding add_prefix locked add_prefix_body lock unlock Prefix.add Prefix.added
      Prefix.get_balancer
  add_prefix-new prefix algo hosts is_static lb p free new built =
      rw (free, new, built, Map.get-put_self p.prefix_mapping.mapping prefix lb) refl

  -- The paths that are added to a proxy, where their types are known, and the recorded flags.
  module _ (T : Str → Option Str) (S : Str → Bool) where
    added_prefix-IsBuilt :
        (prefix algo : Str) (lb : Balancer) (p : HttpReverseProxy lib)
        → T prefix ≡ some algo
        → Balancer.mode lb ≡ algo
        → IsBuilt T S p
        → IsBuilt T S (record (added_prefix prefix algo (S prefix) lb p) { mutex = unlocked })
    added_prefix-IsBuilt prefix algo lb p known same b = record {
      free = refl;
      hosts = λ k. ground (
        arith,
        Map.get-put p.paths prefix k (Balancer.hosts lb),
        Map.get-put p.prefix_mapping.mapping prefix k lb,
        b.hosts k,
      );
      types = λ k.
          ground
            (arith, Map.get-put p.balancer_type prefix k algo, b.types k, str_beq_iff prefix k);
      modes = λ k x e. ground (
        arith,
        Map.get-put p.prefix_mapping.mapping prefix k lb,
        b.modes k x,
        str_beq_iff prefix k,
      );
      statics = λ k. ground (
        arith,
        Map.get-put p.static_mapping prefix k (S prefix),
        b.statics k,
        str_beq_iff prefix k,
      );
    }

    abbrev pub IsKnownPath : Str × List Str → Type 0
    IsKnownPath e = (algo : Str) × (T e.0 ≡ some algo) × IsAlgorithm algo

    -- What AddPrefix leaves where the prefix is there.
    relocked-IsBuilt :
        (p : HttpReverseProxy lib) → IsBuilt T S p → IsBuilt T S (record p { mutex = unlocked })
    relocked-IsBuilt p b = record {
      free = refl;
      hosts = b.hosts;
      types = b.types;
      modes = b.modes;
      statics = b.statics;
    }

    no_path :
        (p : HttpReverseProxy lib) (k : Str)
        → IsBuilt T S p
        → Map.get p.paths k
          ≡ (if Map.has p.prefix_mapping.mapping k then Map.get p.paths k else none)
    unfolding Map.has
    no_path p k b = ground (arith, b.hosts k)

    pub add_paths-IsBuilt :
        (m : Map Str (List Str)) (p : HttpReverseProxy lib)
        → All IsKnownPath m
        → IsBuilt T S p
        → (q : HttpReverseProxy lib) × (add_paths lib m p ≡ ret q)
          × IsBuilt T S q
          × KeepsRest p q
          × ((k : Str)
              → Map.get q.paths k
                ≡ (if Map.has p.prefix_mapping.mapping k then Map.get p.paths k else Map.get m k))
    unfolding add_paths Map.get
    add_paths-IsBuilt [] p known b = (p, refl, b, keeps_refl p, λ k. no_path p k b)
    add_paths-IsBuilt ((k0, v) ∷ m) p ((algo, typed, alg), known) b =
        elim (Bool-cases (Map.has p.prefix_mapping.mapping k0)) [
          | inl there ↦
              let (q, ran, bq, keeps, got) =
                add_paths-IsBuilt m (record p { mutex = unlocked }) known (relocked-IsBuilt p b) in
              (
                q,
                ap (λ r. r >>= λ x. add_paths lib m x) (add_prefix-there k0 _ v _ p b.free there)
                    ∙ ran,
                bq,
                keeps_of keeps,
                λ k. ground (arith, got k, str_beq_iff k0 k),
              )
          | inr new ↦
              let (lb, built, listed) = build-hosts algo v alg in
              let p1 : HttpReverseProxy lib = record (added_prefix k0 algo (S k0) lb p) {
                mutex = unlocked;
              } in
              let (q, ran, bq, keeps, got) =
                add_paths-IsBuilt m p1 known
                  (added_prefix-IsBuilt k0 algo lb p typed (build-mode algo v lb built) b) in
              let step : add_prefix lib k0 (list_or_nil (Map.get p.balancer_type k0)) v
                    (or_false (Map.get p.static_mapping k0)) p
                  ≡ ret p1 =
                ap (λ t. add_prefix lib k0 t v (or_false (Map.get p.static_mapping k0)) p)
                  (ap list_or_nil (b.types k0 ∙ typed))
                ∙ ap (λ s. add_prefix lib k0 algo v s p) (b.statics k0)
                ∙ add_prefix-new k0 algo v (S k0) lb p b.free new built in
              (
                q,
                ap (λ r. r >>= λ x. add_paths lib m x) step ∙ ran,
                bq,
                keeps_of keeps,
                λ k. ground (
                  arith,
                  got k,
                  str_beq_iff k0 k,
                  Map.has-put p.prefix_mapping.mapping k0 k lb,
                  Map.get-put p.paths k0 k (Balancer.hosts lb),
                  listed,
                ),
              )
        ]
