-- ===== src/Proxy/Remade.antt =====
-- vermouth/http_proxy.go: the black list and the limiters that Restore makes again, and what the search
-- for a prefix looks at.
use vermouth.Prelude.{
  ℕ, refl, ap, Bool, true, Option, some, List, [], arith, Str, codes, str_beq, beq_refl, length,
  All, ret, >>=-ext, RwMutex, unlocked, lock, unlock, ℤ, ◌+◌, ◌≡◌, ◌∙◌, ◌∷◌, ◌++◌, if◌then◌else◌,
  ◌>>=◌, nat_eq, str_eq,
}
use vermouth.Balancer.{Balancer}
use vermouth.Prefix
use vermouth.Prefix.{scan, find_prefix}
use vermouth.Prelude.Map
use vermouth.Prelude.Map.{Map}
use vermouth.Rate
use vermouth.Rate.{RateLib, LimiterInfo, QpsRateLimiter, interval}
use vermouth.Acl
use vermouth.Acl.{RadixTree}
use vermouth.Proxy.{list_or_nil, HttpReverseProxy}
use vermouth.Golib.Strings.{split, rest}
use vermouth.Proxy.Limiters.{complete_url, create_rate_limiter, create_body}
use vermouth.Proxy.Networks.{add_ips}
use vermouth.Proxy.Restore.{add_entries, create_limiters, create_all}

-- The keys of a map, in the order in which it is run over.
abbrev pub keys {ℓ} : {V : Type ℓ} → Map Str V → List Str
keys [] = []
keys ((k, v) ∷ m) = k ∷ keys m

-- A predicate of every key that a map has holds of all its entries.
pub All_of_keys {ℓ κ} :
    {V : Type ℓ} (P : Str → Type κ) (m : Map Str V)
    → ((k : Str) → Map.has m k ≡ true → P k)
    → All (λ e. P e.0) m
unfolding Map.has Map.get
All_of_keys P [] h = tt
All_of_keys P ((k, v) ∷ m) h =
    (h k (rw (beq_refl k) refl), All_of_keys P m (λ j there. h j (ground arith)))

pub add_entries-add_ips :
    (lib : RateLib) (m : Map Str Bool) (t : RadixTree) → add_entries m t ≡ add_ips lib (keys m) t
unfolding add_entries add_ips
add_entries-add_ips lib [] t = refl
add_entries-add_ips lib ((ip, b) ∷ m) t =
    >>=-ext (Acl.add t ip ip) (λ r. add_entries-add_ips lib m r.1)

-- The search for a prefix looks only at which prefixes there are.
scan-has :
    (m n : Map Str Balancer)
    → ((k : Str) → Map.has m k ≡ Map.has n k)
    → (next : Str) (idx : ℕ) (prefix : Str) (offset : ℕ) (vs : List Str)
    → scan m next idx prefix offset vs ≡ scan n next idx prefix offset vs
unfolding scan
scan-has m n same next idx prefix offset [] = refl
scan-has m n same next idx prefix offset (v ∷ vs) =
    let here : Str = next ++ b'/' ∷ v in
    let i : ℕ = idx + (length v + 1) in
    let b : Bool = Map.has n here in
    rw (same here)
      (scan-has m n same here i (if b then here else prefix) (if b then i else offset) vs)

pub find_prefix-has :
    (p q : Prefix.HashPrefixer)
    → ((k : Str) → Map.has p.mapping k ≡ Map.has q.mapping k)
    → (path : Str) → find_prefix p path ≡ find_prefix q path
unfolding find_prefix
find_prefix-has p q same path = scan-has p.mapping q.mapping same [] 0 [] 0 (rest (split b'/' path))

-- A recorded limiter that can be made: the factory knows its type, and its speed is not zero.
pub record IsInfo (v : LimiterInfo) : Type 0 where
  pub type : v.type ≡ codes "qps"
  pub interval : ℤ
  pub speed : Rate.interval v.speed ≡ ret interval

module _ (lib : RateLib) where
  -- What the making of limiters leaves as it is.
  pub record KeepsTables (p q : HttpReverseProxy lib) : Type 0 where
    pub port : q.port ≡ p.port
    pub prefixer_type : q.prefixer_type ≡ p.prefixer_type
    pub paths : q.paths ≡ p.paths
    pub balancer_type : q.balancer_type ≡ p.balancer_type
    pub static_mapping : q.static_mapping ≡ p.static_mapping
    pub acl : q.acl ≡ p.acl
    pub available : q.available ≡ p.available
    pub prefix_mapping : q.prefix_mapping ≡ p.prefix_mapping
    pub serving : q.serving ≡ p.serving
    pub shutdown : q.shutdown ≡ p.shutdown
    pub free : q.mutex ≡ unlocked

  tables_refl : (p : HttpReverseProxy lib) → p.mutex ≡ unlocked → KeepsTables p p
  tables_refl p free = record {
    port = refl;
    prefixer_type = refl;
    paths = refl;
    balancer_type = refl;
    static_mapping = refl;
    acl = refl;
    available = refl;
    prefix_mapping = refl;
    serving = refl;
    shutdown = refl;
    free = free;
  }

  -- A limiter was made, and more.
  tables_of :
      {p q : HttpReverseProxy lib} {limiters : Map Str (QpsRateLimiter lib)}
      {infos : Map Str (List LimiterInfo)} {m : RwMutex}
      → KeepsTables (record p { rate_limiters = limiters; rate_limiter_type = infos; mutex = m }) q
      → KeepsTables p q
  tables_of k = record {
    port = k.port;
    prefixer_type = k.prefixer_type;
    paths = k.paths;
    balancer_type = k.balancer_type;
    static_mapping = k.static_mapping;
    acl = k.acl;
    available = k.available;
    prefix_mapping = k.prefix_mapping;
    serving = k.serving;
    shutdown = k.shutdown;
    free = k.free;
  }

  tables_trans :
      {p q r : HttpReverseProxy lib} → KeepsTables p q → KeepsTables q r → KeepsTables p r
  tables_trans k l = record {
    port = l.port ∙ k.port;
    prefixer_type = l.prefixer_type ∙ k.prefixer_type;
    paths = l.paths ∙ k.paths;
    balancer_type = l.balancer_type ∙ k.balancer_type;
    static_mapping = l.static_mapping ∙ k.static_mapping;
    acl = l.acl ∙ k.acl;
    available = l.available ∙ k.available;
    prefix_mapping = l.prefix_mapping ∙ k.prefix_mapping;
    serving = l.serving ∙ k.serving;
    shutdown = l.shutdown ∙ k.shutdown;
    free = l.free;
  }

  build-qps : (t : Str) → t ≡ codes "qps" → Rate.build lib t ≡ some (Rate.new_qps lib)
  unfolding Rate.build vermouth.Prelude.str_beq
  build-qps t e = rw e refl

  -- A limiter can be made, and only it and its record are new.
  create-ret :
      (prefix : Str) (v : LimiterInfo) (p : HttpReverseProxy lib)
      → IsInfo v
      → p.mutex ≡ unlocked
      → (l : Option (QpsRateLimiter lib)) × (q : HttpReverseProxy lib) × (create_rate_limiter lib
            prefix v.url v.type v.init v.speed p
          ≡ ret (l, q))
        × KeepsTables p q
  unfolding create_rate_limiter create_body lock unlock Rate.set_rate
  create-ret prefix v p i free =
      let l : QpsRateLimiter lib = record (Rate.new_qps lib) {
        limiter = lib.new_limiter (lib.every i.interval) v.init;
      } in
      let q : HttpReverseProxy lib = record p {
        rate_limiters = Map.put p.rate_limiters (complete_url prefix v.url) l;
        rate_limiter_type = Map.put p.rate_limiter_type prefix (
            list_or_nil (Map.get p.rate_limiter_type prefix)
            ++ record { url = v.url; type = v.type; init = v.init; speed = v.speed } ∷ []);
        mutex = unlocked;
      } in
      let known : Rate.build lib v.type ≡ some (Rate.new_qps lib) = build-qps v.type i.type in
      (some l, q, rw (free, create_body, known, i.speed) refl, tables_of (tables_refl q refl))

  create_limiters-KeepsTables :
      (prefix : Str) (infos : List LimiterInfo) (p : HttpReverseProxy lib)
      → All IsInfo infos
      → p.mutex ≡ unlocked
      → (q : HttpReverseProxy lib) × (create_limiters lib prefix infos p ≡ ret q) × KeepsTables p q
  unfolding create_limiters
  create_limiters-KeepsTables prefix [] p known free = (p, refl, tables_refl p free)
  create_limiters-KeepsTables prefix (v ∷ infos) p (i, known) free =
      let (l, r, made, keeps) = create-ret prefix v p i free in
      let (q, ran, rest) = create_limiters-KeepsTables prefix infos r known keeps.free in
      (
        q,
        ap (λ m. m >>= λ x. create_limiters lib prefix infos x.1) made ∙ ran,
        tables_trans keeps rest,
      )

  pub create_all-KeepsTables :
      (m : Map Str (List LimiterInfo)) (p : HttpReverseProxy lib)
      → All (λ e. All IsInfo e.1) m
      → p.mutex ≡ unlocked
      → (q : HttpReverseProxy lib) × (create_all lib m p ≡ ret q) × KeepsTables p q
  unfolding create_all
  create_all-KeepsTables [] p known free = (p, refl, tables_refl p free)
  create_all-KeepsTables ((prefix, infos) ∷ m) p (k, known) free =
      let (r, made, keeps) = create_limiters-KeepsTables prefix infos p k free in
      let (q, ran, rest) = create_all-KeepsTables m r known keeps.free in
      (q, ap (λ x. x >>= create_all lib m) made ∙ ran, tables_trans keeps rest)
