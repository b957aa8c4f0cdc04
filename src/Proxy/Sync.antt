-- ===== src/Proxy/Sync.antt =====
-- vermouth/http_proxy.go: the tables that a snapshot holds, and the prefixer.
use vermouth.Prelude.{
  refl, ap, inl, inr, Bool, Option, none, some, List, arith, Bool-cases, Option-cases, Str,
  str_beq_iff, Go, ret, >>=-eq-ret, ret-injective, lock, ◌≡◌, ◌∙◌, ◌>>=◌, nat_eq, str_eq,
}
use mathlib.Core.Option
use mathlib.Core.Path.{subst}
use vermouth.Balancer
use vermouth.Balancer.{Balancer}
use vermouth.Balancer.Kinds.{build-mode}
use vermouth.Prefix
use vermouth.Prefix.{HashPrefixer}
use vermouth.Rate.{RateLib}
use vermouth.Prelude.Map
use vermouth.Proxy.{
  HttpReverseProxy, locked, add_prefix_body, remove_prefix_body, change_host_body, deref,
}

module _ (lib : RateLib) where
  -- At every prefix the recorded hosts and the recorded type are those of the balancer that the
  -- prefixer holds, and nothing is recorded at a prefix that it does not hold.
  pub record IsSynced (proxy : HttpReverseProxy lib) : Type 0 where
    pub hosts :
        (k : Str)
        → Map.get proxy.paths k ≡ Option.map Balancer.hosts (Map.get proxy.prefix_mapping.mapping k)
    pub types :
        (k : Str)
        → Map.get proxy.balancer_type k
          ≡ Option.map Balancer.mode (Map.get proxy.prefix_mapping.mapping k)

  pub remove_prefix_body-IsSynced :
      (prefix : Str) (proxy : HttpReverseProxy lib)
      → IsSynced proxy
      → IsSynced (remove_prefix_body lib prefix proxy)
  unfolding remove_prefix_body Prefix.remove
  remove_prefix_body-IsSynced prefix proxy s = record {
    hosts = λ k. ground (
      arith,
      Map.get-remove proxy.paths prefix k,
      Map.get-remove proxy.prefix_mapping.mapping prefix k,
      s.hosts k,
    );
    types = λ k. ground (
      arith,
      Map.get-remove proxy.balancer_type prefix k,
      Map.get-remove proxy.prefix_mapping.mapping prefix k,
      s.types k,
    );
  }

  -- A balancer of the recorded type takes the place of what a prefix had, and its hosts are recorded.
  put-IsSynced :
      (proxy : HttpReverseProxy lib) (prefix : Str) (lb : Balancer)
      → IsSynced proxy
      → IsSynced (record proxy {
        prefix_mapping = record { mapping = Map.put proxy.prefix_mapping.mapping prefix lb };
        balancer_type = Map.put proxy.balancer_type prefix (Balancer.mode lb);
        paths = Map.put proxy.paths prefix (Balancer.hosts lb);
      })
  put-IsSynced proxy prefix lb s = record {
    hosts = λ k. ground (
      arith,
      Map.get-put proxy.paths prefix k (Balancer.hosts lb),
      Map.get-put proxy.prefix_mapping.mapping prefix k lb,
      s.hosts k,
    );
    types = λ k. ground (
      arith,
      Map.get-put proxy.balancer_type prefix k (Balancer.mode lb),
      Map.get-put proxy.prefix_mapping.mapping prefix k lb,
      s.types k,
    );
  }

  -- The same, where the type stays recorded.
  replace-IsSynced :
      (proxy : HttpReverseProxy lib) (prefix : Str) (old lb : Balancer)
      → Map.get proxy.prefix_mapping.mapping prefix ≡ some old
      → Balancer.mode lb ≡ Balancer.mode old
      → IsSynced proxy
      → IsSynced (record proxy {
        prefix_mapping = record { mapping = Map.put proxy.prefix_mapping.mapping prefix lb };
        paths = Map.put proxy.paths prefix (Balancer.hosts lb);
      })
  replace-IsSynced proxy prefix old lb there same s = record {
    hosts = λ k. ground (
      arith,
      Map.get-put proxy.paths prefix k (Balancer.hosts lb),
      Map.get-put proxy.prefix_mapping.mapping prefix k lb,
      s.hosts k,
    );
    types = λ k. ground (
      arith,
      Map.get-put proxy.prefix_mapping.mapping prefix k lb,
      s.types k,
      str_beq_iff prefix k,
    );
  }

  -- The lock is no part of what is recorded.
  pub locked-IsSynced :
      (f : HttpReverseProxy lib → Go (HttpReverseProxy lib))
      → ((p q : HttpReverseProxy lib) → f p ≡ ret q → IsSynced p → IsSynced q)
      → (p q : HttpReverseProxy lib) → locked lib f p ≡ ret q
      → IsSynced p
      → IsSynced q
  unfolding locked
  locked-IsSynced f keep p q e s =
      let (m, _, e1) = >>=-eq-ret (lock p.mutex) _ e in
      let (d, run, e2) = >>=-eq-ret (f (record p { mutex = m })) _ e1 in
      let k = keep (record p { mutex = m }) d run (record { hosts = s.hosts; types = s.types }) in
      subst IsSynced (ret-injective e2) (record { hosts = k.hosts; types = k.types })

  abbrev pub Keeps : (HttpReverseProxy lib → Go (HttpReverseProxy lib)) → Type 0
  Keeps f = (p q : HttpReverseProxy lib) → f p ≡ ret q → IsSynced p → IsSynced q

  -- The new entry of AddPrefix, for what the factory built.
  entry-IsSynced :
      (p q : HttpReverseProxy lib) (prefix algo : Str) (is_static : Bool) (b : Option Balancer)
      → ((lb : Balancer) → b ≡ some lb → Balancer.mode lb ≡ algo)
      → Map.get p.prefix_mapping.mapping prefix ≡ none
      → (deref (Prefix.get_balancer (Prefix.added p.prefix_mapping prefix b) prefix) >>= λ lb.
          ret (record p {
            static_mapping = Map.put p.static_mapping prefix is_static;
            prefix_mapping = Prefix.added p.prefix_mapping prefix b;
            balancer_type = Map.put p.balancer_type prefix algo;
            paths = Map.put p.paths prefix (Balancer.hosts lb);
          }))
        ≡ ret q
      → IsSynced p
      → IsSynced q
  unfolding Prefix.get_balancer Prefix.added
  entry-IsSynced p q prefix algo is_static none built missing e s = let e' = (rw missing at e) in cc
  entry-IsSynced p q prefix algo is_static (some lb) built missing e s =
      let mode = built lb refl in
      let e' = (rw (Map.get-put_self p.prefix_mapping.mapping prefix lb) at e) in
      let k = put-IsSynced p prefix lb s in
      subst IsSynced (ret-injective e') (record { hosts = k.hosts; types = rw (← mode) k.types })

  pub add_prefix_body-IsSynced :
      (prefix algo : Str) (hosts : List Str) (is_static : Bool)
      → Keeps (add_prefix_body lib prefix algo hosts is_static)
  unfolding add_prefix_body Prefix.add
  add_prefix_body-IsSynced prefix algo hosts is_static p q e s =
      elim (Bool-cases (Map.has p.prefix_mapping.mapping prefix)) [
        | inl there ↦ subst IsSynced (ret-injective (rw there at e)) s
        | inr missing ↦
            let e0 = (rw missing at e) in
            let (m, run, e1) = >>=-eq-ret (Prefix.add p.prefix_mapping prefix algo hosts) _ e0 in
            let (b, built, e2) = >>=-eq-ret (Balancer.build algo hosts) _ run in
            entry-IsSynced p q prefix algo is_static b
              (λ lb h. build-mode algo hosts lb (built ∙ ap ret h)) (Map.get-is_none _ _ missing)
              (rw (← ret-injective e2) at e1) s
      ]

  pub change_host_body-IsSynced :
      (f : Balancer → Go Balancer) (prefix : Str)
      → ((a b : Balancer) → f a ≡ ret b → Balancer.mode b ≡ Balancer.mode a)
      → Keeps (change_host_body lib f prefix)
  unfolding change_host_body Prefix.get_balancer
  change_host_body-IsSynced f prefix same p q e s =
      elim (Option-cases (Map.get p.prefix_mapping.mapping prefix)) [
        | inl missing ↦ let e' = (rw missing at e) in cc
        | inr (old, there) ↦
            let (lb, run, e1) = >>=-eq-ret (f old) _ (rw there at e) in
            subst IsSynced (ret-injective e1)
              (replace-IsSynced p prefix old lb there (same old lb run) s)
      ]
