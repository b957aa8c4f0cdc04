-- ===== src/Proxy/Restored.antt =====
-- vermouth/http_proxy.go: a proxy after its snapshot was taken, decoded and restored.
use vermouth.Proxy.Sync.{IsSynced}
use vermouth.Prelude.{
  ℕ, refl, sym, ap, Bool, true, false, some, List, [], Str, ret, block, unlocked, lock, unlock, ◌^◌,
  ◌<◌, ◌≡◌, ◌∙◌, ◌&&◌, ◌||◌, if◌then◌else◌, nat_eq, str_eq,
}
use vermouth.Balancer
use vermouth.Balancer.{Balancer}
use vermouth.Prefix
use vermouth.Prefix.{find_prefix}
use vermouth.Prelude.Map
use vermouth.Prelude.Map.{Map}
use vermouth.Rate.{RateLib}
use vermouth.Net.{inet_toi}
use vermouth.Golib.Strings.{split, first}
use vermouth.Acl
use vermouth.Acl.{RadixTree, access_control}
use vermouth.Acl.Coverage.{is_covered}
use vermouth.Acl.Longest.{Network}
use mathlib.Core.Option
use vermouth.Proxy.{HttpReverseProxy, is_static_resource, or_false, run, close}
use vermouth.Proxy.Rebuild.{IsBuilt, KeepsRest, add_paths-IsBuilt}
use vermouth.Proxy.Remade.{find_prefix-has, KeepsTables, create_all-KeepsTables}
use vermouth.Proxy.Restore.{add_paths, add_entries, create_all, restore}
use vermouth.Proxy.Snapshot.{saved, loaded}
use vermouth.Proxy.Restorable.{
  IsRestorable, IsRestored, types_of, statics_of, bare, bare-IsBuilt, recorded-IsKnownPath,
  built-known, has-same, rebuilt-IsSynced, forbidding,
}

module _ (lib : RateLib) where
  restored-of :
      (ms : List Network) (p w q : HttpReverseProxy lib) (t : RadixTree)
      → IsSynced lib p
      → IsBuilt lib (types_of lib p) (statics_of lib p) w
      → KeepsRest lib (bare lib p) w
      → ((k : Str) → Map.get w.paths k ≡ Map.get p.paths k)
      → KeepsTables lib (record w { acl = t; rate_limiters = [] }) q
      → ((ip : Str) (key : ℕ)
          → inet_toi (first (split b':' ip)) ≡ ret (some key)
          → key < 2 ^ 32
          → access_control t ip ≡ ret (is_covered key ms))
      → IsRestored lib ms p q
  unfolding loaded saved is_static_resource
  restored-of ms p w q t s b rest got keeps forbids =
      let synced = rebuilt-IsSynced lib p w s b got in
      record {
        port = keeps.port ∙ rest.port;
        available = keeps.available ∙ rest.available;
        paths = λ k. ap (λ m. Map.get m k) keeps.paths ∙ got k;
        types = λ k. ap (λ m. Map.get m k) keeps.balancer_type ∙ b.types k;
        statics = λ k. ap (λ m. or_false (Map.get m k)) keeps.static_mapping ∙ b.statics k;
        synced = record {
          hosts = λ k.
              ap (λ m. Map.get m k) keeps.paths
              ∙ synced.hosts k
              ∙ ap (λ m. Option.map Balancer.hosts (Map.get m.mapping k))
                  (sym keeps.prefix_mapping);
          types = λ k.
              ap (λ m. Map.get m k) keeps.balancer_type
              ∙ synced.types k
              ∙ ap (λ m. Option.map Balancer.mode (Map.get m.mapping k)) (sym keeps.prefix_mapping);
        };
        finds = λ path.
            ap (λ m. find_prefix m path) keeps.prefix_mapping
            ∙ find_prefix-has w.prefix_mapping p.prefix_mapping (has-same lib p w s b.hosts got)
                path;
        forbids =
            λ ip key address k. ap (λ x. access_control x ip) keeps.acl ∙ forbids ip key address k;
        free = keeps.free;
        serving = keeps.serving ∙ rest.serving;
        shutdown = keeps.shutdown ∙ rest.shutdown;
      }

  restore-run :
      (p w q : HttpReverseProxy lib) (t : RadixTree)
      → Prefix.build p.prefixer_type ≡ some Prefix.new_hash_prefixer
      → add_paths lib p.paths (record p { prefix_mapping = Prefix.new_hash_prefixer; paths = [] })
        ≡ ret w
      → add_entries w.acl.entries Acl.new_radix_tree ≡ ret t
      → create_all lib w.rate_limiter_type (record w { acl = t; rate_limiters = [] }) ≡ ret q
      → restore lib p ≡ ret (true, q)
  unfolding restore
  restore-run p w q t known paths entries limiters =
      rw (restore, known, paths, entries, limiters) refl

  -- Behind the loop over the paths.
  after :
      (ms : List Network) (p w : HttpReverseProxy lib)
      → IsRestorable lib ms p
      → add_paths lib p.paths (bare lib p) ≡ ret w
      → IsBuilt lib (types_of lib p) (statics_of lib p) w
      → KeepsRest lib (bare lib p) w
      → ((k : Str) → Map.get w.paths k ≡ Map.get p.paths k)
      → (q : HttpReverseProxy lib) × (restore lib (loaded lib (saved lib p)) ≡ ret (true, q))
        × IsRestored lib ms p q
  unfolding loaded saved
  after ms p w r paths_ran b rest got =
      let (t, acl_ran, forbids) = forbidding lib ms p.acl.entries r.listed r.networks in
      let x : HttpReverseProxy lib = record w { acl = t; rate_limiters = [] } in
      let (q, limiters_ran, keeps) =
        create_all-KeepsTables lib p.rate_limiter_type x r.infos b.free in
      (
        q,
        restore-run (loaded lib (saved lib p)) w q t (built-known lib p.prefixer_type r.known)
            paths_ran (ap (λ a. add_entries a.entries Acl.new_radix_tree) rest.acl ∙ acl_ran)
            (ap (λ i. create_all lib i x) rest.infos ∙ limiters_ran),
        restored-of ms p w q t r.synced b rest got keeps forbids,
      )

  -- A proxy whose tables agree, as they do after any run of operations, is saved and decoded, where
  -- the factories know its prefixer and its limiters, no limiter has the speed zero, and its black
  -- list is recorded by texts of networks: Restore then returns without an error, and the proxy has
  -- the same hosts, algorithms and static flags at every prefix, finds the same prefix for every
  -- path, and forbids exactly the addresses that a recorded network covers. Its Shutdown channel is
  -- nil.
  pub restore-IsRestored :
      (ms : List Network) (p : HttpReverseProxy lib)
      → IsRestorable lib ms p
      → (q : HttpReverseProxy lib) × (restore lib (loaded lib (saved lib p)) ≡ ret (true, q))
        × IsRestored lib ms p q
  unfolding loaded saved Map.get Map.has
  restore-IsRestored ms p r =
      let (w, paths_ran, b, rest, got) =
        add_paths-IsBuilt lib (types_of lib p) (statics_of lib p) p.paths (bare lib p)
          (recorded-IsKnownPath lib p r.synced) (bare-IsBuilt lib p) in
      after ms p w r paths_ran b rest got

  never : (b : Bool) (q : HttpReverseProxy lib) → (if b && false then ret q else block) ≡ block
  never true q = refl
  never false q = refl

  -- A proxy that can be restored, as above, was restored from its snapshot, and runs, whether the port can be
  -- listened at or not. Close then waits for ever.
  pub restore-close :
      (ms : List Network) (p : HttpReverseProxy lib) (listens : Bool)
      → IsRestorable lib ms p
      → (q q' : HttpReverseProxy lib) × (restore lib (loaded lib (saved lib p)) ≡ ret (true, q))
        × (run lib listens q ≡ ret (listens, q'))
        × (close lib q' ≡ block)
  unfolding run close lock unlock
  restore-close ms p listens r =
      let (q, ran, is) = restore-IsRestored ms p r in running q ran is.free is.serving is.shutdown
    where
      running :
          (q : HttpReverseProxy lib)
          → restore lib (loaded lib (saved lib p)) ≡ ret (true, q)
          → q.mutex ≡ unlocked
          → q.serving ≡ false
          → q.shutdown ≡ false
          → (q q' : HttpReverseProxy lib) × (restore lib (loaded lib (saved lib p)) ≡ ret (true, q))
            × (run lib listens q ≡ ret (listens, q'))
            × (close lib q' ≡ block)
      running q ran free idle nil = (
        q,
        record q { mutex = unlocked; serving = q.serving || listens && q.shutdown },
        ran,
        rw free refl,
        rw (idle, nil) (never listens _),
      )
