-- ===== src/State/SnapshotTests.antt =====
-- vermouth/start.go and vermouth/context.go: snapshots of a table with one proxy.
use vermouth.Proxy.Forbidden.{texts}
use vermouth.Proxy.Remade.{keys}
use vermouth.Prelude.{
  refl, inl, inr, true, false, Option, some, [], arith, Bool-cases, Str, codes, str_beq, ret, block,
  unlocked, ℤ, pos, ◌≡◌, ◌≢◌, ◌∷◌, nat_eq, str_eq,
}
use vermouth.Prelude.Int.{int_eq}
use vermouth.Prelude.Map
use vermouth.Prelude.Map.{Map}
use vermouth.Acl
use vermouth.Acl.Coverage.{IsNetwork}
use vermouth.Acl.Longest.{Network}
use vermouth.Balancer
use vermouth.Balancer.{round_robin}
use vermouth.Fixtures.{test_lib}
use vermouth.Net.{inet_toi}
use vermouth.Golib.Strings.{split, first}
use vermouth.Proxy
use vermouth.Proxy.{HttpReverseProxy}
use vermouth.Proxy.Restore
use vermouth.Proxy.Restorable.{IsRestorable, IsRestored}
use vermouth.Proxy.Restored.{restore-IsRestored, restore-close}
use vermouth.Proxy.Snapshot.{HttpProxySnap, saved, loaded}
use vermouth.Proxy.Sync.{IsSynced}
use vermouth.State.Context.{StateContext, new_state_context}
use vermouth.State.Crash.{restore-never}
use vermouth.State.Restart.{IsRestarted, restart-IsRestarted}
use vermouth.State.Snapshot.{saved_all, restore, restore_from_snap}

abbrev intranet : Network
intranet = record { key = 0x0a000000; cidr = 8; value = codes "10.0.0.0/8" }

intranet-IsNetwork : IsNetwork intranet
unfolding inet_toi split first vermouth.Golib.Strconv.atoi vermouth.Acl.second
    vermouth.Golib.Strings.rest
intranet-IsNetwork = record {
  address = refl;
  mask = codes "8";
  behind = refl;
  number = refl;
  proper = record { bits = omega arith; narrow = omega arith };
}

abbrev shop : HttpReverseProxy test_lib
shop = record {
  port = pos 8080;
  prefixer_type = codes "hash-prefixer";
  paths = (codes "/shop", codes "10.0.0.1:80" ∷ []) ∷ [];
  balancer_type = (codes "/shop", codes "round-robin") ∷ [];
  rate_limiter_type =
      (
        codes "/shop",
        record { url = codes "/cart"; type = codes "qps"; init = pos 5; speed = pos 10 } ∷ [],
      )
      ∷ [];
  static_mapping = (codes "/shop", false) ∷ [];
  acl = record Acl.new_radix_tree { entries = (codes "10.0.0.0/8", true) ∷ [] };
  available = true;
  rate_limiters = [];
  prefix_mapping = record {
    mapping =
        (codes "/shop", round_robin (record { idx = 3; hosts = codes "10.0.0.1:80" ∷ [] })) ∷ [];
  };
  serving = true;
  shutdown = true;
  mutex = unlocked;
}

shop-IsSynced : IsSynced test_lib shop
unfolding Map.get Balancer.hosts Balancer.mode
shop-IsSynced = record {
  hosts = λ k. elim (Bool-cases (str_beq (codes "/shop") k)) [
    | inl here ↦ rw here refl
    | inr elsewhere ↦ rw elsewhere refl
  ];
  types = λ k. elim (Bool-cases (str_beq (codes "/shop") k)) [
    | inl here ↦ rw here refl
    | inr elsewhere ↦ rw elsewhere refl
  ];
}

shop-IsRestorable : IsRestorable test_lib (intranet ∷ []) shop
unfolding vermouth.Rate.interval Acl.new_radix_tree
shop-IsRestorable = record {
  synced = shop-IsSynced;
  known = refl;
  infos = ((record { type = refl; interval = pos 100000000; speed = refl }, tt), tt);
  listed = refl;
  networks = (intranet-IsNetwork, tt);
}

restore-IsRestored_example :
    (q : HttpReverseProxy test_lib) × (Restore.restore test_lib
        (loaded test_lib (saved test_lib shop))
      ≡ ret (true, q))
    × IsRestored test_lib (intranet ∷ []) shop q
restore-IsRestored_example = restore-IsRestored test_lib (intranet ∷ []) shop shop-IsRestorable

restore-close_example :
    (q q' : HttpReverseProxy test_lib) × (Restore.restore test_lib
        (loaded test_lib (saved test_lib shop))
      ≡ ret (true, q))
    × (Proxy.run test_lib true q ≡ ret (true, q'))
    × (Proxy.close test_lib q' ≡ block)
restore-close_example = restore-close test_lib (intranet ∷ []) shop true shop-IsRestorable

abbrev table : StateContext test_lib
table = record { proxies = (pos 8080, shop) ∷ [] }

-- A JSON library, at the one text of the example.
abbrev json_text : Map ℤ HttpProxySnap → Option Str
json_text snap = some (codes "snapshot")

abbrev json_read : Str → Option (Map ℤ HttpProxySnap)
json_read text = some (saved_all test_lib table.proxies)

restart-IsRestarted_example :
    (ctx' : StateContext test_lib) × (restore_from_snap test_lib json_text json_read
        (some (codes "snapshot"))
        (new_state_context test_lib)
      ≡ ret ctx')
    × IsRestarted test_lib (λ port. intranet ∷ []) table ctx'
unfolding vermouth.State.Snapshot.marshal
restart-IsRestarted_example =
    restart-IsRestarted test_lib json_text json_read (λ port. intranet ∷ []) table
      (codes "snapshot") (shop-IsRestorable, tt) refl (λ e. refl)

found : Map.get (saved_all test_lib table.proxies) (pos 8080) ≡ some (saved test_lib shop)
unfolding Map.get
found = refl

recorded : keys (saved test_lib shop).acl ≡ texts (intranet ∷ [])
unfolding saved Acl.new_radix_tree
recorded = refl

restore-never_example :
    restore test_lib json_text json_read (codes "snapshot") (new_state_context test_lib)
    ≢ ret (false, table)
restore-never_example =
    restore-never test_lib json_text json_read (codes "snapshot") (saved_all test_lib table.proxies)
      (pos 8080) (saved test_lib shop) intranet [] (new_state_context test_lib) (false, table) refl
      found recorded intranet-IsNetwork
