-- ===== src/Zookeeper/Follow.antt =====
-- discovery/zookeeper_client.go: the services that the events announce, where every watcher that is
-- cancelled ends before the next round.
use vermouth.Zookeeper.{watch_services, ZookeeperDiscovery, add_new, close_watchers}
use vermouth.Prelude.{
  refl, sym, ap, Bool, false, not, List, [], arith, Str, contains, Go, ret, ◌≡◌, ◌∙◌, ◌&&◌, ◌||◌,
  ◌∷◌, ◌++◌, ◌>>=◌, nat_eq, str_eq,
}
use vermouth.Zookeeper.Watchers.{
  announced, gone, contains-gone, contains-close_watchers, add_new-shutdown, add_new-announced,
  add_new-cancelled, remove_gone-Removes,
}

-- A round, and the ends of the watchers that it cancelled.
abbrev pub settled_round : List Str → ZookeeperDiscovery → Go ZookeeperDiscovery
settled_round current zk = watch_services current zk >>= λ z. ret (close_watchers z.cancelled z)

abbrev pub rounds : List (List Str) → ZookeeperDiscovery → Go ZookeeperDiscovery
rounds [] zk = ret zk
rounds (current ∷ lists) zk = settled_round current zk >>= rounds lists

-- What the last listing was.
abbrev pub last_listed : List Str → List (List Str) → List Str
last_listed services [] = services
last_listed services (current ∷ lists) = last_listed current lists

-- The watchers are those of the services that were listed last, none is about to end, and the
-- events announce the same services.
pub record Follows (zk : ZookeeperDiscovery) : Type 0 where
  pub watched : (s : Str) → contains zk.shutdown s ≡ contains zk.services s
  pub idle : zk.cancelled ≡ []
  pub told : (s : Str) → announced false zk.events s ≡ contains zk.services s

close_watchers-rest :
    (gs : List Str) (zk : ZookeeperDiscovery)
    → ((close_watchers gs zk).events ≡ zk.events)
      × ((close_watchers gs zk).services ≡ zk.services)
      × ((close_watchers gs zk).cancelled ≡ [])
unfolding close_watchers
close_watchers-rest [] zk = (refl, refl, refl)
close_watchers-rest (g ∷ gs) zk = close_watchers-rest gs _

kept_watchers :
    {before after found left listed : Bool}
    → after ≡ (found || listed)
    → found ≡ before
    → left ≡ (before && not listed)
    → (after && not left) ≡ listed
kept_watchers a b c = ground arith

kept_events :
    {before after told found left listed : Bool}
    → after ≡ (told || listed && not found)
    → told ≡ (before && not (left && not listed))
    → before ≡ left
    → found ≡ left
    → after ≡ listed
kept_events a b c d = ground arith

settled_round-Follows :
    (current : List Str) (zk : ZookeeperDiscovery)
    → Follows zk
    → (zk' : ZookeeperDiscovery) × (settled_round current zk ≡ ret zk')
      × Follows zk'
      × (zk'.services ≡ current)
unfolding watch_services
settled_round-Follows current zk f =
    let (removed, ran, r) = remove_gone-Removes current zk.services zk (λ s h. f.watched s ∙ h) in
    let added : ZookeeperDiscovery = record (add_new current removed) { services = current } in
    let (kept, listed, over) = close_watchers-rest added.cancelled added in
    let ended : added.cancelled ≡ gone current zk.services =
      add_new-cancelled current removed
      ∙ r.cancelled
      ∙ ap (λ c. c ++ gone current zk.services) f.idle in
    (
      close_watchers added.cancelled added,
      ap
          (λ m. (m >>= λ z. ret (record (add_new current z) { services = current })) >>= λ z.
            ret (close_watchers z.cancelled z))
          ran,
      record {
        watched = λ s.
            contains-close_watchers added.cancelled added s
            ∙ kept_watchers (add_new-shutdown current removed s)
                (ap (λ xs. contains xs s) r.shutdown ∙ f.watched s)
                (ap (λ xs. contains xs s) ended ∙ contains-gone current zk.services s)
            ∙ sym (ap (λ xs. contains xs s) listed);
        idle = over;
        told = λ s.
            ap (λ es. announced false es s) kept
            ∙ kept_events (add_new-announced current removed s) (r.events s) (f.told s)
                (ap (λ xs. contains xs s) r.shutdown ∙ f.watched s)
            ∙ sym (ap (λ xs. contains xs s) listed);
      },
      listed,
    )

-- From a discovery whose watchers and events agree with the services that it listed last, as a new
-- one, watchServices never panics, whatever zookeeper lists in the rounds, and in the end the
-- watchers and the services that the events announce are exactly those of the last listing, where
-- every watcher that is cancelled ends before the next round.
pub rounds-Follows :
    (lists : List (List Str)) (zk : ZookeeperDiscovery)
    → Follows zk
    → (zk' : ZookeeperDiscovery) × (rounds lists zk ≡ ret zk')
      × Follows zk'
      × (zk'.services ≡ last_listed zk.services lists)
rounds-Follows [] zk f = (zk, refl, f, refl)
rounds-Follows (current ∷ lists) zk f =
    let (zk₁, ran, g, listed) = settled_round-Follows current zk f in
    let (zk₂, rest, h, last) = rounds-Follows lists zk₁ g in
    (zk₂, ap (λ m. m >>= rounds lists) ran ∙ rest, h, last ∙ ap (λ xs. last_listed xs lists) listed)
