-- ===== src/Zookeeper/Watchers.antt =====
-- discovery/zookeeper_client.go: what each loop of watchServices does to the watchers, and to the
-- services that the events announce.
use vermouth.Zookeeper.{remove_gone, ZookeeperDiscovery, add_new, close_watchers, delete_key}
use vermouth.State.Events.{Event, add_service, remove_service, add_host, remove_host, remove_hosts}
use vermouth.Prelude.{
  refl, sym, inl, inr, Bool, true, false, not, List, [], append-nil, append_assoc, arith,
  Bool-cases, Str, str_beq_iff, beq_refl, contains, ret, ◌≡◌, ◌∙◌, ◌&&◌, ◌||◌, ◌∷◌, ◌++◌, ◌==◌,
  if◌then◌else◌, nat_eq, str_eq,
}

-- Whether the events leave a service announced.
abbrev told : Bool → Event → Str → Bool
told b (add_service x) s = if x == s then true else b
told b (remove_service x) s = if x == s then false else b
told b (remove_host x h) s = b
told b (add_host x h) s = b
told b (remove_hosts x hs) s = b

abbrev pub announced : Bool → List Event → Str → Bool
announced b [] s = b
announced b (e ∷ es) s = announced (told b e s) es s

announced-append :
    (b : Bool) (xs : List Event) (e : Event) (s : Str)
    → announced b (xs ++ e ∷ []) s ≡ told (announced b xs s) e s
announced-append b [] e s = refl
announced-append b (x ∷ xs) e s = announced-append (told b x s) xs e s

contains-append_one :
    (xs : List Str) (x s : Str) → contains (xs ++ x ∷ []) s ≡ (contains xs s || x == s)
unfolding contains
contains-append_one [] x s = ground arith
contains-append_one (y ∷ xs) x s = ground (arith, contains-append_one xs x s)

contains-delete_key :
    (xs : List Str) (x s : Str) → contains (delete_key xs x) s ≡ (contains xs s && not (x == s))
unfolding contains delete_key
contains-delete_key [] x s = refl
contains-delete_key (y ∷ xs) x s =
    ground (arith, contains-delete_key xs x s, str_beq_iff y x, str_beq_iff y s, str_beq_iff x s)

-- The services that are no longer listed.
abbrev pub gone : List Str → List Str → List Str
gone current [] = []
gone current (x ∷ xs) = if contains current x then gone current xs else x ∷ gone current xs

pub contains-gone :
    (current xs : List Str) (s : Str)
    → contains (gone current xs) s ≡ (contains xs s && not (contains current s))
unfolding contains
contains-gone current [] s = refl
contains-gone current (x ∷ xs) s = elim (Bool-cases (x == s)) [
  | inl same ↦ (let e = (str_beq_iff x s).0 same in ground (arith, contains-gone current xs s))
  | inr apart ↦ ground (arith, contains-gone current xs s)
]

pub contains-close_watchers :
    (gs : List Str) (zk : ZookeeperDiscovery) (s : Str)
    → contains (close_watchers gs zk).shutdown s ≡ (contains zk.shutdown s && not (contains gs s))
unfolding close_watchers contains
contains-close_watchers [] zk s = ground arith
contains-close_watchers (g ∷ gs) zk s = ground (
  arith,
  contains-close_watchers gs (record zk { shutdown = delete_key zk.shutdown g }) s,
  contains-delete_key zk.shutdown g s,
)

abbrev started : Str → ZookeeperDiscovery → ZookeeperDiscovery
started x zk = record zk {
  shutdown = zk.shutdown ++ x ∷ [];
  events = zk.events ++ add_service x ∷ [];
}

pub add_new-shutdown :
    (current : List Str) (zk : ZookeeperDiscovery) (s : Str)
    → contains (add_new current zk).shutdown s ≡ (contains zk.shutdown s || contains current s)
unfolding add_new contains
add_new-shutdown [] zk s = ground arith
add_new-shutdown (x ∷ current) zk s = elim (Bool-cases (contains zk.shutdown x)) [
  | inl known ↦ rw known (ground (arith, add_new-shutdown current zk s, str_beq_iff x s))
  | inr new ↦ rw new (
      ground
        (arith, add_new-shutdown current (started x zk) s, contains-append_one zk.shutdown x s))
]

pub add_new-announced :
    (current : List Str) (zk : ZookeeperDiscovery) (s : Str)
    → announced false (add_new current zk).events s
      ≡ (announced false zk.events s || contains current s && not (contains zk.shutdown s))
unfolding add_new contains
add_new-announced [] zk s = ground arith
add_new-announced (x ∷ current) zk s = elim (Bool-cases (contains zk.shutdown x)) [
  | inl known ↦ rw known (ground (arith, add_new-announced current zk s, str_beq_iff x s))
  | inr new ↦ rw new (
      ground (
        arith,
        add_new-announced current (started x zk) s,
        contains-append_one zk.shutdown x s,
        announced-append false zk.events (add_service x) s,
        str_beq_iff x s,
      ))
]

pub add_new-cancelled :
    (current : List Str) (zk : ZookeeperDiscovery) → (add_new current zk).cancelled ≡ zk.cancelled
unfolding add_new
add_new-cancelled [] zk = refl
add_new-cancelled (x ∷ current) zk = elim (Bool-cases (contains zk.shutdown x)) [
  | inl known ↦ rw known (add_new-cancelled current zk)
  | inr new ↦ rw new (add_new-cancelled current (started x zk))
]

-- What the loop over the services of the last time does, where each has a watcher.
pub record Removes (current services : List Str) (zk zk' : ZookeeperDiscovery) : Type 0 where
  pub shutdown : zk'.shutdown ≡ zk.shutdown
  pub cancelled : zk'.cancelled ≡ zk.cancelled ++ gone current services
  pub events :
      (s : Str)
      → announced false zk'.events s
        ≡ (announced false zk.events s && not (contains services s && not (contains current s)))

abbrev stopped : Str → ZookeeperDiscovery → ZookeeperDiscovery
stopped x zk = record zk {
  cancelled = zk.cancelled ++ x ∷ [];
  events = zk.events ++ remove_service x ∷ [];
}

pub remove_gone-Removes :
    (current services : List Str) (zk : ZookeeperDiscovery)
    → ((s : Str) → contains services s ≡ true → contains zk.shutdown s ≡ true)
    → (zk' : ZookeeperDiscovery) × (remove_gone current services zk ≡ ret zk')
      × Removes current services zk zk'
unfolding remove_gone contains
remove_gone-Removes current [] zk watched = (
  zk,
  refl,
  record { shutdown = refl; cancelled = sym (append-nil zk.cancelled); events = λ s. ground arith },
)
remove_gone-Removes current (x ∷ services) zk watched = elim (Bool-cases (contains current x)) [
  | inl here ↦
      (let (zk', ran, r) =
          remove_gone-Removes current services zk (λ s h. watched s (ground arith)) in
        (
          zk',
          rw (here, remove_gone) ran,
          record {
            shutdown = r.shutdown;
            cancelled = rw here r.cancelled;
            events = λ s. ground (arith, r.events s, str_beq_iff x s);
          },
        ))
  | inr left ↦
      (let there : contains zk.shutdown x ≡ true = watched x (rw (beq_refl x) refl) in
        let (zk', ran, r) =
          remove_gone-Removes current services (stopped x zk) (λ s h. watched s (ground arith)) in
        (
          zk',
          rw (left, there, remove_gone) ran,
          record {
            shutdown = r.shutdown;
            cancelled =
                rw left (r.cancelled ∙ append_assoc zk.cancelled (x ∷ []) (gone current services));
            events = λ s. ground (
              arith,
              r.events s,
              str_beq_iff x s,
              announced-append false zk.events (remove_service x) s,
            );
          },
        ))
]
