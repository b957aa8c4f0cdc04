-- ===== src/State/Restart.antt =====
-- vermouth/start.go and vermouth/context.go: a table after a restart from its snapshot.
use vermouth.State.Context.{new_state_context, StateContext}
use mathlib.Core.Path.{subst}
use vermouth.Prelude.{
  refl, sym, ap, inl, inr, Bool, true, Option, none, some, List, [], arith, Bool-cases, Str, All,
  ret, ret-injective, ℤ, ◌≡◌, ◌∙◌, ◌∷◌, ◌==◌, nat_eq, str_eq,
}
use vermouth.Prelude.Int.{int_eq}
use vermouth.Prelude.Map
use vermouth.Prelude.Map.{Map}
use mathlib.Core.Option
use vermouth.Rate.{RateLib}
use vermouth.Acl.Longest.{Network}
use vermouth.Proxy.{HttpReverseProxy}
use vermouth.Proxy.Restore
use vermouth.Proxy.Restorable.{IsRestorable, IsRestored}
use vermouth.Proxy.Restored.{restore-IsRestored}
use vermouth.Proxy.Snapshot.{HttpProxySnap, saved, loaded}
use vermouth.State.Snapshot.{
  marshal, un_marshal, restore_from_snap, Table, saved_all, decoded_into, restore_each,
}

module _ (lib : RateLib) where
  get-decoded_into :
      (m : Table lib) (port : ℤ)
      → Map.get (decoded_into lib (saved_all lib m) []) port
        ≡ Option.map (λ p. loaded lib (saved lib p)) (Map.get m port)
  unfolding decoded_into Map.get
  get-decoded_into [] port = refl
  get-decoded_into ((k, p) ∷ m) port = ground (
    arith,
    get-decoded_into m port,
    Map.get-put (decoded_into lib (saved_all lib m) []) k port (loaded lib (saved lib p)),
  )

  abbrev Restores : HttpReverseProxy lib → Type 0
  Restores v = (q : HttpReverseProxy lib) × (Restore.restore lib v ≡ ret (true, q))

  -- What the loop gives back: at each port the restored proxy.
  abbrev EachRestored : Table lib → Table lib → Type 0
  EachRestored m m' =
      (port : ℤ)
      → ((v : HttpReverseProxy lib)
          → Map.get m port ≡ some v
          → (q : HttpReverseProxy lib) × (Map.get m' port ≡ some q)
            × (Restore.restore lib v ≡ ret (true, q)))
        × (Map.has m' port ≡ Map.has m port)

  some-injective : {p q : HttpReverseProxy lib} → some p ≡ some q → p ≡ q
  some-injective h = cc

  each-cons :
      (k : ℤ) (v q : HttpReverseProxy lib) (m m' : Table lib)
      → Restore.restore lib v ≡ ret (true, q)
      → EachRestored m m'
      → EachRestored ((k, v) ∷ m) ((k, q) ∷ m')
  unfolding Map.get Map.has
  each-cons k v q m m' ran each port = elim (Bool-cases (k == port)) [
    | inl here ↦ (
      λ w e.
          let is : v ≡ w = some-injective (rw here at e) in
          (q, rw here refl, ap (Restore.restore lib) (sym is) ∙ ran),
      rw here refl,
    )
    | inr apart ↦ (
      λ w e. let (x, there, run) = (each port).0 w (rw apart at e) in (x, rw apart there, run),
      rw apart (each port).1,
    )
  ]

  restore_each-ret :
      (m : Table lib)
      → All (λ e. Restores e.1) m
      → (m' : Table lib) × (restore_each lib m ≡ ret m') × EachRestored m m'
  unfolding restore_each Map.get Map.has
  restore_each-ret [] h = ([], refl, λ port. (λ v e. cc, refl))
  restore_each-ret ((k, v) ∷ m) ((q, ran), h) =
      let (m', rest, each) = restore_each-ret m h in
      ((k, q) ∷ m', rw (ran, rest) refl, each-cons k v q m m' ran each)

  -- Every proxy of a decoded table can be restored.
  remove-All :
      (m : Table lib) (k : ℤ) → All (λ e. Restores e.1) m → All (λ e. Restores e.1) (Map.remove m k)
  unfolding Map.remove
  remove-All [] k h = h
  remove-All ((j, v) ∷ m) k (r, h) = elim (Bool-cases (j == k)) [
    | inl same ↦ rw same (remove-All m k h)
    | inr apart ↦ rw apart (r, remove-All m k h)
  ]

  decoded-Restores :
      (nets : ℤ → List Network) (m : Table lib)
      → All (λ e. IsRestorable lib (nets e.0) e.1) m
      → All (λ e. Restores e.1) (decoded_into lib (saved_all lib m) [])
  unfolding decoded_into Map.put
  decoded-Restores nets [] h = tt
  decoded-Restores nets ((k, p) ∷ m) (r, h) =
      let (q, ran, _) = restore-IsRestored lib (nets k) p r in
      ((q, ran), remove-All (decoded_into lib (saved_all lib m) []) k (decoded-Restores nets m h))

  IsRestorable-at :
      (nets : ℤ → List Network) (m : Table lib) (port : ℤ) (p : HttpReverseProxy lib)
      → All (λ e. IsRestorable lib (nets e.0) e.1) m
      → Map.get m port ≡ some p
      → IsRestorable lib (nets port) p
  unfolding Map.get
  IsRestorable-at nets [] port p h there = cc
  IsRestorable-at nets ((k, v) ∷ m) port p (r, h) there = elim (Bool-cases (k == port)) [
    | inl here ↦
        (let is : v ≡ p = some-injective (rw here at there) in
          let at_port : k ≡ port = (int_eq.equal_iff k port).0 here in
          subst (λ q. IsRestorable lib (nets port) q) is
            (subst (λ j. IsRestorable lib (nets j) v) at_port r))
    | inr apart ↦ IsRestorable-at nets m port p h (rw apart at there)
  ]

  -- A table after a restart: at the ports of the old one, and nowhere else, stand the restored
  -- proxies.
  abbrev pub IsRestarted : (ℤ → List Network) → StateContext lib → StateContext lib → Type 0
  IsRestarted nets ctx ctx' =
      (port : ℤ)
      → ((p : HttpReverseProxy lib)
          → Map.get ctx.proxies port ≡ some p
          → (q : HttpReverseProxy lib) × (Map.get ctx'.proxies port ≡ some q)
            × IsRestored lib (nets port) p q)
        × (Map.has ctx'.proxies port ≡ Map.has ctx.proxies port)

  each-IsRestarted :
      (nets : ℤ → List Network) (ctx : StateContext lib) (m' : Table lib)
      → All (λ e. IsRestorable lib (nets e.0) e.1) ctx.proxies
      → EachRestored (decoded_into lib (saved_all lib ctx.proxies) []) m'
      → IsRestarted nets ctx (record { proxies = m' })
  unfolding Map.has
  each-IsRestarted nets ctx m' h each port = (
    λ p there.
        let (x, at, ran) = (each port).0 (loaded lib (saved lib p)) (
          get-decoded_into ctx.proxies port
          ∙ ap (Option.map (λ p. loaded lib (saved lib p))) there) in
        let (q, ran', is) =
          restore-IsRestored lib (nets port) p (IsRestorable-at nets ctx.proxies port p h there) in
        let same : x ≡ q =
          ap (λ (r : Bool × HttpReverseProxy lib). r.1) (ret-injective (sym ran ∙ ran')) in
        (q, at ∙ ap some same, is),
    (each port).1
        ∙ ap Map.is_some (get-decoded_into ctx.proxies port)
        ∙ mapped-is_some (Map.get ctx.proxies port),
  )
    where
      mapped-is_some :
          (o : Option (HttpReverseProxy lib))
          → Map.is_some (Option.map (λ p. loaded lib (saved lib p)) o) ≡ Map.is_some o
      mapped-is_some none = refl
      mapped-is_some (some p) = refl

  -- A table is saved whose proxies can be restored: their tables agree, their prefixers and limiters
  -- are known, no limiter has the speed zero, and texts of networks record their black lists. The
  -- JSON library decodes the text that it made. restoreFromSnap of this text into a new table then
  -- returns: at each port of the old table, and at no other, there is a proxy that serves by the same
  -- tables, finds the same prefixes and forbids the addresses that the recorded networks cover.
  pub restart-IsRestarted :
      (encode : Map ℤ HttpProxySnap → Option Str) (decode : Str → Option (Map ℤ HttpProxySnap))
      (nets : ℤ → List Network) (ctx : StateContext lib) (text : Str)
      → All (λ e. IsRestorable lib (nets e.0) e.1) ctx.proxies
      → marshal lib encode decode ctx ≡ some text
      → (encode (saved_all lib ctx.proxies) ≡ some text
          → decode text ≡ some (saved_all lib ctx.proxies))
      → (ctx' : StateContext lib) × (restore_from_snap lib encode decode
            (some text)
            (new_state_context lib)
          ≡ ret ctx')
        × IsRestarted nets ctx ctx'
  unfolding restore_from_snap un_marshal marshal
  restart-IsRestarted encode decode nets ctx text h saved_text decodes =
      let (m', ran, each) =
        restore_each-ret (decoded_into lib (saved_all lib ctx.proxies) [])
          (decoded-Restores nets ctx.proxies h) in
      (
        record { proxies = m' },
        rw (restore_from_snap, un_marshal, decodes saved_text, ran) refl,
        each-IsRestarted nets ctx m' h each,
      )
