-- ===== src/State/Crash.antt =====
-- vermouth/context.go: Restore of a snapshot in which some proxy has a black list.
use vermouth.Prelude.{
  ℕ, refl, sym, ap, inl, inr, Bool, Option, none, some, List, [], arith, Bool-cases, Str, ret,
  panic, >>=-eq-ret, ℤ, ◌≡◌, ◌∙◌, ◌≢◌, ◌∷◌, ◌==◌, if◌then◌else◌, ◌>>=◌, nat_eq, str_eq,
}
use vermouth.Prelude.Int.{int_eq}
use vermouth.Prelude.Map
use vermouth.Prelude.Map.{Map}
use vermouth.Rate.{RateLib}
use vermouth.Acl.{
  RadixTree, insert, descend, finish, extend, load, update, bit_set, max_ipv4_bit, net_mask,
}
use vermouth.Acl.Coverage.{IsNetwork}
use vermouth.Acl.Longest.{Network}
use vermouth.Proxy.{HttpReverseProxy}
use vermouth.Proxy.Forbidden.{texts, add-network}
use vermouth.Proxy.Networks.{add_ips}
use vermouth.Proxy.Remade.{keys, add_entries-add_ips}
use vermouth.Proxy
use vermouth.Proxy.Restore
use vermouth.Proxy.Restore.{add_entries}
use vermouth.Proxy.Snapshot.{HttpProxySnap, loaded}
use vermouth.State.Context.{StateContext}
use vermouth.State.Snapshot.{Table, decoded_into, restore_and_start, restore, un_marshal}

-- The tree as it is decoded has no root.
insert-no_root :
    (t : RadixTree) (key mask : ℕ) (value : Str) → t.root ≡ none → insert t key mask value ≡ panic
unfolding insert descend finish extend load update
insert-no_root t key mask value bare = elim (Bool-cases (bit_set max_ipv4_bit mask)) [
  | inl more ↦ rw (insert, bare, descend, more) refl
  | inr done ↦ rw (insert, bare, descend, done, finish, extend, done) refl
]

add_entries-no_root :
    (lib : RateLib) (t : RadixTree) (entries : Map Str Bool) (n : Network) (ms : List Network)
    → t.root ≡ none
    → keys entries ≡ texts (n ∷ ms)
    → IsNetwork n
    → add_entries entries t ≡ panic
unfolding add_ips
add_entries-no_root lib t entries n ms bare listed h =
    add_entries-add_ips lib entries t
    ∙ ap (λ ks. add_ips lib ks t) listed
    ∙ ap (λ m. m >>= λ r. add_ips lib (texts ms) r.1)
        (add-network t n panic h (insert-no_root t n.key (net_mask n.cidr) n.value bare))

module _ (lib : RateLib) where
  decoded-some :
      (snap : Map ℤ HttpProxySnap) (m : Table lib) (port : ℤ) (s : HttpProxySnap)
      → Map.get snap port ≡ some s
      → Map.get (decoded_into lib snap m) port ≡ some (loaded lib s)
  unfolding decoded_into Map.get
  decoded-some [] m port s there = cc
  decoded-some ((k, v) ∷ snap) m port s there = ground (
    arith,
    decoded-some snap m port s,
    Map.get-put (decoded_into lib snap m) k port (loaded lib v),
  )

  same-some : {p q : HttpReverseProxy lib} → some p ≡ some q → p ≡ q
  same-some h = cc

  restore_and_start-no_root :
      (m r : Table lib) (port : ℤ) (hp : HttpReverseProxy lib) (n : Network) (ms : List Network)
      → Map.get m port ≡ some hp
      → hp.acl.root ≡ none
      → keys hp.acl.entries ≡ texts (n ∷ ms)
      → IsNetwork n
      → restore_and_start lib m ≢ ret r
  unfolding restore_and_start Map.get
  restore_and_start-no_root [] r port hp n ms there bare listed h ran = cc
  restore_and_start-no_root ((k, v) ∷ m) r port hp n ms there bare listed h ran =
      let (t, added, e1) = >>=-eq-ret (add_entries v.acl.entries v.acl) _ ran in
      let (x, _, e2) = >>=-eq-ret (Restore.restore lib (record v { acl = t })) _ e1 in
      let (y, _, e3) = >>=-eq-ret (if x.0 then Proxy.start lib x.1 else ret x.1) _ e2 in
      let (z, rest, _) = >>=-eq-ret (restore_and_start lib m) _ e3 in
      elim (Bool-cases (k == port)) [
        | inl here ↦
            (let is : v ≡ hp = same-some (rw here at there) in
              let stops : add_entries v.acl.entries v.acl ≡ panic =
                ap (λ (p : HttpReverseProxy lib). add_entries p.acl.entries p.acl) is
                ∙ add_entries-no_root lib hp.acl hp.acl.entries n ms bare listed h in
              let absurd_eq : panic ≡ ret t = sym stops ∙ added in cc)
        | inr apart ↦
            restore_and_start-no_root m z port hp n ms (rw apart at there) bare listed h rest
      ]

  -- Whatever table there is, Restore of a text whose snapshot has a proxy with a network on its black
  -- list never returns.
  pub restore-never :
      (encode : Map ℤ HttpProxySnap → Option Str) (decode : Str → Option (Map ℤ HttpProxySnap))
      (text : Str) (snap : Map ℤ HttpProxySnap) (port : ℤ) (s : HttpProxySnap) (n : Network)
      (ms : List Network) (ctx : StateContext lib) (r : Bool × StateContext lib)
      → decode text ≡ some snap
      → Map.get snap port ≡ some s
      → keys s.acl ≡ texts (n ∷ ms)
      → IsNetwork n
      → restore lib encode decode text ctx ≢ ret r
  unfolding restore un_marshal loaded
  restore-never encode decode text snap port s n ms ctx r read there listed h ran =
      let (m, started, _) =
        >>=-eq-ret (restore_and_start lib (decoded_into lib snap ctx.proxies)) _
          (rw (restore, un_marshal, read) at ran) in
      restore_and_start-no_root (decoded_into lib snap ctx.proxies) m port (loaded lib s) n ms
        (decoded-some snap ctx.proxies port s there) refl listed h started
