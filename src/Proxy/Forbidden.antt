-- ===== src/Proxy/Forbidden.antt =====
-- vermouth/http_proxy.go: the addresses that AccessControl forbids after AddBlackList.
use vermouth.Proxy.Serve.{not_found, forbidden, serve_checked, serve_http}
use vermouth.Proxy.{HttpReverseProxy, locked}
use vermouth.Acl.Walk.{insert-Inserts}
use vermouth.Net.{remote_ip, Request, inet_toi}
use vermouth.Acl.Represents.{new-Represents, Represents}
use vermouth.Rate.{RateLib}
use vermouth.Acl.Coverage.{covered_up_to-all, longest_match-empty, is_covered, IsNetwork}
use vermouth.Acl.Trails.{Trail}
use vermouth.Proxy.Networks.{change_acl, add_black_list, add_ips}
use vermouth.Acl.Longest.{search_key-Represents, value_at, IsProper, Network}
use vermouth.Acl.{
  new_radix_tree, add_masked, add_mask, add_ip, net_mask, search_ip, RadixTree, access_control, add,
  insert,
}
use vermouth.Prelude.Map
use vermouth.Golib.Strings.{split, first}
use vermouth.Prelude.Map.{Map}
use vermouth.Prelude.{
  ℕ, refl, ap, Bool, true, false, not, none, some, List, [], arith, ltb, Str, All, All-map, Go, ret,
  unlocked, lock, unlock, ◌^◌, ◌≤◌, ◌<◌, ◌≡◌, ◌∙◌, ◌||◌, ◌∷◌, if◌then◌else◌, ◌>>=◌, nat_eq, str_eq,
}

within : (c : ℕ) → c ≤ 32 → ltb 32 c ≡ false
within c h = ground arith

-- Add of the text of a network.
pub add-network :
    (t : RadixTree) (n : Network) (m : Go RadixTree)
    → IsNetwork n
    → insert t n.key (net_mask n.cidr) n.value ≡ m
    → add t n.value n.value
      ≡ (m >>= λ x. ret (none, record x { entries = Map.put x.entries n.value true }))
unfolding add
add-network t n m h ran =
    let small : ltb 32 n.cidr ≡ false = within n.cidr h.proper.bits in
    ap (λ m. m >>= add_ip t n.value n.value) h.address
    ∙ ap (add_mask t n.key n.value n.value) h.behind
    ∙ rw (h.number, small, add_mask, add_masked)
        (ap (λ m. m >>= λ x. ret (none, record x { entries = Map.put x.entries n.value true })) ran)

entries-Represents :
    (t : RadixTree) (m : Map Str Bool) (ps : List Trail) (value : Trail → Str)
    → Represents t ps value
    → Represents (record t { entries = m }) ps value
entries-Represents t m ps value rep = record {
  root = rep.root;
  free = rep.free;
  size = rep.size;
  first = rep.first;
  closed = rep.closed;
  shallow = rep.shallow;
  outside = rep.outside;
  at = λ p i e.
      let x = rep.at p i e in
      record {
        node = x.node;
        stands = x.stands;
        valued = x.valued;
        left = x.left;
        right = x.right;
      };
}

abbrev pub texts : List Network → List Str
texts [] = []
texts (n ∷ ns) = n.value ∷ texts ns

-- Networks put on others, the newest first.
pub onto : List Network → List Network → List Network
onto [] ns = ns
onto (m ∷ ms) ns = onto ms (m ∷ ns)

pub onto-IsNetwork :
    (ms ns : List Network) → All IsNetwork ms → All IsNetwork ns → All IsNetwork (onto ms ns)
unfolding onto
onto-IsNetwork [] ns h k = k
onto-IsNetwork (m ∷ ms) ns (h, hs) k = onto-IsNetwork ms (m ∷ ns) hs (h, k)

pub onto-is_covered :
    (key : ℕ) (ms ns : List Network)
    → is_covered key (onto ms ns) ≡ (is_covered key ms || is_covered key ns)
unfolding onto
onto-is_covered key [] ns = refl
onto-is_covered key (m ∷ ms) ns = ground (arith, onto-is_covered key ms (m ∷ ns))

pub add_ips-Represents :
    (lib : RateLib) (ms ns : List Network) (t : RadixTree) (ps : List Trail)
    → All IsNetwork ms
    → Represents t ps (value_at ns)
    → (t' : RadixTree) × (qs : List Trail) × (add_ips lib (texts ms) t ≡ ret t')
      × Represents t' qs (value_at (onto ms ns))
unfolding add_ips onto
add_ips-Represents lib [] ns t ps h rep = (t, ps, refl, rep)
add_ips-Represents lib (m ∷ ms) ns t ps (h, hs) rep =
    let (t1, qs, ran, after) =
      insert-Inserts t ps (value_at ns) m.key m.cidr m.value rep h.proper.bits in
    let t2 = record t1 { entries = Map.put t1.entries m.value true } in
    let (t', rs, rest, last) =
      add_ips-Represents lib ms (m ∷ ns) t2 qs hs (entries-Represents t1 _ qs _ after) in
    (
      t',
      rs,
      ap (λ r. r >>= λ x. add_ips lib (texts ms) x.1) (add-network t m (ret t1) h ran) ∙ rest,
      last,
    )

abbrev proper_all : (ns : List Network) → All IsNetwork ns → All IsProper ns
proper_all ns h = All-map (λ n i. i.proper) ns h

is_covered-nobody : (b : Bool) → not (not b) ≡ b
is_covered-nobody true = refl
is_covered-nobody false = refl

-- The addresses that a tree of networks forbids.
pub access_control-covered :
    (t : RadixTree) (ps : List Trail) (ns : List Network) (ip : Str) (key : ℕ)
    → Represents t ps (value_at ns)
    → All IsNetwork ns
    → inet_toi (first (split b':' ip)) ≡ ret (some key)
    → key < 2 ^ 32
    → access_control t ip ≡ ret (is_covered key ns)
unfolding access_control search_ip
access_control-covered t ps ns ip key rep h address k =
    rw
      (
        address,
        search_key-Represents t ps ns key rep (proper_all ns h) k,
        longest_match-empty 32 key ns h,
        covered_up_to-all key ns h,
      )
      (ap ret (is_covered-nobody (is_covered key ns)))

-- On a proxy whose lock is free and whose list is new, AddBlackList of the texts of any networks
-- returns, and changes only the list. AccessControl then forbids an address, with or without a port,
-- exactly if some network of the texts covers it: the first bits of the network, as many as the
-- number behind its slash says, are the first bits of the address.
pub add_black_list-is_covered :
    (lib : RateLib) (ms : List Network) (proxy : HttpReverseProxy lib) (ip : Str) (key : ℕ)
    → proxy.mutex ≡ unlocked
    → proxy.acl ≡ new_radix_tree
    → All IsNetwork ms
    → inet_toi (first (split b':' ip)) ≡ ret (some key)
    → key < 2 ^ 32
    → (t : RadixTree) × (add_black_list lib (texts ms) proxy ≡ ret (record proxy { acl = t }))
      × (access_control t ip ≡ ret (is_covered key ms))
unfolding add_black_list locked change_acl lock unlock
add_black_list-is_covered lib ms proxy ip key free new h address k =
    let (t, ps, ran, rep) =
      add_ips-Represents lib ms [] new_radix_tree ([] ∷ []) h new-Represents in
    let ran' : add_ips lib (texts ms) proxy.acl ≡ ret t = ap (add_ips lib (texts ms)) new ∙ ran in
    (
      t,
      rw (add_black_list, locked, lock, free, change_acl, ran') refl,
      access_control-covered t ps (onto ms []) ip key rep (onto-IsNetwork ms [] h tt) address k
          ∙ ap ret (onto-is_covered key ms [] ∙ or_false (is_covered key ms)),
    )
  where
    or_false : (b : Bool) → (b || false) ≡ b
    or_false true = refl
    or_false false = refl

-- ServeHTTP answers a request from an address that a network of the black list covers with
-- "forbidden", and changes nothing, after AddBlackList on an available proxy with a new list and a
-- free lock.
pub serve_http-covered :
    (lib : RateLib) (ms : List Network) (proxy : HttpReverseProxy lib) (now : ℕ) (r : Request)
    (key : ℕ)
    → proxy.available ≡ true
    → proxy.mutex ≡ unlocked
    → proxy.acl ≡ new_radix_tree
    → All IsNetwork ms
    → inet_toi (first (split b':' (remote_ip r))) ≡ ret (some key)
    → key < 2 ^ 32
    → is_covered key ms ≡ true
    → (p : HttpReverseProxy lib) × (add_black_list lib (texts ms) proxy ≡ ret p)
      × (serve_http lib now true r p ≡ ret (forbidden, p))
unfolding serve_http serve_checked
serve_http-covered lib ms proxy now r key up free new h address k covered =
    let (t, ran, answer) =
      add_black_list-is_covered lib ms proxy (remote_ip r) key free new h address k in
    let p : HttpReverseProxy lib = record proxy { acl = t } in
    (
      p,
      ran,
      ap
            (λ b.
              if not b || false
              then ret (not_found, p)
              else (access_control t (remote_ip r) >>= serve_checked lib now r p))
            up
          ∙ ap (λ a. a >>= serve_checked lib now r p) (answer ∙ ap ret covered),
    )
