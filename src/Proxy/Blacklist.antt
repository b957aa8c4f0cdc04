-- ===== src/Proxy/Blacklist.antt =====
-- vermouth/http_proxy.go: the black list of a proxy.
use vermouth.Prelude.{
  refl, ap, List, [], Str, length, All, ret, unlocked, lock, unlock, ◌≤◌, ◌≡◌, ◌∙◌, ◌∷◌, ◌>>=◌,
  nat_eq, str_eq,
}
use vermouth.Acl.{RadixTree}
use vermouth.Acl.Valid.{IsValid}
use vermouth.Acl.Insert.{add-Returns}
use vermouth.Golib.Strings.{split, first}
use vermouth.Rate.{RateLib}
use vermouth.Proxy.{HttpReverseProxy, locked}
use vermouth.Proxy.Networks.{add_black_list, change_acl, add_ips}

-- The address of a network has at most four parts.
abbrev pub IsShort : Str → Type 0
IsShort ip_net = length (split b'.' (first (split b'/' ip_net))) ≤ 4

module _ (lib : RateLib) where
  add_ips-IsValid :
      (ips : List Str) (t : RadixTree)
      → IsValid t
      → All IsShort ips
      → (t' : RadixTree) × (add_ips lib ips t ≡ ret t') × IsValid t'
  unfolding add_ips
  add_ips-IsValid [] t v short = (t, refl, v)
  add_ips-IsValid (ip ∷ ips) t v (short, all_short) =
      let (e, t1, ran, w) = add-Returns t ip ip v short in
      let (t', rest, u) = add_ips-IsValid ips t1 w all_short in
      (t', ap (λ m. m >>= λ x. add_ips lib ips x.1) ran ∙ rest, u)

  -- AddBlackList returns on a proxy whose lock is free and whose list is valid, whatever the
  -- networks are as long as their addresses have at most four parts. The list stays valid, the lock
  -- is free again, and nothing else of the proxy changes.
  pub add_black_list-ret :
      (ips : List Str) (proxy : HttpReverseProxy lib)
      → proxy.mutex ≡ unlocked
      → IsValid proxy.acl
      → All IsShort ips
      → (t : RadixTree) × (add_black_list lib ips proxy ≡ ret (record proxy { acl = t }))
        × IsValid t
  unfolding add_black_list locked change_acl lock unlock
  add_black_list-ret ips proxy free v short =
      let (t, ran, w) = add_ips-IsValid ips proxy.acl v short in (t, run t ran, w)
    where
      run :
          (t : RadixTree)
          → add_ips lib ips proxy.acl ≡ ret t
          → add_black_list lib ips proxy ≡ ret (record proxy { acl = t })
      run t ran = rw (add_black_list, locked, lock, free, change_acl, ran) refl
