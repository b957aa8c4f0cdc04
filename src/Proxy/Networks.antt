-- ===== src/Proxy/Networks.antt =====
-- vermouth/http_proxy.go: AddBlackList and RemoveBlackList.
use vermouth.Prelude.{List, [], Str, Go, ret, ◌∷◌, ◌>>=◌, nat_eq, str_eq}
use vermouth.Acl
use vermouth.Acl.Delete
use vermouth.Acl.{RadixTree}
use vermouth.Rate.{RateLib}
use vermouth.Proxy.{HttpReverseProxy, locked}

module _ (lib : RateLib) where
  -- The loops of AddBlackList and RemoveBlackList: an error is logged, and the others go on.
  unfoldable pub add_ips : List Str → RadixTree → Go RadixTree
  add_ips [] t = ret t
  add_ips (ip ∷ ips) t = do (e, t') ← Acl.add t ip ip; add_ips ips t'

  remove_ips : List Str → RadixTree → Go RadixTree
  remove_ips [] t = ret t
  remove_ips (ip ∷ ips) t = do (e, t') ← Delete.delete_net t ip; remove_ips ips t'

  unfoldable pub change_acl :
      (RadixTree → Go RadixTree) → HttpReverseProxy lib → Go (HttpReverseProxy lib)
  change_acl f p = f p.acl >>= λ t. ret (record p { acl = t })

  -- AddBlackList and RemoveBlackList
  unfoldable pub add_black_list : List Str → HttpReverseProxy lib → Go (HttpReverseProxy lib)
  unfolding locked change_acl add_ips
  add_black_list ips = locked lib (change_acl (add_ips ips))

  unfoldable pub remove_black_list : List Str → HttpReverseProxy lib → Go (HttpReverseProxy lib)
  unfolding locked change_acl remove_ips
  remove_black_list ips = locked lib (change_acl (remove_ips ips))
