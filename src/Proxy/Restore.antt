-- ===== src/Proxy/Restore.antt =====
-- vermouth/http_proxy.go: Restore, which rebuilds what a snapshot does not hold, and
-- BuildHttpReverseProxyFromConfig.
use vermouth.Prelude.{
  Bool, true, false, none, some, List, [], Str, Go, ret, ◌∷◌, ◌>>=◌, nat_eq, str_eq,
}
use vermouth.Acl
use vermouth.Acl.{RadixTree}
use vermouth.Prefix
use vermouth.Rate.{RateLib, LimiterInfo}
use vermouth.Prelude.Map
use vermouth.Prelude.Map.{Map}
use vermouth.Proxy.{
  HttpReverseProxy, HttpProxyArgs, HttpProxyPathArgs, new_http_reverse_proxy, add_prefix,
  list_or_nil, or_false,
}
use vermouth.Proxy.Limiters.{create_rate_limiter}

-- The black list, built again from its entries.
unfoldable pub add_entries : Map Str Bool → RadixTree → Go RadixTree
add_entries [] t = ret t
add_entries ((ip, _) ∷ ips) t = do (e, t') ← Acl.add t ip ip; add_entries ips t'

module _ (lib : RateLib) where
  -- The prefixes, added again with the balancer's type and the static flag that were recorded.
  unfoldable pub add_paths : Map Str (List Str) → HttpReverseProxy lib → Go (HttpReverseProxy lib)
  add_paths [] proxy = ret proxy
  add_paths ((k, v) ∷ paths) proxy = do
    p ←
        add_prefix lib k (list_or_nil (Map.get proxy.balancer_type k)) v
          (or_false (Map.get proxy.static_mapping k)) proxy
    add_paths paths p

  -- The inner loop: a limiter for each info. Each call appends its info to the prefix's list again.
  unfoldable pub create_limiters :
      Str → List LimiterInfo → HttpReverseProxy lib → Go (HttpReverseProxy lib)
  create_limiters prefix [] proxy = ret proxy
  create_limiters prefix (v ∷ infos) proxy = do
    (l, p) ← create_rate_limiter lib prefix v.url v.type v.init v.speed proxy
    create_limiters prefix infos p

  unfoldable pub create_all :
      Map Str (List LimiterInfo) → HttpReverseProxy lib → Go (HttpReverseProxy lib)
  unfolding create_limiters
  create_all [] proxy = ret proxy
  create_all ((prefix, infos) ∷ rest) proxy = do
    p ← create_limiters prefix infos proxy
    create_all rest p

  -- Restore: `false` is the error for an unknown prefixer.
  unfoldable pub restore : HttpReverseProxy lib → Go (Bool × HttpReverseProxy lib)
  unfolding add_paths add_entries create_all
  restore proxy = elim (Prefix.build proxy.prefixer_type) [
    | none ↦ ret (false, proxy)
    | some p ↦ do
      with_paths ← add_paths proxy.paths (record proxy { prefix_mapping = p; paths = [] })
      t ← add_entries with_paths.acl.entries Acl.new_radix_tree
      done ←
          create_all with_paths.rate_limiter_type
            (record with_paths { acl = t; rate_limiters = [] })
      ret (true, done)
  ]

  add_path_args : List HttpProxyPathArgs → HttpReverseProxy lib → Go (HttpReverseProxy lib)
  add_path_args [] proxy = ret proxy
  add_path_args (path ∷ paths) proxy = do
    p ← add_prefix lib path.pattern path.balance_mode path.hosts path.static proxy
    add_path_args paths
        (record p { balancer_type = Map.put p.balancer_type path.pattern path.balance_mode })

  -- BuildHttpReverseProxyFromConfig
  unfoldable pub build_from_config : List HttpProxyArgs → Go (List (HttpReverseProxy lib))
  unfolding add_path_args
  build_from_config [] = ret []
  build_from_config (arg ∷ conf) = do
    new ← new_http_reverse_proxy lib arg
    proxy ← add_path_args arg.paths new
    proxies ← build_from_config conf
    ret (proxy ∷ proxies)
