-- ===== src/Proxy/Tests.antt =====
-- vermouth/http_proxy.go: operations and requests on concrete proxies.
use vermouth.Prelude.{
  refl, true, false, none, some, List, [], arith, Str, codes, str_beq, take, All, Go, ret, panic,
  block, unlocked, pos, negsuc, ◌≡◌, ◌∷◌, nat_eq, str_eq,
}
use vermouth.Prelude.Map
use vermouth.Fixtures.{test_lib}
use vermouth.Acl
use vermouth.Balancer
use vermouth.Balancer.{Balancer, round_robin}
use vermouth.Acl.{RadixTree}
use vermouth.Acl.Valid.{IsValid, new-IsValid}
use vermouth.Proxy.Blacklist.{IsShort, add_black_list-ret}
use vermouth.Proxy.Unknown.{add_prefix-panic}
use vermouth.Proxy.Doubling.{IsKnown}
use vermouth.Proxy.Restore.{create_limiters}
use vermouth.Net.{Request}
use vermouth.Rate.{QpsRateLimiter, LimiterInfo}
use vermouth.Proxy.{HttpReverseProxy, HttpProxyArgs, new_http_reverse_proxy, add_prefix, change_lb}
use vermouth.Proxy.Networks.{add_black_list}
use vermouth.Proxy.Limiters.{set_rate_limit, complete_url}
use vermouth.Proxy.Ops.{Op, perform_all, adding_prefix, adding_host, changing_lb, serving}
use vermouth.Proxy.Sync.{IsSynced}
use vermouth.Proxy.Runs.{perform_all-IsSynced}
use vermouth.Proxy.Limits.{set_rate_limit-block}
use vermouth.Proxy.Serve.{Target, Reply, serve_http}

abbrev shop_limiter : QpsRateLimiter test_lib
shop_limiter = record { limiter = (pos 1000000, pos 100); timeout = negsuc 0 }

abbrev shop : HttpReverseProxy test_lib
shop = record {
  port = pos 8080;
  prefixer_type = codes "hash-prefixer";
  paths = (codes "/shop", codes "10.0.0.1:80" ∷ []) ∷ [];
  balancer_type = (codes "/shop", codes "round-robin") ∷ [];
  rate_limiter_type = [];
  static_mapping = (codes "/shop", false) ∷ [];
  acl = Acl.new_radix_tree;
  available = true;
  rate_limiters = (codes "/shop/cart", shop_limiter) ∷ [];
  prefix_mapping = record {
    mapping =
        (codes "/shop", round_robin (record { idx = 0; hosts = codes "10.0.0.1:80" ∷ [] })) ∷ [];
  };
  serving = true;
  shutdown = true;
  mutex = unlocked;
}

abbrev proxy_of : Go (HttpReverseProxy test_lib) → HttpReverseProxy test_lib
proxy_of (ret p) = p
proxy_of _ = shop

no_limiter : Map.get shop.rate_limiters (complete_url (codes "/shop") (codes "/pay")) ≡ none
unfolding Map.get vermouth.Prelude.str_beq
no_limiter = refl

set_rate_limit-block_example :
    set_rate_limit test_lib (codes "/shop") (codes "/pay") (codes "qps") (pos 5) (pos 5) shop
    ≡ block
set_rate_limit-block_example =
    set_rate_limit-block test_lib (codes "/shop") (codes "/pay") (codes "qps") (pos 5) (pos 5) shop
      no_limiter

abbrev limited : HttpReverseProxy test_lib
limited =
    proxy_of
      (set_rate_limit test_lib (codes "/shop") (codes "/cart") (codes "qps") (pos 5) (pos 5) shop)

abbrev get_cart : Request
get_cart = record {
  method = codes "GET";
  path = codes "/shop/cart";
  remote_addr = codes "192.168.0.7:4711";
  header = λ name. [];
}

abbrev served : Go (Reply × HttpReverseProxy test_lib) → HttpReverseProxy test_lib
served (ret (reply, p)) = p
served _ = shop

abbrev cart_target : Target
cart_target = record { host = codes "10.0.0.1"; port = pos 80; path = codes "/cart" }

abbrev args : HttpProxyArgs
args = record { port = pos 8080; prefixer_type = codes "hash-prefixer"; paths = [] }

abbrev fresh : HttpReverseProxy test_lib
fresh = proxy_of (new_http_reverse_proxy test_lib args)

fresh_run : new_http_reverse_proxy test_lib args ≡ ret fresh
unfolding new_http_reverse_proxy vermouth.Prelude.str_beq
fresh_run = refl

abbrev ops : List Op
ops =
    adding_prefix (codes "/shop") (codes "round-robin") [] false
    ∷ adding_host (codes "/shop") (codes "10.0.0.1:80")
    ∷ serving 0 true get_cart
    ∷ changing_lb (codes "/shop") (codes "consistence-hash")
    ∷ []

all_run : perform_all test_lib ops fresh ≡ ret (proxy_of (perform_all test_lib ops fresh))
unfolding perform_all vermouth.Proxy.Ops.perform vermouth.Proxy.add_prefix new_http_reverse_proxy
    vermouth.Prefix.add vermouth.Balancer.build vermouth.Prefix.get_balancer vermouth.Proxy.add_host
    vermouth.Balancer.add vermouth.Proxy.Ops.serve vermouth.Proxy.change_lb
    vermouth.Proxy.remove_prefix vermouth.Balancer.ConsistentHash.new Map.remove serve_http
    Acl.access_control vermouth.Net.inet_toi vermouth.Golib.Strings.split
    vermouth.Golib.Strings.first vermouth.Net.remote_ip vermouth.Prelude.str_beq
    vermouth.Golib.Strconv.atoi Acl.new_radix_tree vermouth.Prefix.mapping_path
    vermouth.Prefix.route Map.get vermouth.Prefix.find_prefix vermouth.Golib.Strings.rest Map.has
    vermouth.Balancer.balance vermouth.Balancer.RoundRobin.balance vermouth.Proxy.is_static_resource
    Acl.load Acl.search_from Acl.search_ip Acl.search_key vermouth.Rate.take
    vermouth.Golib.Strings.index Map.put vermouth.Balancer.RoundRobin.add
    vermouth.Balancer.RoundRobin.new vermouth.Proxy.Limiters.create_rate_limiter vermouth.Rate.build
    vermouth.Rate.set_rate vermouth.Prefix.remove vermouth.Balancer.hosts
all_run = refl

perform_all-IsSynced_example : IsSynced test_lib (proxy_of (perform_all test_lib ops fresh))
perform_all-IsSynced_example =
    perform_all-IsSynced test_lib ops args fresh (proxy_of (perform_all test_lib ops fresh))
      fresh_run all_run

networks-IsShort : All IsShort (codes "192.168.3.0/24" ∷ codes "not a network" ∷ [])
unfolding vermouth.Golib.Strings.split vermouth.Golib.Strings.first
networks-IsShort = (omega arith, (omega arith, tt))

add_black_list-ret_example :
    (t : RadixTree) × (add_black_list test_lib
        (codes "192.168.3.0/24" ∷ codes "not a network" ∷ [])
        shop
      ≡ ret (record shop { acl = t }))
    × IsValid t
add_black_list-ret_example =
    add_black_list-ret test_lib (codes "192.168.3.0/24" ∷ codes "not a network" ∷ []) shop refl
      new-IsValid networks-IsShort

unknown_algorithm : (hosts : List Str) → Balancer.build (codes "random") hosts ≡ ret none
unfolding Balancer.build str_beq
unknown_algorithm hosts = refl

pay_missing : Map.has shop.prefix_mapping.mapping (codes "/pay") ≡ false
unfolding Map.has str_beq
pay_missing = refl

add_prefix-panic_example : add_prefix test_lib (codes "/pay") (codes "random") [] false shop ≡ panic
add_prefix-panic_example =
    add_prefix-panic test_lib (codes "/pay") (codes "random") [] false shop refl pay_missing
      (unknown_algorithm [])

abbrev shop_balancer : Balancer
shop_balancer = round_robin (record { idx = 0; hosts = codes "10.0.0.1:80" ∷ [] })

shop_there : Map.get shop.prefix_mapping.mapping (codes "/shop") ≡ some shop_balancer
unfolding Map.get str_beq
shop_there = refl

abbrev cart_info : LimiterInfo
cart_info = record { url = codes "/cart"; type = codes "qps"; init = pos 5; speed = pos 5 }

abbrev recorded : HttpReverseProxy test_lib
recorded = record shop { rate_limiter_type = (codes "/shop", cart_info ∷ []) ∷ [] }

cart-IsKnown : IsKnown test_lib cart_info
unfolding vermouth.Rate.build str_beq
cart-IsKnown = (_, refl)

recorded_there : Map.get recorded.rate_limiter_type (codes "/shop") ≡ some (cart_info ∷ [])
unfolding Map.get str_beq
recorded_there = refl

doubled_run :
    create_limiters test_lib (codes "/shop") (cart_info ∷ []) recorded
    ≡ ret (proxy_of (create_limiters test_lib (codes "/shop") (cart_info ∷ []) recorded))
unfolding create_limiters vermouth.Proxy.Limiters.create_rate_limiter vermouth.Rate.build str_beq
    vermouth.Rate.set_rate
doubled_run = refl
