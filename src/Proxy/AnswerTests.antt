-- ===== src/Proxy/AnswerTests.antt =====
-- vermouth/http_proxy.go: a proxy whose only prefix is the root.
use vermouth.Prelude.{
  refl, sym, inl, inr, true, false, [], arith, Bool-cases, codes, str_beq, ret, unlocked, pos, ◌≡◌,
  ◌∷◌, nat_eq, str_eq,
}
use vermouth.Prelude.Map
use vermouth.Fixtures.{test_lib}
use vermouth.Acl
use vermouth.Balancer.{round_robin}
use vermouth.Net.{Request, remote_ip}
use vermouth.Prefix.{HashPrefixer}
use vermouth.Prefix.Total.{IsStaffed}
use vermouth.Proxy.{HttpReverseProxy, remove_prefix}
use vermouth.Proxy.Removal.{IsRemoved, remove_prefix-IsRemoved}
use vermouth.Proxy.Serve.{Reply, serve_http}
use vermouth.Proxy.Answers.{serve_http-ret}

abbrev only_root : HashPrefixer
only_root = record {
  mapping = (codes "/", round_robin (record { idx = 0; hosts = codes "10.0.0.1:80" ∷ [] })) ∷ [];
}

abbrev front : HttpReverseProxy test_lib
front = record {
  port = pos 8080;
  prefixer_type = codes "hash-prefixer";
  paths = (codes "/", codes "10.0.0.1:80" ∷ []) ∷ [];
  balancer_type = (codes "/", codes "round-robin") ∷ [];
  rate_limiter_type = [];
  static_mapping = [];
  acl = Acl.new_radix_tree;
  available = true;
  rate_limiters = [];
  prefix_mapping = only_root;
  serving = true;
  shutdown = true;
  mutex = unlocked;
}

abbrev get_login : Request
get_login = record {
  method = codes "GET";
  path = codes "/login";
  remote_addr = codes "192.168.0.7:4711";
  header = λ name. [];
}

let_in : Acl.access_control front.acl (remote_ip get_login) ≡ ret false
unfolding Acl.access_control vermouth.Net.inet_toi vermouth.Golib.Strings.split
    vermouth.Golib.Strings.first remote_ip str_beq vermouth.Golib.Strconv.atoi Acl.new_radix_tree
let_in = refl

only_root-IsStaffed : IsStaffed only_root
unfolding Map.get
only_root-IsStaffed k lb e = elim (Bool-cases (str_beq (codes "/") k)) [
  | inl here ↦
      (let is = rw here at e in
        let same : round_robin (record { idx = 0; hosts = codes "10.0.0.1:80" ∷ [] }) ≡ lb = cc in
        (record { idx = 0; hosts = codes "10.0.0.1:80" ∷ [] }, sym same, omega arith))
  | inr elsewhere ↦ (let is = rw elsewhere at e in cc)
]

root_there : Map.has only_root.mapping (codes "/") ≡ true
unfolding Map.has str_beq
root_there = refl

serve_http-ret_example :
    (reply : Reply) × (proxy' : HttpReverseProxy test_lib) × (serve_http test_lib 0 true get_login
        front
      ≡ ret (reply, proxy'))
serve_http-ret_example =
    serve_http-ret test_lib 0 get_login front refl refl let_in only_root-IsStaffed root_there

remove_prefix-IsRemoved_example :
    (proxy' : HttpReverseProxy test_lib) × (remove_prefix test_lib (codes "/") front ≡ ret proxy')
    × IsRemoved test_lib (codes "/") front proxy'
remove_prefix-IsRemoved_example = remove_prefix-IsRemoved test_lib (codes "/") front refl
