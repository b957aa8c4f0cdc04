-- ===== src/Proxy/ForbiddenTests.antt =====
-- acl/radix_tree.go: a network of sixteen bits within one of eight.
use vermouth.Proxy.Serve.{forbidden, serve_http}
use vermouth.Proxy.{HttpReverseProxy}
use vermouth.Acl.Leading.{shift_right}
use vermouth.Proxy.Forbidden.{serve_http-covered, add_black_list-is_covered, texts}
use vermouth.Acl.Coverage.{is_covered, IsNetwork}
use vermouth.Proxy.Networks.{add_black_list}
use vermouth.Net.{remote_ip, Request, inet_toi}
use vermouth.Acl.Longest.{search_key-longest_match, longest_match, insert_all, Network}
use vermouth.Acl
use vermouth.Fixtures.{test_lib, empty_proxy}
use vermouth.Golib.Strings.{split, first}
use vermouth.Prelude.{refl, true, some, [], arith, codes, str_beq, ret, ◌≡◌, ◌∷◌, nat_eq, str_eq}

abbrev outer : Network
outer = record { key = 0x0a000000; cidr = 8; value = codes "10.0.0.0/8" }

abbrev inner : Network
inner = record { key = 0x0a010000; cidr = 16; value = codes "10.1.0.0/16" }

outer-IsNetwork : IsNetwork outer
unfolding inet_toi split first vermouth.Golib.Strconv.atoi vermouth.Acl.second
    vermouth.Golib.Strings.rest
outer-IsNetwork = record {
  address = refl;
  mask = codes "8";
  behind = refl;
  number = refl;
  proper = record { bits = omega arith; narrow = omega arith };
}

inner-IsNetwork : IsNetwork inner
unfolding inet_toi split first vermouth.Golib.Strconv.atoi vermouth.Acl.second
    vermouth.Golib.Strings.rest
inner-IsNetwork = record {
  address = refl;
  mask = codes "16";
  behind = refl;
  number = refl;
  proper = record { bits = omega arith; narrow = omega arith };
}

inner_found : longest_match 32 0x0a010203 (outer ∷ inner ∷ []) ≡ codes "10.1.0.0/16"
unfolding longest_match shift_right str_beq
inner_found = refl

search_key-longest_match_example :
    (t : Acl.RadixTree) × (insert_all (outer ∷ inner ∷ []) ≡ ret t)
    × (Acl.search_key t 0x0a010203 ≡ ret (longest_match 32 0x0a010203 (outer ∷ inner ∷ [])))
search_key-longest_match_example =
    search_key-longest_match (outer ∷ inner ∷ []) 0x0a010203
      (outer-IsNetwork.proper, (inner-IsNetwork.proper, tt)) (omega arith)

stranger_address : inet_toi (first (split b':' (codes "10.2.0.1:4711"))) ≡ ret (some 0x0a020001)
unfolding inet_toi split first vermouth.Golib.Strconv.atoi
stranger_address = refl

add_black_list-is_covered_example :
    (t : Acl.RadixTree) × (add_black_list test_lib (texts (outer ∷ inner ∷ [])) empty_proxy
      ≡ ret (record empty_proxy { acl = t }))
    × (Acl.access_control t (codes "10.2.0.1:4711")
        ≡ ret (is_covered 0x0a020001 (outer ∷ inner ∷ [])))
add_black_list-is_covered_example =
    add_black_list-is_covered test_lib (outer ∷ inner ∷ []) empty_proxy (codes "10.2.0.1:4711")
      0x0a020001 refl refl (outer-IsNetwork, (inner-IsNetwork, tt)) stranger_address (omega arith)

abbrev from_inside : Request
from_inside = record {
  method = codes "GET";
  path = codes "/login";
  remote_addr = codes "10.1.2.3:4711";
  header = λ name. [];
}

inside_address : inet_toi (first (split b':' (remote_ip from_inside))) ≡ ret (some 0x0a010203)
unfolding inet_toi split first vermouth.Golib.Strconv.atoi remote_ip str_beq
inside_address = refl

inside_covered : is_covered 0x0a010203 (outer ∷ []) ≡ true
unfolding shift_right
inside_covered = refl

serve_http-covered_example :
    (p : HttpReverseProxy test_lib) × (add_black_list test_lib (texts (outer ∷ [])) empty_proxy
      ≡ ret p)
    × (serve_http test_lib 0 true from_inside p ≡ ret (forbidden, p))
serve_http-covered_example =
    serve_http-covered test_lib (outer ∷ []) empty_proxy 0 from_inside 0x0a010203 refl refl refl
      (outer-IsNetwork, tt) inside_address (omega arith) inside_covered
