-- ===== src/State/Tests.antt =====
-- vermouth/vermouth_state_manager.go: commands at concrete tables.
use vermouth.Prelude.{
  refl, Bool, true, false, none, some, [], arith, Str, codes, str_beq, ret, unlocked, ℤ, pos, ◌≡◌,
  ◌∷◌, nat_eq, str_eq,
}
use vermouth.Prelude.Map
use vermouth.Prelude.Int.{int_eq}
use vermouth.Fixtures.{test_lib, test_codecs}
use vermouth.Acl
use vermouth.Balancer.{round_robin}
use vermouth.Proxy
use vermouth.Proxy.{HttpReverseProxy}
use vermouth.State.Bodies.{AddHttpProxyBody, HttpProxyHostBody}
use vermouth.State.Manager.{
  RaftAnswer, RaftAnswer, RaftAnswer, RaftAnswer, RaftAnswer, RaftAnswer, RaftAnswer, RaftAnswer,
  RaftAnswer, RaftAnswer, RaftAnswer, RaftAnswer, RaftAnswer, applied, refused, lost,
  write_log_entry,
}
use vermouth.State.Manager.{lost, raft_failed, cluster}
use vermouth.State.Command.{execute, adding_proxy, adding_host}
use vermouth.State.Manager.{Vermouth, Answer, proxy_not_exists, stand}
use vermouth.State.Agreement.{Agree, execute-Agree, in_stand, in_cluster}
use vermouth.State.LogEntry.{encode, decode, decode-encode}
use vermouth.State.Errors.{Undone, execute-error}
use vermouth.State.Missing.{handle_event-missing}
use vermouth.State.Events.{add_host, handle_event, remove_hosts}
use vermouth.State.Hosts.{handle_event-remove_hosts}

abbrev anywhere : ℤ → Bool
anywhere port = true

abbrev taken : Str → RaftAnswer
taken entry = applied

abbrev empty_vermouth : Vermouth test_lib
empty_vermouth = record { mode = stand; ctx = record { proxies = [] }; log = [] }

abbrev vermouth_of : Answer test_lib → Vermouth test_lib
vermouth_of (ret (e, v)) = v
vermouth_of _ = empty_vermouth

abbrev new_proxy : AddHttpProxyBody
new_proxy = record { port = pos 8080; prefix_type = codes "hash-prefixer" }

abbrev added_in : Vermouth test_lib → Vermouth test_lib
added_in v = vermouth_of (execute test_lib test_codecs anywhere taken (adding_proxy new_proxy) v)

added_run :
    execute test_lib test_codecs anywhere taken
      (adding_proxy new_proxy)
      (in_stand test_lib test_codecs anywhere taken empty_vermouth)
    ≡ ret (none, added_in (in_stand test_lib test_codecs anywhere taken empty_vermouth))
unfolding execute vermouth.State.Manager.add_http_proxy Map.has vermouth.Prelude.str_beq
    vermouth.State.Context.do_add_proxy Proxy.new_http_reverse_proxy Proxy.run
    vermouth.State.Stand.add_proxy
added_run = refl

logged_run :
    execute test_lib test_codecs anywhere taken
      (adding_proxy new_proxy)
      (in_cluster test_lib test_codecs anywhere taken empty_vermouth)
    ≡ ret (none, added_in (in_cluster test_lib test_codecs anywhere taken empty_vermouth))
unfolding execute vermouth.State.Manager.add_http_proxy Map.has vermouth.Prelude.str_beq
    vermouth.State.Context.do_add_proxy Proxy.new_http_reverse_proxy Proxy.run
logged_run = refl

execute-Agree_example :
    Agree test_lib test_codecs anywhere taken empty_vermouth
      (added_in (in_stand test_lib test_codecs anywhere taken empty_vermouth))
      (added_in (in_cluster test_lib test_codecs anywhere taken empty_vermouth))
execute-Agree_example =
    execute-Agree test_lib test_codecs anywhere taken (adding_proxy new_proxy) empty_vermouth
      (added_in (in_stand test_lib test_codecs anywhere taken empty_vermouth))
      (added_in (in_cluster test_lib test_codecs anywhere taken empty_vermouth)) added_run
      logged_run

abbrev host_body : HttpProxyHostBody
host_body = record { port = pos 8080; prefix = codes "/"; host = codes "10.0.0.1:80" }

host_run :
    execute test_lib test_codecs anywhere taken (adding_host host_body) empty_vermouth
    ≡ ret (some proxy_not_exists, empty_vermouth)
unfolding execute vermouth.State.Manager.add_http_proxy_host Map.get
host_run = refl

-- A cluster in which raft takes every entry and then loses its answer.
abbrev losing : Str → RaftAnswer
losing entry = lost

abbrev clustered : Vermouth test_lib
clustered = record { mode = cluster; ctx = record { proxies = [] }; log = [] }

abbrev left_behind : Vermouth test_lib
left_behind =
    vermouth_of (execute test_lib test_codecs anywhere losing (adding_proxy new_proxy) clustered)

lost_run :
    execute test_lib test_codecs anywhere losing (adding_proxy new_proxy) clustered
    ≡ ret (some raft_failed, left_behind)
unfolding execute vermouth.State.Manager.add_http_proxy Map.has vermouth.Prelude.str_beq
lost_run = refl

execute-error_example : Undone test_lib losing clustered left_behind
execute-error_example =
    execute-error test_lib test_codecs anywhere losing (adding_proxy new_proxy) clustered
      left_behind raft_failed lost_run

abbrev shop : HttpReverseProxy test_lib
shop = record {
  port = pos 8080;
  prefixer_type = codes "hash-prefixer";
  paths = (codes "/shop", codes "10.0.0.1:80" ∷ codes "10.0.0.2:80" ∷ []) ∷ [];
  balancer_type = (codes "/shop", codes "round-robin") ∷ [];
  rate_limiter_type = [];
  static_mapping = (codes "/shop", false) ∷ [];
  acl = Acl.new_radix_tree;
  available = true;
  rate_limiters = [];
  prefix_mapping = record {
    mapping =
        (
          codes "/shop",
          round_robin (record { idx = 0; hosts = codes "10.0.0.1:80" ∷ codes "10.0.0.2:80" ∷ [] }),
        )
        ∷ [];
  };
  serving = true;
  shutdown = true;
  mutex = unlocked;
}

abbrev shop_vermouth : Vermouth test_lib
shop_vermouth = record { mode = stand; ctx = record { proxies = (pos 8080, shop) ∷ [] }; log = [] }

shop_listed : Map.get shop_vermouth.ctx.proxies (pos 8080) ≡ some shop
unfolding Map.get
shop_listed = refl

handle_event-remove_hosts_example :
    handle_event test_lib test_codecs anywhere taken
      (pos 8080)
      (remove_hosts (codes "shop") (codes "10.0.0.1:80" ∷ []))
      shop_vermouth
    ≡ ret shop_vermouth
handle_event-remove_hosts_example =
    handle_event-remove_hosts test_lib test_codecs anywhere taken (pos 8080) (codes "shop")
      (codes "10.0.0.1:80" ∷ []) shop shop_vermouth shop_listed

decode-encode_example :
    decode (encode (record { opt = 0x0012; payload = codes "body" }))
    ≡ ret (record { opt = 0x0012; payload = codes "body" })
decode-encode_example =
    decode-encode (record { opt = 0x0012; payload = codes "body" }) (ground arith)

nothing_listed : Map.get empty_vermouth.ctx.proxies (pos 8080) ≡ none
unfolding Map.get
nothing_listed = refl

handle_event-missing_example :
    handle_event test_lib test_codecs anywhere taken
      (pos 8080)
      (add_host (codes "shop") (codes "10.0.0.3:80"))
      empty_vermouth
    ≡ ret empty_vermouth
handle_event-missing_example =
    handle_event-missing test_lib test_codecs anywhere taken (pos 8080)
      (add_host (codes "shop") (codes "10.0.0.3:80")) empty_vermouth refl nothing_listed
