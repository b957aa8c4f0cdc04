-- ===== src/Server/Tests.antt =====
-- vermouth/http_server.go: requests to a server at concrete tables.
use vermouth.Prelude.{
  refl, Bool, true, [], Str, codes, str_beq, Go, ret, ℤ, pos, ◌≡◌, nat_eq, str_eq,
}
use vermouth.Fixtures.{test_lib, test_codecs}
use vermouth.State.Manager.{RaftAnswer, applied, refused, lost, write_log_entry}
use vermouth.State.Command.{execute, adding_proxy}
use vermouth.State.Manager.{Vermouth, stand}
use vermouth.State.Bodies.{AddHttpProxyBody}
use vermouth.Server.{HttpReply, HttpServer, success, not_leader}
use vermouth.Server.Guards.{Outcome, handle, handle-Outcome}

abbrev anywhere : ℤ → Bool
anywhere port = true

abbrev taken : Str → RaftAnswer
taken entry = applied

abbrev empty_vermouth : Vermouth test_lib
empty_vermouth = record { mode = stand; ctx = record { proxies = [] }; log = [] }

abbrev new_proxy : AddHttpProxyBody
new_proxy = record { port = pos 8080; prefix_type = codes "hash-prefixer" }

abbrev leader : HttpServer
leader = record { port = pos 9000; enable_write = 1 }

abbrev follower : HttpServer
follower = record { port = pos 9000; enable_write = 0 }

abbrev vermouth_of : Go (HttpReply × Vermouth test_lib) → Vermouth test_lib
vermouth_of (ret (reply, v)) = v
vermouth_of _ = empty_vermouth

abbrev posted : HttpServer → Go (HttpReply × Vermouth test_lib)
posted h =
    handle test_lib test_codecs anywhere taken (adding_proxy new_proxy) h (codes "POST") true
      empty_vermouth

follower_run : posted follower ≡ ret (not_leader, empty_vermouth)
unfolding handle vermouth.Prelude.str_beq
follower_run = refl

leader_run : posted leader ≡ ret (success, vermouth_of (posted leader))
unfolding handle vermouth.Prelude.str_beq vermouth.State.Manager.add_http_proxy
    vermouth.Prelude.Map.has vermouth.State.Context.do_add_proxy
    vermouth.Proxy.new_http_reverse_proxy vermouth.Proxy.run vermouth.State.Stand.add_proxy
leader_run = refl

handle-Outcome_example :
    Outcome test_lib taken
      (execute test_lib test_codecs anywhere taken (adding_proxy new_proxy))
      leader
      (codes "POST")
      true
      success
      empty_vermouth
      (vermouth_of (posted leader))
handle-Outcome_example =
    handle-Outcome test_lib test_codecs anywhere taken (adding_proxy new_proxy) leader
      (codes "POST") true empty_vermouth (vermouth_of (posted leader)) success leader_run
