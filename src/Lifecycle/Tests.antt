-- ===== src/Lifecycle/Tests.antt =====
-- vermouth/start.go: a node over its first terms.
use vermouth.Prelude.{
  refl, Bool, true, false, some, [], Str, codes, ret, panic, block, ℤ, pos, ◌≡◌, ◌∷◌, ◌==◌, nat_eq,
  str_eq,
}
use vermouth.Fixtures.{test_lib, test_codecs}
use vermouth.Lifecycle.{Node, ServerArgs, new_vermouth, notified_all}
use vermouth.Lifecycle.Leadership.{IsInStep, notices, after_turns, terms, notified_all-new_vermouth}
use vermouth.Lifecycle.Refusal.{refusal, follower-refusal}
use vermouth.Server.{HttpServer}
use vermouth.Server.Guards.{handle}
use vermouth.State.Bodies.{AddHttpProxyBody}
use vermouth.State.Manager.{RaftAnswer, applied}
use vermouth.State.Command.{adding_proxy}
use vermouth.State.Manager.{Vermouth, cluster}

abbrev conf : ServerArgs
conf = record {
  http_server = true;
  http_port = pos 9000;
  rpc_server = true;
  discovery = (codes "zookeeper", pos 8080) ∷ [];
}

abbrev is_known : Str → Bool
is_known class = class == codes "zookeeper"

abbrev anywhere : ℤ → Bool
anywhere port = true

abbrev taken : Str → RaftAnswer
taken entry = applied

abbrev member : Vermouth test_lib
member = record { mode = cluster; ctx = record { proxies = [] }; log = [] }

abbrev new_proxy : AddHttpProxyBody
new_proxy = record { port = pos 8080; prefix_type = codes "hash-prefixer" }

-- An rpc server that could not listen at its port leaves nobody to take the word to stop.
no_listener : notified_all false (true ∷ false ∷ []) (new_vermouth is_known conf) ≡ block
unfolding notified_all new_vermouth
no_listener = refl

-- Without the management server the first term ends the process.
no_http_server :
    notified_all true (true ∷ []) (new_vermouth is_known (record conf { http_server = false }))
    ≡ panic
unfolding notified_all new_vermouth
no_http_server = refl

notified_all-new_vermouth_example :
    (node : Node) × (notified_all true (notices true 3) (new_vermouth is_known conf) ≡ ret node)
    × IsInStep node
    × (node.leader ≡ after_turns false 3)
    × (node.discovery_runs ≡ terms true 3)
notified_all-new_vermouth_example = notified_all-new_vermouth is_known conf 3 refl

follower-refusal_example :
    (node : Node) × (h : HttpServer) × (notified_all true
        (notices true 2)
        (new_vermouth is_known conf)
      ≡ ret node)
    × (node.http_server ≡ some h)
    × (handle test_lib test_codecs anywhere taken
          (adding_proxy new_proxy)
          h
          (codes "POST")
          true
          member
        ≡ ret (refusal test_lib (codes "POST"), member))
follower-refusal_example =
    follower-refusal test_lib test_codecs anywhere taken is_known conf 2 (adding_proxy new_proxy)
      (codes "POST") true member refl refl
