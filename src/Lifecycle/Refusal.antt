-- ===== src/Lifecycle/Refusal.antt =====
-- vermouth/start.go and vermouth/http_server.go: the management server of a node that is not the leader.
use vermouth.Prelude.{
  ℕ, refl, Bool, true, false, not, some, Str, codes, Go, ret, ℤ, ◌≡◌, ◌∙◌, ◌==◌, if◌then◌else◌,
  nat_eq, str_eq,
}
use vermouth.Rate.{RateLib}
use vermouth.Lifecycle.{Node, ServerArgs, new_vermouth, notified_all}
use vermouth.Lifecycle.Leadership.{notices, after_turns, notified_all-new_vermouth}
use vermouth.Server.{
  HttpServer, HttpReply, method_not_allowed, not_leader, check_write_permission, respond,
  do_add_proxy, do_add_proxy_prefix, do_remove_proxy_prefix, do_add_host, do_remove_host,
  do_add_black_list, do_remove_black_list, do_set_rate_limiter, do_change_static, do_change_lb,
  do_change_http_proxy_state,
}
use vermouth.Server.Guards.{handle}
use vermouth.State.Bodies.{Codecs}
use vermouth.State.Command.{
  Command, adding_proxy, adding_prefix, removing_prefix, adding_host, removing_host,
  adding_black_list, removing_black_list, setting_rate_limiter, changing_static, changing_lb,
  changing_available,
}
use vermouth.State.Manager.{RaftAnswer, Vermouth}

module _ (lib : RateLib) where
  abbrev pub refusal : Str → HttpReply
  refusal method = if method == codes "GET" then method_not_allowed else not_leader

  guarded :
      (get writes : Bool) (x y : HttpReply) (v : Vermouth lib) (k : Go (HttpReply × Vermouth lib))
      → writes ≡ false
      → (if get then ret (x, v) else if not writes then ret (y, v) else k)
        ≡ ret (if get then x else y, v)
  guarded true writes x y v k f = refl
  guarded false writes x y v k f = rw f refl

  module _ (codecs : Codecs) (listens : ℤ → Bool) (raft : Str → RaftAnswer) where
    handle-refusal :
        (c : Command) (h : HttpServer) (method : Str) (readable : Bool) (v : Vermouth lib)
        → check_write_permission h ≡ false
        → handle lib codecs listens raft c h method readable v ≡ ret (refusal method, v)
    unfolding handle respond do_add_proxy do_add_proxy_prefix do_remove_proxy_prefix do_add_host
        do_remove_host do_add_black_list do_remove_black_list do_set_rate_limiter do_change_static
        do_change_lb do_change_http_proxy_state
    handle-refusal (adding_proxy b) h method readable v f =
        guarded (method == codes "GET") (check_write_permission h) _ _ v _ f
    handle-refusal (adding_prefix b) h method readable v f =
        guarded (method == codes "GET") (check_write_permission h) _ _ v _ f
    handle-refusal (removing_prefix b) h method readable v f =
        guarded (method == codes "GET") (check_write_permission h) _ _ v _ f
    handle-refusal (adding_host b) h method readable v f =
        guarded (method == codes "GET") (check_write_permission h) _ _ v _ f
    handle-refusal (removing_host b) h method readable v f =
        guarded (method == codes "GET") (check_write_permission h) _ _ v _ f
    handle-refusal (adding_black_list b) h method readable v f =
        guarded (method == codes "GET") (check_write_permission h) _ _ v _ f
    handle-refusal (removing_black_list b) h method readable v f =
        guarded (method == codes "GET") (check_write_permission h) _ _ v _ f
    handle-refusal (setting_rate_limiter b) h method readable v f =
        guarded (method == codes "GET") (check_write_permission h) _ _ v _ f
    handle-refusal (changing_static b) h method readable v f =
        guarded (method == codes "GET") (check_write_permission h) _ _ v _ f
    handle-refusal (changing_lb b) h method readable v f =
        guarded (method == codes "GET") (check_write_permission h) _ _ v _ f
    handle-refusal (changing_available b) h method readable v f =
        guarded (method == codes "GET") (check_write_permission h) _ _ v _ f

    -- A node that has lost the leadership, after any number of terms, refuses every command of
    -- the management server, with or without a readable body, and nothing changes.
    pub follower-refusal :
        (known : Str → Bool) (conf : ServerArgs) (n : ℕ) (c : Command) (method : Str)
        (readable : Bool) (v : Vermouth lib)
        → conf.http_server ≡ true
        → after_turns false n ≡ false
        → (node : Node) × (h : HttpServer) × (notified_all true
              (notices true n)
              (new_vermouth known conf)
            ≡ ret node)
          × (node.http_server ≡ some h)
          × (handle lib codecs listens raft c h method readable v ≡ ret (refusal method, v))
    follower-refusal known conf n c method readable v asked lost =
        let (node, ran, in_step, led, _) = notified_all-new_vermouth known conf n asked in
        (
          node,
          in_step.server,
          ran,
          in_step.there,
          handle-refusal c in_step.server method readable v (in_step.writes ∙ led ∙ lost),
        )
