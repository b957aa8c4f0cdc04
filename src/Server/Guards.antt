-- ===== src/Server/Guards.antt =====
-- vermouth/http_server.go: what a request to the management server can change.
use vermouth.Prelude.{
  sym, ap, inl, inr, Bool, true, Option, none, some, arith, Bool-cases, Str, codes, str_beq_iff, Go,
  ret, >>=-eq-ret, ret-injective, ℤ, ◌≡◌, ◌∙◌, ◌≢◌, ◌⊎◌, ◌==◌, if◌then◌else◌, nat_eq, str_eq,
}
use vermouth.Rate.{RateLib}
use vermouth.State.Bodies.{Codecs}
use vermouth.State.Manager.{
  RaftAnswer, Vermouth, ManagerError, add_http_proxy, add_http_proxy_prefix,
  remove_http_proxy_prefix, add_http_proxy_host, remove_http_proxy_host, add_black_list,
  remove_black_list, set_rate_limiter, change_static, change_lb, change_proxy_available,
}
use vermouth.State.Command.{
  Command, execute, adding_proxy, adding_prefix, removing_prefix, adding_host, removing_host,
  adding_black_list, removing_black_list, setting_rate_limiter, changing_static, changing_lb,
  changing_available,
}
use vermouth.State.Errors.{Undone, execute-error}
use mathlib.Core.Path.{subst}
use vermouth.Server.{
  HttpReply, HttpServer, success, failed, bad_request, method_not_allowed, not_leader,
  internal_server_error, check_write_permission, respond, do_add_proxy, do_add_proxy_prefix,
  do_remove_proxy_prefix, do_add_host, do_remove_host, do_add_black_list, do_remove_black_list,
  do_set_rate_limiter, do_change_static, do_change_lb, do_change_http_proxy_state,
}

abbrev pub given : {Body : Type 0} → Bool → Body → Option Body
given readable b = if readable then some b else none

module _ (lib : RateLib) where
  -- A reply of success is the answer to a POST (or another method than GET), at a node that may
  -- write, with a body that could be read, for which the command succeeded. Any other reply leaves
  -- the Vermouth as `Undone` says.
  pub Outcome :
      (Str → RaftAnswer)
      → (Vermouth lib → Go (Option ManagerError × Vermouth lib))
      → HttpServer
      → Str
      → Bool
      → HttpReply
      → Vermouth lib
      → Vermouth lib
      → Type 0
  Outcome raft command h method readable reply v v' =
      ((reply ≡ success)
        × (method ≢ codes "GET")
        × (check_write_permission h ≡ true)
        × (readable ≡ true)
        × (command v ≡ ret (none, v')))
      ⊎ ((reply ≢ success) × Undone lib raft v v')

  refused :
      (raft : Str → RaftAnswer) (r : HttpReply) (v v' : Vermouth lib) (reply : HttpReply)
      → r ≢ success
      → ◌≡◌ {A = Go (HttpReply × Vermouth lib)} (ret (r, v)) (ret (reply, v'))
      → (reply ≢ success) × Undone lib raft v v'
  unfolding Undone
  refused raft r v v' reply ne e =
      let is = ret-injective e in
      (
        (λ s. ne (ap (λ (x : HttpReply × Vermouth lib). x.0) is ∙ s)),
        inl (sym (ap (λ (x : HttpReply × Vermouth lib). x.1) is)),
      )

  respond-Outcome :
      {Body : Type 0} (raft : Str → RaftAnswer) (on_error : HttpReply)
      (command : Body → Vermouth lib → Go (Option ManagerError × Vermouth lib)) (h : HttpServer)
      (method : Str) (readable : Bool) (b : Body) (v v' : Vermouth lib) (reply : HttpReply)
      → on_error ≢ success
      → ((w : Vermouth lib) (e : ManagerError)
          → command b v ≡ ret (some e, w)
          → Undone lib raft v w)
      → respond lib on_error command h method (given readable b) v ≡ ret (reply, v')
      → Outcome raft (command b) h method readable reply v v'
  unfolding respond Outcome
  respond-Outcome raft on_error command h method readable b v v' reply bad same e =
      elim (Bool-cases (method == codes "GET")) [
        | inl get ↦
            inr (refused raft method_not_allowed v v' reply (ground arith) (rw (get, respond) at e))
        | inr post ↦ elim (Bool-cases (check_write_permission h)) [
          | inr follower ↦ inr (
              refused raft not_leader v v' reply (ground arith) (rw (post, follower, respond) at e))
          | inl leader ↦ elim (Bool-cases readable) [
            | inr bad_body ↦ inr (
                refused raft bad_request v v' reply (ground arith)
                  (rw (post, leader, bad_body, respond) at e))
            | inl good ↦
                (let ((x, w), ran, e1) =
                    >>=-eq-ret (command b v) _ (rw (post, leader, good, respond) at e) in
                  answered x w ran e1 (λ g. ground (arith, str_beq_iff method (codes "GET"))) leader
                    good)
          ]
        ]
      ]
    where
      answered :
          (x : Option ManagerError) (w : Vermouth lib)
          → command b v ≡ ret (x, w)
          → ◌≡◌ {A = Go (HttpReply × Vermouth lib)}
              (ret (failed lib on_error x, w))
              (ret (reply, v'))
          → method ≢ codes "GET"
          → check_write_permission h ≡ true
          → readable ≡ true
          → Outcome raft (command b) h method readable reply v v'
      answered none w ran e1 m leader good =
          let is = ret-injective e1 in
          let left = ap (λ (x : HttpReply × Vermouth lib). x.1) is in
          inl (sym (ap (λ (x : HttpReply × Vermouth lib). x.0) is), m, leader, good, cc)
      answered (some x) w ran e1 m leader good =
          let is = ret-injective e1 in
          let kept = same w x ran in
          inr (
            (λ r. bad (ap (λ (x : HttpReply × Vermouth lib). x.0) is ∙ r)),
            subst (Undone lib raft v) (ap (λ (x : HttpReply × Vermouth lib). x.1) is) kept,
          )

  module _ (codecs : Codecs) (listens : ℤ → Bool) (raft : Str → RaftAnswer) where
    -- The handler of a command's path.
    unfoldable pub handle :
        Command → HttpServer → Str → Bool → Vermouth lib → Go (HttpReply × Vermouth lib)
    unfolding do_add_proxy do_add_proxy_prefix do_remove_proxy_prefix do_add_host do_remove_host
        do_add_black_list do_remove_black_list do_set_rate_limiter do_change_static do_change_lb
        do_change_http_proxy_state
    handle (adding_proxy b) h method readable v =
        do_add_proxy lib codecs listens raft h method (given readable b) v
    handle (adding_prefix b) h method readable v =
        do_add_proxy_prefix lib codecs listens raft h method (given readable b) v
    handle (removing_prefix b) h method readable v =
        do_remove_proxy_prefix lib codecs listens raft h method (given readable b) v
    handle (adding_host b) h method readable v =
        do_add_host lib codecs listens raft h method (given readable b) v
    handle (removing_host b) h method readable v =
        do_remove_host lib codecs listens raft h method (given readable b) v
    handle (adding_black_list b) h method readable v =
        do_add_black_list lib codecs listens raft h method (given readable b) v
    handle (removing_black_list b) h method readable v =
        do_remove_black_list lib codecs listens raft h method (given readable b) v
    handle (setting_rate_limiter b) h method readable v =
        do_set_rate_limiter lib codecs listens raft h method (given readable b) v
    handle (changing_static b) h method readable v =
        do_change_static lib codecs listens raft h method (given readable b) v
    handle (changing_lb b) h method readable v =
        do_change_lb lib codecs listens raft h method (given readable b) v
    handle (changing_available b) h method readable v =
        do_change_http_proxy_state lib codecs listens raft h method (given readable b) v

    -- A request with the body of a command gets the reply success only if its method is not GET, the
    -- node may write, the body can be read and the command succeeds, and the Vermouth is then that
    -- of the command. Any other reply leaves the table as it was, and the log too, but for the entry
    -- of a cluster's command for which raft lost its answer.
    pub handle-Outcome :
        (c : Command) (h : HttpServer) (method : Str) (readable : Bool) (v v' : Vermouth lib)
        (reply : HttpReply)
        → handle c h method readable v ≡ ret (reply, v')
        → Outcome raft (execute lib codecs listens raft c) h method readable reply v v'
    unfolding handle execute Outcome do_add_proxy do_add_proxy_prefix do_remove_proxy_prefix
        do_add_host do_remove_host do_add_black_list do_remove_black_list do_set_rate_limiter
        do_change_static do_change_lb do_change_http_proxy_state
    handle-Outcome (adding_proxy b) h method readable v v' reply e =
        respond-Outcome raft internal_server_error (add_http_proxy lib codecs listens raft) h method
          readable b v v' reply (ground arith)
          (λ w x r.
            execute-error lib codecs listens raft (adding_proxy b) v w x (unfold execute in r))
          e
    handle-Outcome (adding_prefix b) h method readable v v' reply e =
        respond-Outcome raft internal_server_error (add_http_proxy_prefix lib codecs listens raft) h
          method readable b v v' reply (ground arith)
          (λ w x r.
            execute-error lib codecs listens raft (adding_prefix b) v w x (unfold execute in r))
          e
    handle-Outcome (removing_prefix b) h method readable v v' reply e =
        respond-Outcome raft internal_server_error
          (remove_http_proxy_prefix lib codecs listens raft) h method readable b v v' reply
          (ground arith)
          (λ w x r.
            execute-error lib codecs listens raft (removing_prefix b) v w x (unfold execute in r))
          e
    handle-Outcome (adding_host b) h method readable v v' reply e =
        respond-Outcome raft internal_server_error (add_http_proxy_host lib codecs listens raft) h
          method readable b v v' reply (ground arith)
          (λ w x r.
            execute-error lib codecs listens raft (adding_host b) v w x (unfold execute in r))
          e
    handle-Outcome (removing_host b) h method readable v v' reply e =
        respond-Outcome raft internal_server_error (remove_http_proxy_host lib codecs listens raft)
          h method readable b v v' reply (ground arith)
          (λ w x r.
            execute-error lib codecs listens raft (removing_host b) v w x (unfold execute in r))
          e
    handle-Outcome (adding_black_list b) h method readable v v' reply e =
        respond-Outcome raft internal_server_error (add_black_list lib codecs listens raft) h method
          readable b v v' reply (ground arith)
          (λ w x r.
            execute-error lib codecs listens raft (adding_black_list b) v w x (unfold execute in r))
          e
    handle-Outcome (removing_black_list b) h method readable v v' reply e =
        respond-Outcome raft internal_server_error (remove_black_list lib codecs listens raft) h
          method readable b v v' reply (ground arith)
          (λ w x r.
            execute-error lib codecs listens raft (removing_black_list b) v w x
              (unfold execute in r))
          e
    handle-Outcome (setting_rate_limiter b) h method readable v v' reply e =
        respond-Outcome raft internal_server_error (set_rate_limiter lib codecs listens raft) h
          method readable b v v' reply (ground arith)
          (λ w x r.
            execute-error lib codecs listens raft (setting_rate_limiter b) v w x
              (unfold execute in r))
          e
    handle-Outcome (changing_static b) h method readable v v' reply e =
        respond-Outcome raft bad_request (change_static lib codecs listens raft) h method readable b
          v v' reply (ground arith)
          (λ w x r.
            execute-error lib codecs listens raft (changing_static b) v w x (unfold execute in r))
          e
    handle-Outcome (changing_lb b) h method readable v v' reply e =
        respond-Outcome raft internal_server_error (change_lb lib codecs listens raft) h method
          readable b v v' reply (ground arith)
          (λ w x r.
            execute-error lib codecs listens raft (changing_lb b) v w x (unfold execute in r))
          e
    handle-Outcome (changing_available b) h method readable v v' reply e =
        respond-Outcome raft internal_server_error (change_proxy_available lib codecs listens raft)
          h method readable b v v' reply (ground arith)
          (λ w x r.
            execute-error lib codecs listens raft (changing_available b) v w x
              (unfold execute in r))
          e
