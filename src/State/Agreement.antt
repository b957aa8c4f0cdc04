-- ===== src/State/Agreement.antt =====
-- vermouth/vermouth_state_manager.go and context.go: one command in stand mode and in cluster mode,
-- with the entry that it leaves in the log.
use vermouth.Prelude.{
  ℕ, refl, sym, ap, inl, inr, Bool, false, none, some, [], arith, Bool-cases, Option-cases, Str,
  str_beq, Go, ret, >>=-eq-ret, ret-injective, ℤ, ◌^◌, ◌<◌, ◌≡◌, ◌∙◌, ◌⊎◌, ◌∷◌, ◌++◌, ◌==◌, nat_eq,
  str_eq,
}
use vermouth.Prelude.Int.{int_eq}
use vermouth.Prelude.Map
use vermouth.Prefix
use vermouth.Balancer
use vermouth.State.Guards.{
  add_http_proxy-by_mode, add_http_proxy_prefix-by_mode, remove_http_proxy_prefix-by_mode,
  add_http_proxy_host-by_mode, remove_http_proxy_host-by_mode, add_black_list-by_mode,
  remove_black_list-by_mode, set_rate_limiter-by_mode, change_static-by_mode,
  change_proxy_available-by_mode,
}
use vermouth.State.Manager.{RaftAnswer, applied, refused, lost, write_log_entry}
use vermouth.State.Command.{
  Command, execute, adding_proxy, adding_prefix, removing_prefix, adding_host, removing_host,
  adding_black_list, removing_black_list, setting_rate_limiter, changing_static, changing_lb,
  changing_available,
}
use vermouth.Rate.{RateLib}
use vermouth.State.Bodies.{Codec, Codecs, HttpChangeLbBody}
use vermouth.State.Stand
use vermouth.State.LogEntry.{encode, decode-encode}
use vermouth.State.Context.{
  StateContext, apply, apply_entry, decoded, do_add_proxy, do_add_prefix, do_add_host,
  do_add_black_list, do_remove_prefix, do_remove_host, do_remove_black_list, do_set_rate_limiter,
  do_change_static, do_change_lb, do_change_state, add_http_proxy_opt, add_http_proxy_prefix_opt,
  rmv_http_proxy_prefix_opt, add_http_proxy_host_opt, rmv_http_proxy_host_opt,
  add_http_black_list_opt, rmv_http_black_list_opt, set_rate_limiter_opt, chg_static_opt,
  chg_state_opt, chg_lb_opt,
}
use vermouth.State.Manager.{
  RaftAnswer, RaftAnswer, RaftAnswer, RaftAnswer, RaftAnswer, RaftAnswer, RaftAnswer, RaftAnswer,
  RaftAnswer, RaftAnswer, write_log_entry, RaftAnswer, RaftAnswer, Vermouth, by_mode,
  append_log_entry, stand, cluster, change_lb,
}

cluster-ne-stand : str_beq cluster stand ≡ false
unfolding str_beq
cluster-ne-stand = refl

module _ (lib : RateLib) (codecs : Codecs) (listens : ℤ → Bool) (raft : Str → RaftAnswer) where
  abbrev pub in_stand : Vermouth lib → Vermouth lib
  in_stand v = record v { mode = stand }

  abbrev pub in_cluster : Vermouth lib → Vermouth lib
  in_cluster v = record v { mode = cluster }

  -- The cluster appended one entry; applying this entry gives the table that the command leaves in
  -- stand mode, and that is the table of the cluster's node too.
  pub record Agrees (v v' w' : Vermouth lib) : Type 0 where
    pub entry : Str
    pub logged : w'.log ≡ v.log ++ entry ∷ []
    pub taken : raft entry ≡ applied
    pub run : apply lib codecs listens (some entry) v.ctx ≡ ret (false, v'.ctx)
    pub same : w'.ctx ≡ v'.ctx

  module _ {Body : Type 0} (opt : ℕ) (codec : Codec Body)
      (act handler : Body → StateContext lib → Go (StateContext lib)) (small : opt < 2 ^ 16)
      (alike : (body : Body) (ctx : StateContext lib) → act body ctx ≡ handler body ctx)
      (handles : (payload : Str) (ctx : StateContext lib)
        → apply_entry lib codecs listens (record { opt = opt; payload = payload }) ctx
          ≡ decoded lib codec handler payload ctx) where
    stand-run :
        (body : Body) (v v' : Vermouth lib)
        → by_mode lib codecs listens raft opt codec act body (in_stand v) ≡ ret (none, v')
        → act body v.ctx ≡ ret v'.ctx
    unfolding by_mode str_beq
    stand-run body v v' e =
        let (ctx, h, k) =
          >>=-eq-ret (act body v.ctx) (λ c. ret (none, record (in_stand v) { ctx = c })) e in
        cc

    write-run :
        (entry : Str) (answer : RaftAnswer) (v w' : Vermouth lib)
        → write_log_entry lib codecs listens raft entry answer v ≡ ret (none, w')
        → (answer ≡ applied)
          × (w'.log ≡ v.log ++ entry ∷ [])
          × ((response : Bool) × (apply lib codecs listens (some entry) v.ctx
                ≡ ret (response, w'.ctx)))
    unfolding write_log_entry
    write-run entry refused v w' e = cc
    write-run entry lost v w' e = cc
    write-run entry applied v w' e =
        let ((response, ctx), ran, k) =
          >>=-eq-ret (apply lib codecs listens (some entry) v.ctx)
            (λ x. ret (none, record v { log = v.log ++ entry ∷ []; ctx = x.1 })) e in
        let is : record v { log = v.log ++ entry ∷ []; ctx = ctx } ≡ w' = cc in
        (
          refl,
          ap (λ x. x.log) (sym is),
          (response, ran ∙ ap (λ (x : Vermouth lib). ret (response, x.ctx)) is),
        )

    append-run :
        (body : Body) (v w' : Vermouth lib)
        → append_log_entry lib codecs listens raft opt codec body v ≡ ret (none, w')
        → (payload : Str) × (codec.encode body ≡ some payload)
          × (raft (encode (record { opt = opt; payload = payload })) ≡ applied)
          × (w'.log ≡ v.log ++ encode (record { opt = opt; payload = payload }) ∷ [])
          × ((response : Bool) × (apply lib codecs listens
                  (some (encode (record { opt = opt; payload = payload })))
                  v.ctx
                ≡ ret (response, w'.ctx)))
    unfolding append_log_entry
    append-run body v w' e = elim (Option-cases (codec.encode body)) [
      | inl h ↦ (let e' = (rw (h, append_log_entry) at e) in cc)
      | inr (payload, h) ↦
          (let entry = encode (record { opt = opt; payload = payload }) in
            let (taken, logged, ran) =
              write-run entry (raft entry) v w' (rw (h, append_log_entry) at e) in
            (payload, h, taken, logged, ran))
    ]

    decoded-run :
        (body : Body) (payload : Str) (c c' : StateContext lib)
        → codec.decode payload ≡ some body
        → handler body c ≡ ret c'
        → decoded lib codec handler payload c ≡ ret (false, c')
    unfolding decoded
    decoded-run body payload c c' h k = rw (h, decoded, k) refl

    apply-run :
        (payload : Str) (ctx : StateContext lib)
        → apply lib codecs listens (some (encode (record { opt = opt; payload = payload }))) ctx
          ≡ decoded lib codec handler payload ctx
    unfolding apply
    apply-run payload ctx =
        rw (decode-encode (record { opt = opt; payload = payload }) small) (handles payload ctx)

    pub by_mode-Agrees :
        (body : Body) (v v' w' : Vermouth lib)
        → by_mode lib codecs listens raft opt codec act body (in_stand v) ≡ ret (none, v')
        → by_mode lib codecs listens raft opt codec act body (in_cluster v) ≡ ret (none, w')
        → Agrees v v' w'
    unfolding by_mode str_beq
    by_mode-Agrees body v v' w' e f =
        let (payload, coded, taken, logged, (response, ran)) =
          append-run body (in_cluster v) w' f in
        let run =
          apply-run payload v.ctx
          ∙ decoded-run body payload v.ctx v'.ctx (codec.decode-encode body payload coded)
              (sym (alike body v.ctx) ∙ stand-run body v v' e) in
        record {
          entry = encode (record { opt = opt; payload = payload });
          taken = taken;
          logged = logged;
          run = run;
          same = ap (λ (x : Bool × StateContext lib). x.1) (ret-injective (sym ran ∙ run));
        }

  -- One command in both modes: either the cluster's entry stands for the change, or the command had
  -- nothing to do and neither mode changed anything.
  pub Agree : Vermouth lib → Vermouth lib → Vermouth lib → Type 0
  Agree v v' w' = Agrees v v' w' ⊎ ((w'.log ≡ v.log) × (w'.ctx ≡ v.ctx) × (v'.ctx ≡ v.ctx))

  pub change_lb-Agree :
      (body : HttpChangeLbBody) (v v' w' : Vermouth lib)
      → change_lb lib codecs listens raft body (in_stand v) ≡ ret (none, v')
      → change_lb lib codecs listens raft body (in_cluster v) ≡ ret (none, w')
      → Agree v v' w'
  unfolding change_lb Agree apply_entry do_change_lb Stand.change_lb
  change_lb-Agree body v v' w' e f = elim (Option-cases (Map.get v.ctx.proxies body.port)) [
    | inl h ↦ (let e' = (rw (h, change_lb) at e) in cc)
    | inr (proxy, h) ↦ elim (Option-cases (Prefix.get_balancer proxy.prefix_mapping body.prefix)) [
      | inl k ↦ (let e' = (rw (h, k, change_lb) at e) in cc)
      | inr (lb, k) ↦ elim (Bool-cases (Balancer.mode lb == body.lb)) [
        | inl q ↦
            (let e' = (rw (h, k, q, change_lb) at e) in
              let f' = (rw (h, k, q, change_lb) at f) in
              let r : in_stand v ≡ v' = cc in
              let t : in_cluster v ≡ w' = cc in
              inr (ap (λ x. x.log) (sym t), ap (λ x. x.ctx) (sym t), ap (λ x. x.ctx) (sym r)))
        | inr q ↦ inl (
            by_mode-Agrees chg_lb_opt codecs.change_lb (Stand.change_lb lib) (do_change_lb lib)
              (ground arith) (λ body ctx. refl) (λ payload ctx. refl) body v v' w'
              (rw (h, k, q, change_lb) at e) (rw (h, k, q, change_lb) at f))
      ]
    ]
  ]

  -- A command that succeeds in both modes, from the same table: in cluster mode one entry is appended
  -- to the log, and applying this entry, which raft does on every node, gives the table that the
  -- proxy's own methods give in stand mode. The only other case is a command that does nothing in
  -- either mode.
  pub execute-Agree :
      (c : Command) (v v' w' : Vermouth lib)
      → execute lib codecs listens raft c (in_stand v) ≡ ret (none, v')
      → execute lib codecs listens raft c (in_cluster v) ≡ ret (none, w')
      → Agree v v' w'
  unfolding execute Agree apply_entry do_add_proxy do_add_prefix do_remove_prefix do_add_host
      do_remove_host do_add_black_list do_remove_black_list do_set_rate_limiter do_change_static
      do_change_state Stand.add_proxy Stand.add_prefix Stand.remove_prefix Stand.add_host
      Stand.remove_host Stand.add_black_list Stand.remove_black_list Stand.set_rate_limiter
      Stand.change_static Stand.change_available
  execute-Agree (adding_proxy b) v v' w' e f = inl (
      by_mode-Agrees add_http_proxy_opt codecs.add_http_proxy (Stand.add_proxy lib listens)
        (do_add_proxy lib listens) (ground arith) (λ body ctx. refl) (λ payload ctx. refl) b v v' w'
        (add_http_proxy-by_mode lib codecs listens raft b (in_stand v) v' e)
        (add_http_proxy-by_mode lib codecs listens raft b (in_cluster v) w' f))
  execute-Agree (adding_prefix b) v v' w' e f = inl (
      by_mode-Agrees add_http_proxy_prefix_opt codecs.add_prefix (Stand.add_prefix lib)
        (do_add_prefix lib) (ground arith) (λ body ctx. refl) (λ payload ctx. refl) b v v' w'
        (add_http_proxy_prefix-by_mode lib codecs listens raft b (in_stand v) v' e)
        (add_http_proxy_prefix-by_mode lib codecs listens raft b (in_cluster v) w' f))
  execute-Agree (removing_prefix b) v v' w' e f = inl (
      by_mode-Agrees rmv_http_proxy_prefix_opt codecs.remove_prefix (Stand.remove_prefix lib)
        (do_remove_prefix lib) (ground arith) (λ body ctx. refl) (λ payload ctx. refl) b v v' w'
        (remove_http_proxy_prefix-by_mode lib codecs listens raft b (in_stand v) v' e)
        (remove_http_proxy_prefix-by_mode lib codecs listens raft b (in_cluster v) w' f))
  execute-Agree (adding_host b) v v' w' e f = inl (
      by_mode-Agrees add_http_proxy_host_opt codecs.host (Stand.add_host lib) (do_add_host lib)
        (ground arith) (λ body ctx. refl) (λ payload ctx. refl) b v v' w'
        (add_http_proxy_host-by_mode lib codecs listens raft b (in_stand v) v' e)
        (add_http_proxy_host-by_mode lib codecs listens raft b (in_cluster v) w' f))
  execute-Agree (removing_host b) v v' w' e f = inl (
      by_mode-Agrees rmv_http_proxy_host_opt codecs.host (Stand.remove_host lib)
        (do_remove_host lib) (ground arith) (λ body ctx. refl) (λ payload ctx. refl) b v v' w'
        (remove_http_proxy_host-by_mode lib codecs listens raft b (in_stand v) v' e)
        (remove_http_proxy_host-by_mode lib codecs listens raft b (in_cluster v) w' f))
  execute-Agree (adding_black_list b) v v' w' e f = inl (
      by_mode-Agrees add_http_black_list_opt codecs.black_list (Stand.add_black_list lib)
        (do_add_black_list lib) (ground arith) (λ body ctx. refl) (λ payload ctx. refl) b v v' w'
        (add_black_list-by_mode lib codecs listens raft b (in_stand v) v' e)
        (add_black_list-by_mode lib codecs listens raft b (in_cluster v) w' f))
  execute-Agree (removing_black_list b) v v' w' e f = inl (
      by_mode-Agrees rmv_http_black_list_opt codecs.black_list (Stand.remove_black_list lib)
        (do_remove_black_list lib) (ground arith) (λ body ctx. refl) (λ payload ctx. refl) b v v' w'
        (remove_black_list-by_mode lib codecs listens raft b (in_stand v) v' e)
        (remove_black_list-by_mode lib codecs listens raft b (in_cluster v) w' f))
  execute-Agree (setting_rate_limiter b) v v' w' e f = inl (
      by_mode-Agrees set_rate_limiter_opt codecs.rate_limiter (Stand.set_rate_limiter lib)
        (do_set_rate_limiter lib) (ground arith) (λ body ctx. refl) (λ payload ctx. refl) b v v' w'
        (set_rate_limiter-by_mode lib codecs listens raft b (in_stand v) v' e)
        (set_rate_limiter-by_mode lib codecs listens raft b (in_cluster v) w' f))
  execute-Agree (changing_static b) v v' w' e f = inl (
      by_mode-Agrees chg_static_opt codecs.change_static (Stand.change_static lib)
        (do_change_static lib) (ground arith) (λ body ctx. refl) (λ payload ctx. refl) b v v' w'
        (change_static-by_mode lib codecs listens raft b (in_stand v) v' e)
        (change_static-by_mode lib codecs listens raft b (in_cluster v) w' f))
  execute-Agree (changing_available b) v v' w' e f = inl (
      by_mode-Agrees chg_state_opt codecs.change_state (Stand.change_available lib)
        (do_change_state lib) (ground arith) (λ body ctx. refl) (λ payload ctx. refl) b v v' w'
        (change_proxy_available-by_mode lib codecs listens raft b (in_stand v) v' e)
        (change_proxy_available-by_mode lib codecs listens raft b (in_cluster v) w' f))
  execute-Agree (changing_lb b) v v' w' e f = change_lb-Agree b v v' w' e f
