-- ===== src/State/Manager.antt =====
-- vermouth/vermouth_state_manager.go and raft_info.go: the commands as the servers give them. In
-- stand mode a command changes the table at once. In cluster mode its body goes into the raft log,
-- and raft applies the entry to the table before it answers. Raft is not code of the repository:
-- `raft` is its answer for an entry, and `log` holds the entries that it took.
use vermouth.Prelude.{
  ℕ, Bool, not, Option, none, some, List, [], Str, codes, Go, ret, ℤ, ◌&&◌, ◌∷◌, ◌++◌, ◌==◌,
  if◌then◌else◌, ◌>>=◌, nat_eq, str_eq,
}
use vermouth.Prelude.Int.{int_eq}
use vermouth.Prelude.Map
use vermouth.Balancer
use vermouth.Prefix
use vermouth.Rate.{RateLib}
use vermouth.Proxy
use vermouth.State.Bodies.{
  Codec, Codecs, AddHttpProxyBody, ChangeHttpProxyStateBody, AddHttpProxyPrefixBody,
  HttpProxyHostBody, HttpBlackListBody, RemoveHttpProxyPrefixBody, HttpRateLimiterBody,
  HttpChangeStatic, HttpChangeLbBody,
}
use vermouth.State.Stand
use vermouth.State.LogEntry.{encode}
use vermouth.State.Context.{
  StateContext, apply, add_http_proxy_opt, add_http_proxy_prefix_opt, add_http_proxy_host_opt,
  add_http_black_list_opt, rmv_http_proxy_prefix_opt, rmv_http_proxy_host_opt,
  rmv_http_black_list_opt, set_rate_limiter_opt, chg_static_opt, chg_lb_opt, chg_state_opt,
}

-- The end of the future of Raft.Apply: without an error, behind Apply of the state machine; with an
-- error and the entry not in the log; or with an error and the entry in the log, as where the
-- leadership is lost. Such an entry may be applied later, by a step of its own, or never.
pub data RaftAnswer : Type 0 where
  applied refused lost : RaftAnswer

pub data ManagerError : Type 0 where
  proxy_not_exists proxy_already_exists : ManagerError
  prefix_already_exists prefix_not_exists : ManagerError
  host_already_exists host_not_exists : ManagerError
  no_balancer : ManagerError
  encode_failed raft_failed : ManagerError

abbrev pub stand : Str
stand = codes "stand"

abbrev pub cluster : Str
cluster = codes "cluster"

-- What the commands read of a Vermouth.
module _ (lib : RateLib) where
  pub record Vermouth : Type 0 where
    pub mode : Str
    pub ctx : StateContext lib
    pub log : List Str

  -- The error of a command, `none` if there is none, and the Vermouth after it.
  abbrev pub Answer : Type 0
  Answer = Go (Option ManagerError × Vermouth)

  abbrev pub fail : ManagerError → Vermouth → Answer
  fail e v = ret (some e, v)

  module _ (codecs : Codecs) (listens : ℤ → Bool) (raft : Str → RaftAnswer) where
    -- writeLogEntry, behind the encoding of the entry
    unfoldable pub write_log_entry : Str → RaftAnswer → Vermouth → Answer
    unfolding apply
    write_log_entry entry refused v = fail raft_failed v
    write_log_entry entry lost v = fail raft_failed (record v { log = v.log ++ entry ∷ [] })
    write_log_entry entry applied v = do
      (response, ctx) ← apply lib codecs listens (some entry) v.ctx
      ret (none, record v { log = v.log ++ entry ∷ []; ctx = ctx })

    -- AppendLogEntry
    unfoldable pub append_log_entry : {Body : Type 0} → ℕ → Codec Body → Body → Vermouth → Answer
    unfolding encode write_log_entry
    append_log_entry opt codec body v = elim (codec.encode body) [
      | none ↦ fail encode_failed v
      | some payload ↦
          let entry = encode (record { opt = opt; payload = payload }) in
          write_log_entry entry (raft entry) v
    ]

    -- The switch on the mode; `act` is what the command does in stand mode. Any other mode does
    -- nothing.
    unfoldable pub by_mode :
        {Body : Type 0}
        → ℕ
        → Codec Body
        → (Body → StateContext lib → Go (StateContext lib))
        → Body
        → Vermouth
        → Answer
    unfolding append_log_entry
    by_mode opt codec act body v =
        if v.mode == stand
        then (act body v.ctx >>= λ ctx. ret (none, record v { ctx = ctx }))
        else if v.mode == cluster
        then append_log_entry opt codec body v
        else ret (none, v)

    -- addHttpProxyPrefix
    unfoldable pub add_http_proxy_prefix : AddHttpProxyPrefixBody → Vermouth → Answer
    unfolding by_mode
    add_http_proxy_prefix body v = elim (Map.get v.ctx.proxies body.port) [
      | none ↦ fail proxy_not_exists v
      | some proxy ↦
          if Proxy.prefix_exists lib proxy body.prefix
          then fail prefix_already_exists v
          else by_mode add_http_proxy_prefix_opt codecs.add_prefix (Stand.add_prefix lib) body v
    ]

    -- removeHttpProxyPrefix
    unfoldable pub remove_http_proxy_prefix : RemoveHttpProxyPrefixBody → Vermouth → Answer
    unfolding by_mode
    remove_http_proxy_prefix body v = elim (Map.get v.ctx.proxies body.port) [
      | none ↦ fail proxy_not_exists v
      | some proxy ↦
          if not (Proxy.prefix_exists lib proxy body.prefix)
          then fail prefix_not_exists v
          else by_mode rmv_http_proxy_prefix_opt codecs.remove_prefix (Stand.remove_prefix lib) body
              v
    ]

    -- removeHttpProxyHost
    unfoldable pub remove_http_proxy_host : HttpProxyHostBody → Vermouth → Answer
    unfolding by_mode
    remove_http_proxy_host body v = elim (Map.get v.ctx.proxies body.port) [
      | none ↦ fail proxy_not_exists v
      | some proxy ↦
          if Proxy.host_exists lib proxy body.prefix body.host
          then fail host_not_exists v
          else by_mode rmv_http_proxy_host_opt codecs.host (Stand.remove_host lib) body v
    ]

    -- addHttpProxyHost
    unfoldable pub add_http_proxy_host : HttpProxyHostBody → Vermouth → Answer
    unfolding by_mode
    add_http_proxy_host body v = elim (Map.get v.ctx.proxies body.port) [
      | none ↦ fail proxy_not_exists v
      | some proxy ↦
          if Proxy.host_exists lib proxy body.prefix body.host
          then fail host_already_exists v
          else by_mode add_http_proxy_host_opt codecs.host (Stand.add_host lib) body v
    ]

    -- In stand mode alone, a missing proxy is an error.
    abbrev if_listed : ℤ → (Vermouth → Answer) → Vermouth → Answer
    if_listed port act v =
        if v.mode == stand && not (Map.has v.ctx.proxies port)
        then fail proxy_not_exists v
        else act v

    -- addBlackList and removeBlackList
    unfoldable pub add_black_list : HttpBlackListBody → Vermouth → Answer
    unfolding by_mode
    add_black_list body =
        if_listed body.port
          (by_mode add_http_black_list_opt codecs.black_list (Stand.add_black_list lib) body)

    unfoldable pub remove_black_list : HttpBlackListBody → Vermouth → Answer
    unfolding by_mode
    remove_black_list body =
        if_listed body.port
          (by_mode rmv_http_black_list_opt codecs.black_list (Stand.remove_black_list lib) body)

    -- In both modes, a missing proxy is an error.
    abbrev where_listed : ℤ → (Vermouth → Answer) → Vermouth → Answer
    where_listed port act v = if Map.has v.ctx.proxies port then act v else fail proxy_not_exists v

    -- setRateLimiter
    unfoldable pub set_rate_limiter : HttpRateLimiterBody → Vermouth → Answer
    unfolding by_mode
    set_rate_limiter body =
        where_listed body.port
          (by_mode set_rate_limiter_opt codecs.rate_limiter (Stand.set_rate_limiter lib) body)

    -- addHttpProxy
    unfoldable pub add_http_proxy : AddHttpProxyBody → Vermouth → Answer
    unfolding by_mode
    add_http_proxy body v =
        if Map.has v.ctx.proxies body.port
        then fail proxy_already_exists v
        else by_mode add_http_proxy_opt codecs.add_http_proxy (Stand.add_proxy lib listens) body v

    -- changeStatic
    unfoldable pub change_static : HttpChangeStatic → Vermouth → Answer
    unfolding by_mode
    change_static body =
        where_listed body.port
          (by_mode chg_static_opt codecs.change_static (Stand.change_static lib) body)

    -- changeLb: the balancer that is there already is no error, and nothing is done.
    unfoldable pub change_lb : HttpChangeLbBody → Vermouth → Answer
    unfolding by_mode
    change_lb body v = elim (Map.get v.ctx.proxies body.port) [
      | none ↦ fail proxy_not_exists v
      | some proxy ↦ elim (Prefix.get_balancer proxy.prefix_mapping body.prefix) [
        | none ↦ fail no_balancer v
        | some lb ↦
            if Balancer.mode lb == body.lb
            then ret (none, v)
            else by_mode chg_lb_opt codecs.change_lb (Stand.change_lb lib) body v
      ]
    ]

    -- changeProxyAvailable
    unfoldable pub change_proxy_available : ChangeHttpProxyStateBody → Vermouth → Answer
    unfolding by_mode
    change_proxy_available body =
        where_listed body.port
          (by_mode chg_state_opt codecs.change_state (Stand.change_available lib) body)
