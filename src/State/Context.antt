-- ===== src/State/Context.antt =====
-- vermouth/context.go and log_entry_handler.go: the table of proxies and what an entry of the log
-- does to it. `listens` answers whether a port can be listened at. What a handler starts in a
-- goroutine is done at once here.
use vermouth.Prelude.{
  ℕ, Bool, true, false, Option, none, some, [], Str, Go, ret, ℤ, pos, ◌||◌, ◌==◌, if◌then◌else◌,
  ◌>>=◌, nat_eq, str_eq,
}
use vermouth.Prelude.Int.{int_eq}
use vermouth.Prelude.Map
use vermouth.Prelude.Map.{Map}
use vermouth.Rate.{RateLib}
use vermouth.Proxy
use vermouth.Proxy.Networks
use vermouth.Proxy.Limiters
use vermouth.Proxy.{HttpReverseProxy, deref}
use vermouth.State.Bodies.{
  Codec, Codecs, AddHttpProxyBody, ChangeHttpProxyStateBody, AddHttpProxyPrefixBody,
  HttpProxyHostBody, HttpBlackListBody, RemoveHttpProxyPrefixBody, RemoveHttpProxyBody,
  HttpRateLimiterBody, HttpChangeStatic, HttpChangeLbBody,
}
use vermouth.State.LogEntry.{LogEntry, decode}

-- The options.
abbrev pub add_http_proxy_opt : ℕ
add_http_proxy_opt = 0x0001

abbrev pub add_http_proxy_prefix_opt : ℕ
add_http_proxy_prefix_opt = 0x0002

abbrev pub add_http_proxy_host_opt : ℕ
add_http_proxy_host_opt = 0x0003

abbrev pub add_http_black_list_opt : ℕ
add_http_black_list_opt = 0x0004

abbrev pub rmv_http_proxy_prefix_opt : ℕ
rmv_http_proxy_prefix_opt = 0x0005

abbrev pub rmv_http_proxy_host_opt : ℕ
rmv_http_proxy_host_opt = 0x0006

abbrev pub rmv_http_black_list_opt : ℕ
rmv_http_black_list_opt = 0x0007

abbrev pub rmv_http_proxy_opt : ℕ
rmv_http_proxy_opt = 0x0008

abbrev pub set_rate_limiter_opt : ℕ
set_rate_limiter_opt = 0x0009

abbrev pub chg_static_opt : ℕ
chg_static_opt = 0x0010

abbrev pub chg_lb_opt : ℕ
chg_lb_opt = 0x0011

abbrev pub chg_state_opt : ℕ
chg_state_opt = 0x0012

module _ (lib : RateLib) where
  -- StateContext
  pub record StateContext : Type 0 where
    pub proxies : Map ℤ (HttpReverseProxy lib)

  -- NewStateContext
  abbrev pub new_state_context : StateContext
  new_state_context = record { proxies = [] }

  -- AddHttpReverseProxy: a port that is in use is skipped.
  unfoldable pub add_http_reverse_proxy : HttpReverseProxy lib → StateContext → StateContext
  add_http_reverse_proxy proxy ctx =
      if Map.has ctx.proxies proxy.port
      then ctx
      else record { proxies = Map.put ctx.proxies proxy.port proxy }

  -- A method call on the proxy of a port, which panics where there is none.
  unfoldable pub on_proxy :
      ℤ → (HttpReverseProxy lib → Go (HttpReverseProxy lib)) → StateContext → Go StateContext
  on_proxy port f ctx = do
    hp ← deref (Map.get ctx.proxies port)
    hp' ← f hp
    ret (record { proxies = Map.put ctx.proxies port hp' })

  -- A handler decodes its body and changes the table: `true` is a decoding error.
  unfoldable pub decoded :
      {Body : Type 0}
      → Codec Body
      → (Body → StateContext → Go StateContext)
      → Str
      → StateContext
      → Go (Bool × StateContext)
  decoded codec act payload ctx = elim (codec.decode payload) [
    | none ↦ ret (true, ctx)
    | some body ↦ act body ctx >>= λ ctx'. ret (false, ctx')
  ]

  module _ (listens : ℤ → Bool) where
    -- What the handler of each entry does with its body. A new proxy is listed as it is after Run.
    unfoldable pub do_add_proxy : AddHttpProxyBody → StateContext → Go StateContext
    unfolding add_http_reverse_proxy
    do_add_proxy body ctx = do
      new ←
          Proxy.new_http_reverse_proxy lib
            (record { port = body.port; prefixer_type = body.prefix_type; paths = [] })
      (up, running) ← Proxy.run lib (listens body.port) new
      ret (add_http_reverse_proxy running ctx)

  unfoldable pub do_add_prefix : AddHttpProxyPrefixBody → StateContext → Go StateContext
  unfolding on_proxy
  do_add_prefix body =
      on_proxy body.port
        (Proxy.add_prefix lib body.prefix body.balance_type body.proxy_pass body.static)

  unfoldable pub do_add_host : HttpProxyHostBody → StateContext → Go StateContext
  unfolding on_proxy
  do_add_host body = on_proxy body.port (Proxy.add_host lib body.prefix body.host)

  unfoldable pub do_add_black_list : HttpBlackListBody → StateContext → Go StateContext
  unfolding on_proxy
  do_add_black_list body = on_proxy body.port (Networks.add_black_list lib body.ips)

  unfoldable pub do_remove_prefix : RemoveHttpProxyPrefixBody → StateContext → Go StateContext
  unfolding on_proxy
  do_remove_prefix body = on_proxy body.port (Proxy.remove_prefix lib body.prefix)

  unfoldable pub do_remove_host : HttpProxyHostBody → StateContext → Go StateContext
  unfolding on_proxy
  do_remove_host body = on_proxy body.port (Proxy.remove_host lib body.prefix body.host)

  unfoldable pub do_remove_black_list : HttpBlackListBody → StateContext → Go StateContext
  unfolding on_proxy
  do_remove_black_list body = on_proxy body.port (Networks.remove_black_list lib body.ips)

  -- The goroutine of Run, which receives what Close sends: the port is free again.
  unfoldable pub shut_down : ℤ → StateContext → StateContext
  shut_down port ctx = record { proxies = Map.remove ctx.proxies port }

  unfoldable pub do_remove_proxy : RemoveHttpProxyBody → StateContext → Go StateContext
  unfolding shut_down
  do_remove_proxy body ctx = do
    hp ← deref (Map.get ctx.proxies body.port)
    closed ← Proxy.close lib hp
    ret (shut_down closed.port (record { proxies = Map.remove ctx.proxies body.port }))

  unfoldable pub do_set_rate_limiter : HttpRateLimiterBody → StateContext → Go StateContext
  unfolding on_proxy
  do_set_rate_limiter body =
      on_proxy body.port
        (Limiters.set_rate_limit lib body.prefix body.url body.type body.volumn body.speed)

  unfoldable pub do_change_static : HttpChangeStatic → StateContext → Go StateContext
  unfolding on_proxy
  do_change_static body = on_proxy body.port (Proxy.change_static lib body.prefix)

  unfoldable pub do_change_lb : HttpChangeLbBody → StateContext → Go StateContext
  unfolding on_proxy
  do_change_lb body = on_proxy body.port (Proxy.change_lb lib body.prefix body.lb)

  -- Any state but 1 and 2 closes the proxy, and the goroutine of its Run deletes it.
  unfoldable pub do_change_state : ChangeHttpProxyStateBody → StateContext → Go StateContext
  unfolding shut_down
  do_change_state body ctx = do
    hp ← deref (Map.get ctx.proxies body.port)
    hp' ← Proxy.change_state lib body.state hp
    let changed : StateContext = record { proxies = Map.put ctx.proxies body.port hp' }
    ret (if body.state == pos 1 || body.state == pos 2 then changed else shut_down hp'.port changed)

  module _ (codecs : Codecs) (listens : ℤ → Bool) where
    -- Apply, after the header: an option that is not known does nothing.
    unfoldable pub apply_entry : LogEntry → StateContext → Go (Bool × StateContext)
    unfolding decoded
    apply_entry entry ctx =
        if entry.opt == add_http_proxy_opt
        then decoded codecs.add_http_proxy (do_add_proxy listens) entry.payload ctx
        else if entry.opt == add_http_proxy_prefix_opt
        then decoded codecs.add_prefix do_add_prefix entry.payload ctx
        else if entry.opt == add_http_proxy_host_opt
        then decoded codecs.host do_add_host entry.payload ctx
        else if entry.opt == add_http_black_list_opt
        then decoded codecs.black_list do_add_black_list entry.payload ctx
        else if entry.opt == rmv_http_proxy_prefix_opt
        then decoded codecs.remove_prefix do_remove_prefix entry.payload ctx
        else if entry.opt == rmv_http_proxy_host_opt
        then decoded codecs.host do_remove_host entry.payload ctx
        else if entry.opt == rmv_http_black_list_opt
        then decoded codecs.black_list do_remove_black_list entry.payload ctx
        else if entry.opt == rmv_http_proxy_opt
        then decoded codecs.remove_http_proxy do_remove_proxy entry.payload ctx
        else if entry.opt == set_rate_limiter_opt
        then decoded codecs.rate_limiter do_set_rate_limiter entry.payload ctx
        else if entry.opt == chg_static_opt
        then decoded codecs.change_static do_change_static entry.payload ctx
        else if entry.opt == chg_lb_opt
        then decoded codecs.change_lb do_change_lb entry.payload ctx
        else if entry.opt == chg_state_opt
        then decoded codecs.change_state do_change_state entry.payload ctx
        else ret (false, ctx)

    -- Apply
    unfoldable pub apply : Option Str → StateContext → Go (Bool × StateContext)
    unfolding apply_entry decode
    apply none ctx = ret (false, ctx)
    apply (some bytes) ctx = decode bytes >>= λ entry. apply_entry entry ctx
