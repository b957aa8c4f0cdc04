-- ===== src/State/Stand.antt =====
-- vermouth/vermouth_state_manager.go: what each command calls in stand mode, on the proxy of its port.
use vermouth.Proxy.{deref}
use vermouth.State.Context.{shut_down, add_http_reverse_proxy, on_proxy, StateContext}
use vermouth.State.Bodies.{
  HttpRateLimiterBody, AddHttpProxyBody, HttpChangeStatic, HttpChangeLbBody,
  ChangeHttpProxyStateBody, RemoveHttpProxyPrefixBody, AddHttpProxyPrefixBody, HttpBlackListBody,
  HttpProxyHostBody,
}
use vermouth.Rate.{RateLib}
use vermouth.Prelude.{Bool, [], Go, ret, ℤ, pos, ◌||◌, ◌==◌, if◌then◌else◌, ◌>>=◌, nat_eq, str_eq}
use vermouth.Prelude.Int.{int_eq}
use vermouth.Proxy
use vermouth.Proxy.Networks
use vermouth.Proxy.Limiters
use vermouth.Prelude.Map

module _ (lib : RateLib) where
  -- The case of addHttpProxy. Run does not read the table, so the proxy is listed as it is after Run.
  unfoldable pub add_proxy :
      (ℤ → Bool) → AddHttpProxyBody → StateContext lib → Go (StateContext lib)
  add_proxy listens body ctx = do
    proxy ←
        Proxy.new_http_reverse_proxy lib
          (record { port = body.port; prefixer_type = body.prefix_type; paths = [] })
    (up, running) ← Proxy.run lib (listens body.port) proxy
    ret (add_http_reverse_proxy lib running ctx)

  unfoldable pub add_prefix : AddHttpProxyPrefixBody → StateContext lib → Go (StateContext lib)
  add_prefix body =
      on_proxy lib body.port
        (Proxy.add_prefix lib body.prefix body.balance_type body.proxy_pass body.static)

  unfoldable pub remove_prefix :
      RemoveHttpProxyPrefixBody → StateContext lib → Go (StateContext lib)
  remove_prefix body = on_proxy lib body.port (Proxy.remove_prefix lib body.prefix)

  unfoldable pub add_host : HttpProxyHostBody → StateContext lib → Go (StateContext lib)
  add_host body = on_proxy lib body.port (Proxy.add_host lib body.prefix body.host)

  unfoldable pub remove_host : HttpProxyHostBody → StateContext lib → Go (StateContext lib)
  remove_host body = on_proxy lib body.port (Proxy.remove_host lib body.prefix body.host)

  unfoldable pub add_black_list : HttpBlackListBody → StateContext lib → Go (StateContext lib)
  add_black_list body = on_proxy lib body.port (Networks.add_black_list lib body.ips)

  unfoldable pub remove_black_list : HttpBlackListBody → StateContext lib → Go (StateContext lib)
  remove_black_list body = on_proxy lib body.port (Networks.remove_black_list lib body.ips)

  unfoldable pub set_rate_limiter : HttpRateLimiterBody → StateContext lib → Go (StateContext lib)
  set_rate_limiter body =
      on_proxy lib body.port
        (Limiters.set_rate_limit lib body.prefix body.url body.type body.volumn body.speed)

  unfoldable pub change_static : HttpChangeStatic → StateContext lib → Go (StateContext lib)
  change_static body = on_proxy lib body.port (Proxy.change_static lib body.prefix)

  unfoldable pub change_lb : HttpChangeLbBody → StateContext lib → Go (StateContext lib)
  change_lb body = on_proxy lib body.port (Proxy.change_lb lib body.prefix body.lb)

  -- The case of changeProxyAvailable. A proxy that was closed is deleted by the goroutine of its Run.
  unfoldable pub change_available :
      ChangeHttpProxyStateBody → StateContext lib → Go (StateContext lib)
  change_available body ctx = do
    proxy ← deref (Map.get ctx.proxies body.port)
    proxy' ← Proxy.change_state lib body.state proxy
    let changed : StateContext lib = record { proxies = Map.put ctx.proxies body.port proxy' }
    ret (
        if body.state == pos 1 || body.state == pos 2
        then changed
        else shut_down lib proxy'.port changed)
