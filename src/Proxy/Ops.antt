-- ===== src/Proxy/Ops.antt =====
-- vermouth/http_proxy.go: the operations that the rest of the program calls on a proxy, as data, the
-- requests that it serves among them, and a run of them one after the other.
use vermouth.Prelude.{ℕ, Bool, List, [], Str, Go, ret, ℤ, ◌∷◌, ◌>>=◌, nat_eq, str_eq}
use vermouth.Rate.{RateLib}
use vermouth.Net.{Request}
use vermouth.Proxy.Serve.{serve_http}
use vermouth.Proxy.{
  HttpReverseProxy, add_prefix, remove_prefix, add_host, remove_host, change_lb, change_static,
  change_state,
}
use vermouth.Proxy.Networks.{add_black_list, remove_black_list}
use vermouth.Proxy.Limiters.{set_rate_limit}

pub data Op : Type 0 where
  adding_prefix : Str → Str → List Str → Bool → Op
  removing_prefix : Str → Op
  adding_host removing_host : Str → Str → Op
  changing_lb : Str → Str → Op
  changing_static : Str → Op
  changing_state : ℤ → Op
  adding_black_list removing_black_list : List Str → Op
  setting_rate_limit : Str → Str → Str → ℤ → ℤ → Op
  serving : ℕ → Bool → Request → Op

module _ (lib : RateLib) where
  -- A request, whose reply is left out.
  unfoldable pub serve : ℕ → Bool → Request → HttpReverseProxy lib → Go (HttpReverseProxy lib)
  serve now peer_available r proxy = do
    (reply, proxy') ← serve_http lib now peer_available r proxy
    ret proxy'

  unfoldable pub perform : Op → HttpReverseProxy lib → Go (HttpReverseProxy lib)
  perform (adding_prefix prefix algo hosts is_static) = add_prefix lib prefix algo hosts is_static
  perform (removing_prefix prefix) = remove_prefix lib prefix
  perform (adding_host prefix host) = add_host lib prefix host
  perform (removing_host prefix host) = remove_host lib prefix host
  perform (changing_lb prefix lb) = change_lb lib prefix lb
  perform (changing_static prefix) = change_static lib prefix
  perform (changing_state state) = change_state lib state
  perform (adding_black_list ips) = add_black_list lib ips
  perform (removing_black_list ips) = remove_black_list lib ips
  perform (setting_rate_limit prefix api_path type init speed) =
      set_rate_limit lib prefix api_path type init speed
  perform (serving now peer_available r) = serve now peer_available r

  unfoldable pub perform_all : List Op → HttpReverseProxy lib → Go (HttpReverseProxy lib)
  perform_all [] proxy = ret proxy
  perform_all (op ∷ ops) proxy = perform op proxy >>= perform_all ops
