-- ===== src/State/Command.antt =====
-- vermouth/vermouth_state_manager.go: the commands as data.
use vermouth.Prelude.{Bool, Str, ℤ, nat_eq, str_eq}
use vermouth.Rate.{RateLib}
use vermouth.State.Bodies.{
  Codecs, AddHttpProxyBody, ChangeHttpProxyStateBody, AddHttpProxyPrefixBody, HttpProxyHostBody,
  HttpBlackListBody, RemoveHttpProxyPrefixBody, HttpRateLimiterBody, HttpChangeStatic,
  HttpChangeLbBody,
}
use vermouth.State.Manager.{
  RaftAnswer, Vermouth, Answer, add_http_proxy, add_http_proxy_prefix, remove_http_proxy_prefix,
  add_http_proxy_host, remove_http_proxy_host, add_black_list, remove_black_list, set_rate_limiter,
  change_static, change_lb, change_proxy_available,
}

pub data Command : Type 0 where
  adding_proxy : AddHttpProxyBody → Command
  adding_prefix : AddHttpProxyPrefixBody → Command
  removing_prefix : RemoveHttpProxyPrefixBody → Command
  adding_host removing_host : HttpProxyHostBody → Command
  adding_black_list removing_black_list : HttpBlackListBody → Command
  setting_rate_limiter : HttpRateLimiterBody → Command
  changing_static : HttpChangeStatic → Command
  changing_lb : HttpChangeLbBody → Command
  changing_available : ChangeHttpProxyStateBody → Command

module _ (lib : RateLib) (codecs : Codecs) (listens : ℤ → Bool) (raft : Str → RaftAnswer) where
  unfoldable pub execute : Command → Vermouth lib → Answer lib
  execute (adding_proxy b) = add_http_proxy lib codecs listens raft b
  execute (adding_prefix b) = add_http_proxy_prefix lib codecs listens raft b
  execute (removing_prefix b) = remove_http_proxy_prefix lib codecs listens raft b
  execute (adding_host b) = add_http_proxy_host lib codecs listens raft b
  execute (removing_host b) = remove_http_proxy_host lib codecs listens raft b
  execute (adding_black_list b) = add_black_list lib codecs listens raft b
  execute (removing_black_list b) = remove_black_list lib codecs listens raft b
  execute (setting_rate_limiter b) = set_rate_limiter lib codecs listens raft b
  execute (changing_static b) = change_static lib codecs listens raft b
  execute (changing_lb b) = change_lb lib codecs listens raft b
  execute (changing_available b) = change_proxy_available lib codecs listens raft b
