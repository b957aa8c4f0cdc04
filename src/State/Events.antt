-- ===== src/State/Events.antt =====
-- discovery/discovery.go and the event loop of vermouth_state_manager.go: what service discovery
-- reports, and the commands that it leads to. The errors of the commands are not looked at.
use vermouth.Prelude.{
  Bool, false, none, List, [], Str, codes, contains, Go, ret, ℤ, ◌∷◌, if◌then◌else◌, ◌>>=◌, nat_eq,
  str_eq,
}
use vermouth.Prelude.Int.{int_eq}
use vermouth.Prelude.Map
use vermouth.Rate.{RateLib}
use vermouth.Proxy
use vermouth.Proxy.{deref}
use vermouth.State.Bodies.{Codecs}
use vermouth.State.Context.{StateContext, new_state_context, add_http_reverse_proxy}
use vermouth.State.Manager.{
  RaftAnswer, Vermouth, add_http_proxy_host, remove_http_proxy_host, add_http_proxy_prefix,
  remove_http_proxy_prefix,
}

pub data Event : Type 0 where
  remove_service add_service : Str → Event
  remove_host add_host : Str → Str → Event
  remove_hosts : Str → List Str → Event

module _ (lib : RateLib) where
  -- checkAndCreate: a proxy for the port, if there is none.
  unfoldable pub check_and_create : ℤ → StateContext lib → Go (StateContext lib)
  unfolding add_http_reverse_proxy
  check_and_create port ctx = if Map.has ctx.proxies port then ret ctx else do
    new ←
        Proxy.new_http_reverse_proxy lib
          (record { port = port; prefixer_type = codes "hash-prefixer"; paths = [] })
    ret (add_http_reverse_proxy lib new ctx)

  module _ (codecs : Codecs) (listens : ℤ → Bool) (raft : Str → RaftAnswer) where
    -- The loop over the hosts of a service that are no children any more.
    unfoldable pub remove_stale : ℤ → Str → List Str → List Str → Vermouth lib → Go (Vermouth lib)
    unfolding contains
    remove_stale port prefix children [] v = ret v
    remove_stale port prefix children (host ∷ hosts) v = do
      (e, w) ←
          if contains children host
          then ret (none, v)
          else remove_http_proxy_host lib codecs listens raft
              (record { port = port; prefix = prefix; host = host }) v
      remove_stale port prefix children hosts w

    -- One round of HandleNamespaceEvent. checkAndCreate is called on a context that is made for
    -- the call, and which nothing reads afterwards.
    unfoldable pub handle_event : ℤ → Event → Vermouth lib → Go (Vermouth lib)
    unfolding check_and_create remove_stale
    handle_event port (add_host service host) v = do
      unused ← check_and_create port (new_state_context lib)
      (e, w) ←
          add_http_proxy_host lib codecs listens raft
            (record { port = port; prefix = b'/' ∷ service; host = host }) v
      ret w
    handle_event port (remove_host service host) v = do
      (e, w) ←
          remove_http_proxy_host lib codecs listens raft
            (record { port = port; prefix = b'/' ∷ service; host = host }) v
      ret w
    handle_event port (add_service service) v = do
      unused ← check_and_create port (new_state_context lib)
      (e, w) ←
          add_http_proxy_prefix lib codecs listens raft
            (record {
              port = port;
              static = false;
              prefix = b'/' ∷ service;
              balance_type = codes "round-robin";
              proxy_pass = [];
            })
            v
      ret w
    handle_event port (remove_service service) v = do
      (e, w) ←
          remove_http_proxy_prefix lib codecs listens raft
            (record { port = port; prefix = b'/' ∷ service }) v
      ret w
    handle_event port (remove_hosts service children) v = do
      proxy ← deref (Map.get v.ctx.proxies port)
      hosts ← Proxy.get_hosts lib proxy (b'/' ∷ service)
      remove_stale port (b'/' ∷ service) children hosts v

    -- HandleNamespaceEvent, over the events of a closed channel
    unfoldable pub handle_events : ℤ → List Event → Vermouth lib → Go (Vermouth lib)
    unfolding handle_event
    handle_events port [] v = ret v
    handle_events port (e ∷ es) v = handle_event port e v >>= handle_events port es
