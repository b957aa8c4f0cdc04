-- ===== src/State/Missing.antt =====
-- vermouth/vermouth_state_manager.go: what service discovery reports for a port that is not listed.
use vermouth.Prelude.{refl, Bool, true, false, none, Str, str_beq, ret, ℤ, ◌≡◌, nat_eq, str_eq}
use vermouth.Prelude.Int.{int_eq}
use vermouth.Prelude.Map
use vermouth.Proxy
use vermouth.Proxy.{HttpReverseProxy}
use vermouth.Rate.{RateLib}
use vermouth.State.Bodies.{Codecs}
use vermouth.State.Context.{StateContext, new_state_context}
use vermouth.State.Events.{
  Event, remove_service, add_service, remove_host, add_host, remove_hosts, handle_event,
  check_and_create,
}
use vermouth.State.Manager.{
  RaftAnswer, Vermouth, add_http_proxy_host, remove_http_proxy_host, add_http_proxy_prefix,
  remove_http_proxy_prefix,
}

-- The events that name one service or one host; the other one lists the hosts that are left.
abbrev pub is_single : Event → Bool
is_single (remove_hosts service children) = false
is_single _ = true

module _ (lib : RateLib) where
  create-ret :
      (port : ℤ)
      → (ctx : StateContext lib) × (check_and_create lib port (new_state_context lib) ≡ ret ctx)
  unfolding check_and_create Map.has Proxy.new_http_reverse_proxy vermouth.Prefix.build str_beq
  create-ret port = (_, refl)

  module _ (codecs : Codecs) (listens : ℤ → Bool) (raft : Str → RaftAnswer) where
    -- An event for a port that is not listed changes nothing, in either mode: the proxy that
    -- checkAndCreate makes is lost.
    pub handle_event-missing :
        (port : ℤ) (e : Event) (v : Vermouth lib)
        → is_single e ≡ true
        → Map.get v.ctx.proxies port ≡ none
        → handle_event lib codecs listens raft port e v ≡ ret v
    unfolding handle_event add_http_proxy_host remove_http_proxy_host add_http_proxy_prefix
        remove_http_proxy_prefix
    handle_event-missing port (remove_hosts service children) v one h = cc
    handle_event-missing port (remove_service service) v one h =
        rw (handle_event, remove_http_proxy_prefix, h) refl
    handle_event-missing port (remove_host service host) v one h =
        rw (handle_event, remove_http_proxy_host, h) refl
    handle_event-missing port (add_service service) v one h =
        let (ctx, made) = create-ret port in rw (handle_event, made, add_http_proxy_prefix, h) refl
    handle_event-missing port (add_host service host) v one h =
        let (ctx, made) = create-ret port in rw (handle_event, made, add_http_proxy_host, h) refl
