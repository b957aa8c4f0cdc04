-- ===== src/State/Hosts.antt =====
-- vermouth/vermouth_state_manager.go: what the commands do to a host that is listed already.
use vermouth.Prelude.{
  refl, inl, inr, Bool, true, some, List, [], arith, Bool-cases, Str, beq_refl, All, All-map,
  contains, ret, block, r_lock, ℤ, ◌≡◌, ◌∷◌, if◌then◌else◌, nat_eq, str_eq,
}
use vermouth.Prelude.Int.{int_eq}
use vermouth.Prelude.Map
use vermouth.Proxy
use vermouth.Proxy.{list_or_nil, HttpReverseProxy}
use vermouth.Rate.{RateLib}
use vermouth.State.Bodies.{Codecs}
use vermouth.State.Events.{remove_hosts, handle_event, remove_stale}
use vermouth.State.Manager.{RaftAnswer, Vermouth, host_not_exists, remove_http_proxy_host}

contains_self : (xs : List Str) → All (λ x. contains xs x ≡ true) xs
unfolding contains
contains_self [] = tt
contains_self (x ∷ xs) = (rw (beq_refl x) refl, All-map (λ y h. ground arith) xs (contains_self xs))

module _ (lib : RateLib) (codecs : Codecs) (listens : ℤ → Bool) (raft : Str → RaftAnswer) where
  pub remove-listed :
      (port : ℤ) (prefix host : Str) (proxy : HttpReverseProxy lib) (v : Vermouth lib)
      → Map.get v.ctx.proxies port ≡ some proxy
      → Proxy.host_exists lib proxy prefix host ≡ true
      → remove_http_proxy_host lib codecs listens raft
          (record { port = port; prefix = prefix; host = host })
          v
        ≡ ret (some host_not_exists, v)
  unfolding remove_http_proxy_host
  remove-listed port prefix host proxy v h k = rw (h, k, remove_http_proxy_host) refl

  remove_stale-listed :
      (port : ℤ) (prefix : Str) (children : List Str) (proxy : HttpReverseProxy lib)
      (v : Vermouth lib)
      → Map.get v.ctx.proxies port ≡ some proxy
      → (hosts : List Str) → All (λ host. Proxy.host_exists lib proxy prefix host ≡ true) hosts
      → remove_stale lib codecs listens raft port prefix children hosts v ≡ ret v
  unfolding remove_stale Proxy.host_exists
  remove_stale-listed port prefix children proxy v h [] listed = refl
  remove_stale-listed port prefix children proxy v h (host ∷ hosts) (k, listed) =
      elim (Bool-cases (contains children host)) [
        | inl q ↦
            rw (q, remove_stale) (remove_stale-listed port prefix children proxy v h hosts listed)
        | inr q ↦
            rw (q, remove-listed port prefix host proxy v h k, remove_stale)
              (remove_stale-listed port prefix children proxy v h hosts listed)
      ]

  -- Service discovery reports the hosts that a service still has: whatever they are, in either mode,
  -- the handling changes nothing, so a host that has gone stays in the table of a port that is
  -- listed. Where somebody keeps the write lock of the proxy, the handling waits for ever.
  pub handle_event-remove_hosts :
      (port : ℤ) (service : Str) (children : List Str) (proxy : HttpReverseProxy lib)
      (v : Vermouth lib)
      → Map.get v.ctx.proxies port ≡ some proxy
      → handle_event lib codecs listens raft port (remove_hosts service children) v
        ≡ (if proxy.mutex.writer then block else ret v)
  unfolding handle_event Proxy.get_hosts r_lock Proxy.host_exists
  handle_event-remove_hosts port service children proxy v h = elim (Bool-cases proxy.mutex.writer) [
    | inl held ↦ rw (h, held, handle_event, Proxy.get_hosts, r_lock) refl
    | inr free ↦
        rw (h, free, handle_event, Proxy.get_hosts, r_lock)
          (remove_stale-listed port (b'/' ∷ service) children proxy v h _
            (contains_self (list_or_nil (Map.get proxy.paths (b'/' ∷ service)))))
  ]
