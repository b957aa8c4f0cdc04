-- ===== src/Proxy/Serve.antt =====
-- vermouth/http_proxy.go: ServeHTTP and forwardToSpecficPath. The reply is what the proxy writes, or
-- the target to which the request goes on; the transport behind it is not modelled.
use vermouth.Prelude.{
  ℕ, Bool, true, false, not, Option, none, some, List, [], Str, codes, length, take, drop, Go, ret,
  Result, ok, err, ℤ, pos, ◌||◌, ◌∷◌, if◌then◌else◌, ◌>>=◌, nat_eq, str_eq,
}
use vermouth.Golib.Strings.{split, first, rest, index}
use vermouth.Golib.Strconv.{atoi}
use vermouth.Net.{Request, remote_ip}
use vermouth.Acl
use vermouth.Prefix
use vermouth.Prefix.{MappingError, Mapped, path_not_found, no_host}
use vermouth.Rate
use vermouth.Rate.{RateLib, QpsRateLimiter, inf}
use vermouth.Prelude.Map
use vermouth.Proxy.{HttpReverseProxy, is_static_resource, deref}
use vermouth.Proxy.Limiters.{complete_url, create_rate_limiter}

-- Where the director sends a request.
pub record Target : Type 0 where
  pub host : Str
  pub port : ℤ
  pub path : Str

pub data Reply : Type 0 where
  not_found : Reply
  forbidden : Reply
  mapping_failed : MappingError → Reply
  no_token : Reply
  illegal_port : Reply
  forward : Target → Reply

abbrev index_or_len : Str → ℕ
index_or_len raw_path = elim (index b'/' raw_path) [ none ↦ length raw_path | some i ↦ i ]

-- The port behind the first colon: 80 if there is none.
abbrev port_of : List Str → Option ℤ
port_of [] = some (pos 80)
port_of (p ∷ ps) = atoi p

-- forwardToSpecficPath
unfoldable pub forward_to : Str → Reply
forward_to raw_path =
    let at = index_or_len raw_path in
    let parts = split b':' (take at raw_path) in
    elim (port_of (rest parts)) [
      | none ↦ illegal_port
      | some port ↦ forward (record { host = first parts; port = port; path = drop at raw_path })
    ]

-- The last step: a request that has its token goes on.
abbrev pub sent : Bool → Str → Reply
sent true real_path = forward_to real_path
sent false real_path = no_token

module _ (lib : RateLib) where
  -- The limiter of a path. Without one the proxy makes one that lets everything through; that
  -- cannot fail, or logger.Fatalf panics.
  unfoldable pub limiter_for :
      Str → Str → HttpReverseProxy lib → Go (QpsRateLimiter lib × HttpReverseProxy lib)
  limiter_for prefix api_path proxy =
      elim (Map.get proxy.rate_limiters (complete_url prefix api_path)) [
        | some l ↦ ret (l, proxy)
        | none ↦ do
          (made, proxy') ←
              create_rate_limiter lib prefix api_path (codes "qps") (pos inf) (pos inf) proxy
          l ← deref made
          ret (l, proxy')
      ]

  -- The third step of ServeHTTP: whether the request may go on.
  unfoldable pub take_token :
      ℕ → Str → Str → HttpReverseProxy lib → Go (Bool × HttpReverseProxy lib)
  unfolding limiter_for
  take_token now prefix api_path proxy =
      if is_static_resource lib proxy prefix then ret (true, proxy) else do
        (l, p) ← limiter_for prefix api_path proxy
        let taken : Bool × QpsRateLimiter lib = Rate.take lib now l
        ret (
          taken.0,
          record p {
            rate_limiters = Map.put p.rate_limiters (complete_url prefix api_path) taken.1;
          },
        )

  -- ServeHTTP behind MappingPath.
  unfoldable pub serve_mapped :
      ℕ → Result MappingError Mapped → HttpReverseProxy lib → Go (Reply × HttpReverseProxy lib)
  unfolding take_token forward_to
  serve_mapped now (err e) proxy = ret (mapping_failed e, proxy)
  serve_mapped now (ok found) proxy = do
    (allowed, proxy') ← take_token now found.prefix found.api_path proxy
    ret (sent allowed found.real_path, proxy')

  -- ServeHTTP behind the test of the black list.
  unfoldable pub serve_checked :
      ℕ → Request → HttpReverseProxy lib → Bool → Go (Reply × HttpReverseProxy lib)
  unfolding serve_mapped
  serve_checked now r proxy true = ret (forbidden, proxy)
  serve_checked now r proxy false = do
    (mapped, m) ← Prefix.mapping_path proxy.prefix_mapping r.path (some r)
    serve_mapped now mapped (record proxy { prefix_mapping = m })

  -- ServeHTTP at the moment `now`, where `peer_available` is what the Vermouth answers.
  unfoldable pub serve_http :
      ℕ → Bool → Request → HttpReverseProxy lib → Go (Reply × HttpReverseProxy lib)
  unfolding serve_checked
  serve_http now peer_available r proxy =
      if not proxy.available || not peer_available
      then ret (not_found, proxy)
      else (Acl.access_control proxy.acl (remote_ip r) >>= serve_checked now r proxy)
