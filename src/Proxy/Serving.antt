-- ===== src/Proxy/Serving.antt =====
-- vermouth/http_proxy.go: what a request has passed when ServeHTTP sends it on.
use vermouth.Prelude.{
  ℕ, refl, ap, inl, inr, Bool, true, false, not, some, arith, Bool-cases, ret, >>=-eq-ret,
  ret-injective, Result, ok, err, ◌≡◌, ◌||◌, nat_eq, str_eq,
}
use vermouth.Net.{Request, remote_ip}
use vermouth.Acl
use vermouth.Prefix
use vermouth.Prefix.{Mapped, MappingError, HashPrefixer}
use vermouth.Rate.{RateLib}
use vermouth.Proxy.{HttpReverseProxy}
use vermouth.Proxy.Serve.{
  Target, forward, forward_to, take_token, sent, serve_mapped, serve_checked, serve_http,
}

module _ (lib : RateLib) where
  -- The checks of ServeHTTP, in their order: the proxy and the peer serve, the client's address is
  -- not on the black list, the path has a prefix and a host, and the limiter of the path, unless
  -- the prefix is static, gives a token. The target is that of the host with the rest of the path.
  pub record IsServed (now : ℕ) (peer_available : Bool) (r : Request) (proxy : HttpReverseProxy lib)
      (target : Target) : Type 0 where
    pub available : proxy.available ≡ true
    pub peer : peer_available ≡ true
    pub not_denied : Acl.access_control proxy.acl (remote_ip r) ≡ ret false
    pub found : Mapped
    pub prefixer : HashPrefixer
    pub mapped : Prefix.mapping_path proxy.prefix_mapping r.path (some r) ≡ ret (ok found, prefixer)
    pub after : HttpReverseProxy lib
    pub token :
        take_token lib now found.prefix found.api_path (record proxy { prefix_mapping = prefixer })
        ≡ ret (true, after)
    pub sent : forward_to found.real_path ≡ forward target

  serve_mapped-sent :
      (now : ℕ) (mapped : Result MappingError Mapped) (proxy proxy' : HttpReverseProxy lib)
      (target : Target)
      → serve_mapped lib now mapped proxy ≡ ret (forward target, proxy')
      → (found : Mapped) × (mapped ≡ ok found)
        × (take_token lib now found.prefix found.api_path proxy ≡ ret (true, proxy'))
        × (forward_to found.real_path ≡ forward target)
  unfolding serve_mapped
  serve_mapped-sent now (err x) proxy proxy' target e = cc
  serve_mapped-sent now (ok found) proxy proxy' target e =
      let ((allowed, p), took, e1) =
        >>=-eq-ret (take_token lib now found.prefix found.api_path proxy) _ e in
      let same = ret-injective e1 in
      let (given, goes) = sent_of allowed (ap (λ x. x.0) same) in
      let left = ap (λ x. x.1) same in (found, refl, cc, goes)
    where
      sent_of :
          (allowed : Bool)
          → sent allowed found.real_path ≡ forward target
          → (allowed ≡ true) × (forward_to found.real_path ≡ forward target)
      sent_of true h = (refl, h)
      sent_of false h = cc

  serve_checked-sent :
      (now : ℕ) (r : Request) (proxy proxy' : HttpReverseProxy lib) (denied : Bool)
      (target : Target)
      → serve_checked lib now r proxy denied ≡ ret (forward target, proxy')
      → (denied ≡ false)
        × ((found : Mapped) × (m : HashPrefixer) × (Prefix.mapping_path proxy.prefix_mapping r.path
                (some r)
              ≡ ret (ok found, m))
            × (take_token lib now found.prefix found.api_path (record proxy { prefix_mapping = m })
                ≡ ret (true, proxy'))
            × (forward_to found.real_path ≡ forward target))
  unfolding serve_checked
  serve_checked-sent now r proxy proxy' true target e = cc
  serve_checked-sent now r proxy proxy' false target e =
      let ((mapped, m), ran, e1) =
        >>=-eq-ret (Prefix.mapping_path proxy.prefix_mapping r.path (some r)) _ e in
      let (found, is, took, goes) =
        serve_mapped-sent now mapped (record proxy { prefix_mapping = m }) proxy' target e1 in
      (refl, (found, m, rw (← is) ran, took, goes))

  pub serve_http-IsServed :
      (now : ℕ) (peer_available : Bool) (r : Request) (proxy proxy' : HttpReverseProxy lib)
      (target : Target)
      → serve_http lib now peer_available r proxy ≡ ret (forward target, proxy')
      → IsServed now peer_available r proxy target
  unfolding serve_http
  serve_http-IsServed now peer_available r proxy proxy' target e =
      elim (Bool-cases (not proxy.available || not peer_available)) [
        | inl down ↦ (let e' = (rw (down, serve_http) at e) in cc)
        | inr up ↦
            (let (denied, acl, e1) =
                >>=-eq-ret (Acl.access_control proxy.acl (remote_ip r)) _
                  (rw (up, serve_http) at e) in
              let (passed, (found, m, ran, took, goes)) =
                serve_checked-sent now r proxy proxy' denied target e1 in
              record {
                available = ground arith;
                peer = ground arith;
                not_denied = rw (← passed) acl;
                found = found;
                prefixer = m;
                mapped = ran;
                after = proxy';
                token = took;
                sent = goes;
              })
      ]
