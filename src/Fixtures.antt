-- ===== src/Fixtures.antt =====
-- Concrete values for the parameters of the model, at which the examples run: a limiter that lets
-- everything through, and a codec that writes numbers as bytes.
use vermouth.Prelude.{
  refl, true, Option, none, some, [], Str, codes, unlocked, ℤ, pos, negsuc, ◌≡◌, ◌∷◌, nat_eq,
  str_eq,
}
use vermouth.Rate.{RateLib}
use vermouth.Acl
use vermouth.Proxy.{HttpReverseProxy}
use vermouth.State.Bodies.{Codec, Codecs, AddHttpProxyBody}

abbrev pub test_lib : RateLib
test_lib = record {
  Limiter = ℤ × ℤ;
  Limit = ℤ;
  new_limiter = λ l b. (l, b);
  every = λ d. d;
  limit_of = λ n. pos n;
  trunc = λ l. l;
  allow = λ now l. (true, l);
  wait = λ now d l. (true, l);
  burst = λ l. l.1;
  limit = λ l. l.0;
  burst-new_limiter = λ l b. refl;
  limit-new_limiter = λ l b. refl;
}

-- A proxy as it is made, that runs.
abbrev pub empty_proxy : HttpReverseProxy test_lib
empty_proxy = record {
  port = pos 8080;
  prefixer_type = codes "hash-prefixer";
  paths = [];
  balancer_type = [];
  rate_limiter_type = [];
  static_mapping = [];
  acl = Acl.new_radix_tree;
  available = true;
  rate_limiters = [];
  prefix_mapping = record { mapping = [] };
  serving = true;
  shutdown = true;
  mutex = unlocked;
}

pub nothing_coded : {Body : Type 0} (b : Body) (s : Str) → none ≡ some s → none ≡ some b
nothing_coded b s e = cc

-- A codec that encodes nothing.
abbrev no_codec : {Body : Type 0} → Codec Body
no_codec = record { encode = λ b. none; decode = λ s. none; decode-encode = nothing_coded }

abbrev encode_proxy : ℤ → Str → Option Str
encode_proxy (pos n) t = some (n ∷ t)
encode_proxy (negsuc n) t = none

abbrev decode_proxy : Str → Option AddHttpProxyBody
decode_proxy [] = none
decode_proxy (n ∷ t) = some (record { port = pos n; prefix_type = t })

pub decode-encode_proxy :
    (port : ℤ) (t s : Str)
    → encode_proxy port t ≡ some s
    → decode_proxy s ≡ some (record { port = port; prefix_type = t })
decode-encode_proxy (pos n) t [] e = cc
decode-encode_proxy (pos n) t (m ∷ s) e = cc
decode-encode_proxy (negsuc n) t s e = cc

abbrev pub test_codecs : Codecs
test_codecs = record {
  add_http_proxy = record {
    encode = λ b. encode_proxy b.port b.prefix_type;
    decode = decode_proxy;
    decode-encode = λ b s e. decode-encode_proxy b.port b.prefix_type s e;
  };
  change_state = no_codec;
  add_prefix = no_codec;
  host = no_codec;
  black_list = no_codec;
  remove_prefix = no_codec;
  remove_http_proxy = no_codec;
  rate_limiter = no_codec;
  change_static = no_codec;
  change_lb = no_codec;
}
