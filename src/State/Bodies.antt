-- ===== src/State/Bodies.antt =====
-- vermouth/log_entry_structs.go: the bodies of the commands, and the codec that puts them into the
-- log. The codec is encoding/gob, which is not code of the repository: a parameter, of which the
-- program needs that decoding gives back what was encoded.
use vermouth.Prelude.{Bool, Option, some, List, Str, ℤ, ◌≡◌, nat_eq, str_eq}

pub record AddHttpProxyBody : Type 0 where
  pub port : ℤ
  pub prefix_type : Str

pub record ChangeHttpProxyStateBody : Type 0 where
  pub port : ℤ
  pub state : ℤ

pub record AddHttpProxyPrefixBody : Type 0 where
  pub port : ℤ
  pub static : Bool
  pub prefix : Str
  pub balance_type : Str
  pub proxy_pass : List Str

pub record HttpProxyHostBody : Type 0 where
  pub port : ℤ
  pub prefix : Str
  pub host : Str

pub record HttpBlackListBody : Type 0 where
  pub port : ℤ
  pub ips : List Str

pub record RemoveHttpProxyPrefixBody : Type 0 where
  pub port : ℤ
  pub prefix : Str

pub record RemoveHttpProxyBody : Type 0 where
  pub port : ℤ

pub record HttpRateLimiterBody : Type 0 where
  pub port : ℤ
  pub prefix : Str
  pub url : Str
  pub type : Str
  pub volumn : ℤ
  pub speed : ℤ

pub record HttpChangeStatic : Type 0 where
  pub port : ℤ
  pub prefix : Str

pub record HttpChangeLbBody : Type 0 where
  pub port : ℤ
  pub prefix : Str
  pub lb : Str

pub record Codec (Body : Type 0) : Type 0 where
  pub encode : Body → Option Str
  pub decode : Str → Option Body
  pub decode-encode : (b : Body) (s : Str) → encode b ≡ some s → decode s ≡ some b

pub record Codecs : Type 0 where
  pub add_http_proxy : Codec AddHttpProxyBody
  pub change_state : Codec ChangeHttpProxyStateBody
  pub add_prefix : Codec AddHttpProxyPrefixBody
  pub host : Codec HttpProxyHostBody
  pub black_list : Codec HttpBlackListBody
  pub remove_prefix : Codec RemoveHttpProxyPrefixBody
  pub remove_http_proxy : Codec RemoveHttpProxyBody
  pub rate_limiter : Codec HttpRateLimiterBody
  pub change_static : Codec HttpChangeStatic
  pub change_lb : Codec HttpChangeLbBody
