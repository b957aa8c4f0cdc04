-- ===== src/Proxy/Snapshot.antt =====
-- vermouth/http_proxy.go: what the JSON text of a proxy holds, which are its exported fields, and the
-- proxy as it is decoded: every other field has its zero value until Restore sets it.
use vermouth.Prelude.{Bool, false, none, List, [], Str, unlocked, ℤ, nat_eq, str_eq}
use vermouth.Acl.{RadixTree}
use vermouth.Rate.{RateLib, LimiterInfo}
use vermouth.Prefix
use vermouth.Prelude.Map.{Map}
use vermouth.Proxy.{HttpReverseProxy}

pub record HttpProxySnap : Type 0 where
  pub port : ℤ
  pub prefixer_type : Str
  pub paths : Map Str (List Str)
  pub balancer_type : Map Str Str
  pub rate_limiter_type : Map Str (List LimiterInfo)
  pub static_mapping : Map Str Bool
  pub acl : Map Str Bool
  pub available : Bool

-- The tree as it is decoded: its root and its free list are nil.
abbrev pub decoded_tree : Map Str Bool → RadixTree
decoded_tree entries = record { nodes = []; root = none; free = none; entries = entries }

module _ (lib : RateLib) where
  unfoldable pub saved : HttpReverseProxy lib → HttpProxySnap
  saved p = record {
    port = p.port;
    prefixer_type = p.prefixer_type;
    paths = p.paths;
    balancer_type = p.balancer_type;
    rate_limiter_type = p.rate_limiter_type;
    static_mapping = p.static_mapping;
    acl = p.acl.entries;
    available = p.available;
  }

  -- The prefixer is nil: an empty one stands for it, which nothing reads before Restore sets it.
  unfoldable pub loaded : HttpProxySnap → HttpReverseProxy lib
  loaded s = record {
    port = s.port;
    prefixer_type = s.prefixer_type;
    paths = s.paths;
    balancer_type = s.balancer_type;
    rate_limiter_type = s.rate_limiter_type;
    static_mapping = s.static_mapping;
    acl = decoded_tree s.acl;
    available = s.available;
    rate_limiters = [];
    prefix_mapping = Prefix.new_hash_prefixer;
    serving = false;
    shutdown = false;
    mutex = unlocked;
  }
