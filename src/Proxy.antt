-- ===== src/Proxy.antt =====
-- vermouth/http_proxy.go: one reverse proxy, its prefixes, its static resources, its black list and
-- its rate limiters. The mutex is part of the state, since an operation that takes it a second time
-- never returns. A panic ends the run of an operation, and its changes are not followed further.
-- Logging is left out. Run opens a listener: whether that works is an argument.
pub mod Networks
pub mod Limiters
pub mod Serve
pub mod Restore
pub mod Snapshot
pub mod Rebuild
pub mod Remade
pub mod Restorable
pub mod Restored
pub mod Sync
pub mod Create
pub mod Requests
pub mod Ops
pub mod Runs
pub mod Serving
pub mod Forbidden
pub mod Blacklist
pub mod Unlisted
pub mod Unknown
pub mod Doubling
pub mod Answers
mod UnlistedTests
mod AnswerTests
mod ForbiddenTests
pub mod Removal
pub mod Limits
pub mod Tests
use vermouth.Prelude.{
  Bool, true, false, not, Option, none, some, List, [], Str, contains, Go, ret, panic, block,
  RwMutex, unlocked, lock, unlock, r_lock, ℤ, pos, ◌&&◌, ◌||◌, ◌==◌, if◌then◌else◌, ◌>>=◌, ◌>>◌,
  nat_eq, str_eq,
}
use vermouth.Prelude.Int.{int_eq}
use vermouth.Prelude.Map
use vermouth.Prelude.Map.{Map}
use vermouth.Balancer
use vermouth.Balancer.{Balancer}
use vermouth.Prefix
use vermouth.Prefix.{HashPrefixer}
use vermouth.Acl
use vermouth.Acl.{RadixTree}
use vermouth.Rate
use vermouth.Rate.{RateLib, LimiterInfo, QpsRateLimiter}

-- config.HttpProxyPathArgs and config.HttpProxyArgs
pub record HttpProxyPathArgs : Type 0 where
  pub balance_mode : Str
  pub pattern : Str
  pub static : Bool
  pub hosts : List Str

pub record HttpProxyArgs : Type 0 where
  pub port : ℤ
  pub prefixer_type : Str
  pub paths : List HttpProxyPathArgs

-- The value of a Go map at a key that may be missing: the zero value.
abbrev pub list_or_nil {ℓ} : {A : Type ℓ} → Option (List A) → List A
list_or_nil none = []
list_or_nil (some xs) = xs

abbrev pub or_false : Option Bool → Bool
or_false none = false
or_false (some b) = b

-- *p of a pointer or an interface value that may be nil
abbrev pub deref {ℓ} : {A : Type ℓ} → Option A → Go A
deref none = panic
deref (some a) = ret a

module _ (lib : RateLib) where
  -- `serving` is whether the goroutine that waits on Shutdown runs, and `shutdown` whether Shutdown
  -- is a channel, and not nil, at which it would wait for ever.
  pub record HttpReverseProxy : Type 0 where
    pub port : ℤ
    pub prefixer_type : Str
    pub paths : Map Str (List Str)
    pub balancer_type : Map Str Str
    pub rate_limiter_type : Map Str (List LimiterInfo)
    pub static_mapping : Map Str Bool
    pub acl : RadixTree
    pub available : Bool
    pub rate_limiters : Map Str (QpsRateLimiter lib)
    pub prefix_mapping : HashPrefixer
    pub serving : Bool
    pub shutdown : Bool
    pub mutex : RwMutex

  -- NewHttpReverseProxy: logger.Fatal, for an unknown prefixer, panics.
  unfoldable pub new_http_reverse_proxy : HttpProxyArgs → Go HttpReverseProxy
  unfolding Prefix.build Acl.new_radix_tree
  new_http_reverse_proxy args = do
    p ← deref (Prefix.build args.prefixer_type)
    ret (record {
      port = args.port;
      prefixer_type = args.prefixer_type;
      paths = [];
      balancer_type = [];
      rate_limiter_type = [];
      static_mapping = [];
      acl = Acl.new_radix_tree;
      available = true;
      rate_limiters = [];
      prefix_mapping = p;
      serving = false;
      shutdown = true;
      mutex = unlocked;
    })

  -- proxy.Lock(), an operation, and the deferred proxy.Unlock()
  unfoldable pub locked :
      (HttpReverseProxy → Go HttpReverseProxy) → HttpReverseProxy → Go HttpReverseProxy
  unfolding lock unlock
  locked f proxy = do
    m ← lock proxy.mutex
    done ← f (record proxy { mutex = m })
    ret (record done { mutex = unlock done.mutex })

  -- The body of AddPrefix.
  unfoldable pub add_prefix_body :
      Str → Str → List Str → Bool → HttpReverseProxy → Go HttpReverseProxy
  add_prefix_body prefix algo hosts is_static proxy =
      if Map.has proxy.prefix_mapping.mapping prefix then ret proxy else do
        p ← Prefix.add proxy.prefix_mapping prefix algo hosts
        lb ← deref (Prefix.get_balancer p prefix)
        ret (record proxy {
          static_mapping = Map.put proxy.static_mapping prefix is_static;
          prefix_mapping = p;
          balancer_type = Map.put proxy.balancer_type prefix algo;
          paths = Map.put proxy.paths prefix (Balancer.hosts lb);
        })

  -- AddPrefix
  unfoldable pub add_prefix : Str → Str → List Str → Bool → HttpReverseProxy → Go HttpReverseProxy
  unfolding locked add_prefix_body
  add_prefix prefix algo hosts is_static = locked (add_prefix_body prefix algo hosts is_static)

  unfoldable pub remove_prefix_body : Str → HttpReverseProxy → HttpReverseProxy
  remove_prefix_body prefix proxy = record proxy {
    paths = Map.remove proxy.paths prefix;
    balancer_type = Map.remove proxy.balancer_type prefix;
    rate_limiters = Map.remove proxy.rate_limiters prefix;
    rate_limiter_type = Map.remove proxy.rate_limiter_type prefix;
    prefix_mapping = Prefix.remove proxy.prefix_mapping prefix;
  }

  -- RemovePrefix
  unfoldable pub remove_prefix : Str → HttpReverseProxy → Go HttpReverseProxy
  unfolding locked remove_prefix_body
  remove_prefix prefix = locked (λ p. ret (remove_prefix_body prefix p))

  -- AddHost and RemoveHost change the balancer that the prefixer holds, and list its hosts again.
  unfoldable pub change_host_body :
      (Balancer → Go Balancer) → Str → HttpReverseProxy → Go HttpReverseProxy
  change_host_body f prefix proxy = do
    lb ← deref (Prefix.get_balancer proxy.prefix_mapping prefix)
    lb' ← f lb
    ret (record proxy {
      prefix_mapping = record { mapping = Map.put proxy.prefix_mapping.mapping prefix lb' };
      paths = Map.put proxy.paths prefix (Balancer.hosts lb');
    })

  unfoldable pub add_host : Str → Str → HttpReverseProxy → Go HttpReverseProxy
  unfolding locked change_host_body
  add_host prefix host = locked (change_host_body (λ lb. Balancer.add lb host) prefix)

  unfoldable pub remove_host : Str → Str → HttpReverseProxy → Go HttpReverseProxy
  unfolding locked change_host_body
  remove_host prefix host = locked (change_host_body (λ lb. Balancer.remove lb host) prefix)

  -- GetHosts takes the read lock and frees it again.
  unfoldable pub get_hosts : HttpReverseProxy → Str → Go (List Str)
  unfolding r_lock
  get_hosts proxy prefix = do
    held ← r_lock proxy.mutex
    ret (list_or_nil (Map.get proxy.paths prefix))

  -- PrefixExists and HostExists take no lock.
  unfoldable pub prefix_exists : HttpReverseProxy → Str → Bool
  prefix_exists proxy prefix = Map.has proxy.paths prefix

  unfoldable pub host_exists : HttpReverseProxy → Str → Str → Bool
  unfolding contains
  host_exists proxy prefix host = contains (list_or_nil (Map.get proxy.paths prefix)) host

  -- Stop and Start
  unfoldable pub set_available : Bool → HttpReverseProxy → Go HttpReverseProxy
  set_available b p = ret (record p { available = b })

  unfoldable pub stop : HttpReverseProxy → Go HttpReverseProxy
  unfolding locked set_available
  stop = locked (set_available false)

  unfoldable pub start : HttpReverseProxy → Go HttpReverseProxy
  unfolding locked set_available
  start = locked (set_available true)

  -- Run, where `listens` is whether the port can be listened at: whether it succeeds
  unfoldable pub run : Bool → HttpReverseProxy → Go (Bool × HttpReverseProxy)
  unfolding lock unlock
  run listens proxy = do
    m ← lock proxy.mutex
    ret (
      listens,
      record proxy { mutex = unlock m; serving = proxy.serving || listens && proxy.shutdown },
    )

  -- Close: the send waits for a goroutine that receives.
  unfoldable pub close : HttpReverseProxy → Go HttpReverseProxy
  close proxy = if proxy.serving then ret (record proxy { serving = false }) else block

  -- changeState
  unfoldable pub change_state : ℤ → HttpReverseProxy → Go HttpReverseProxy
  unfolding start stop close
  change_state state proxy =
      if state == pos 1 then start proxy else if state == pos 2 then stop proxy else close proxy

  -- changeStatic
  unfoldable pub change_static_body : Str → HttpReverseProxy → Go HttpReverseProxy
  change_static_body prefix p = ret (record p {
    static_mapping =
        Map.put p.static_mapping prefix (not (or_false (Map.get p.static_mapping prefix)));
  })

  unfoldable pub change_static : Str → HttpReverseProxy → Go HttpReverseProxy
  unfolding locked change_static_body
  change_static prefix = locked (change_static_body prefix)

  -- changeLb
  unfoldable pub change_lb : Str → Str → HttpReverseProxy → Go HttpReverseProxy
  unfolding remove_prefix add_prefix
  change_lb prefix lb proxy = do
    old ← deref (Prefix.get_balancer proxy.prefix_mapping prefix)
    p ← remove_prefix prefix proxy
    add_prefix prefix lb (Balancer.hosts old) (or_false (Map.get proxy.static_mapping prefix)) p

  -- isStaticResource
  unfoldable pub is_static_resource : HttpReverseProxy → Str → Bool
  is_static_resource proxy prefix = or_false (Map.get proxy.static_mapping prefix)

  -- LoadBalance: no balancer, or an error, gives the empty string.
  unfoldable pub load_balance : Str → Str → HttpReverseProxy → Go (Str × HttpReverseProxy)
  unfolding r_lock
  load_balance prefix balance_url proxy = do
    m ← r_lock proxy.mutex
    elim (Prefix.get_balancer proxy.prefix_mapping prefix) [
      | none ↦ ret ([], proxy)
      | some lb ↦ do
        (addr, lb') ← Balancer.balance lb balance_url none
        let proxy' : HttpReverseProxy = record proxy {
          prefix_mapping = record { mapping = Map.put proxy.prefix_mapping.mapping prefix lb' };
        }
        elim addr [ none ↦ ret ([], proxy') | some a ↦ ret (a, proxy') ]
    ]
