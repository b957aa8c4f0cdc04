-- ===== src/Rate.antt =====
-- rate_limiter/rate_limiter.go and rate_limiter/qps_limiter.go. The token bucket of
-- golang.org/x/time/rate is not code of the repository: its types and calls are the parameter
-- `RateLib`. `now` is the moment of a call; counts and durations are signed.
use vermouth.Prelude.{
  ℕ, zero, suc, Bool, Option, none, some, Str, codes, Go, ret, panic, ℤ, pos, negsuc, ◌/◌, ◌≡◌,
  ◌==◌, if◌then◌else◌, ◌>>=◌, nat_eq, str_eq,
}

pub record RateLib : Type 1 where
  pub Limiter : Type 0
  pub Limit : Type 0
  -- rate.NewLimiter, rate.Every, and the conversions to and from rate.Limit
  pub new_limiter : Limit → ℤ → Limiter
  pub every : ℤ → Limit
  pub limit_of : ℕ → Limit
  pub trunc : Limit → ℤ
  -- Allow, Wait with a timeout, Burst and Limit
  pub allow : ℕ → Limiter → Bool × Limiter
  pub wait : ℕ → ℤ → Limiter → Bool × Limiter
  pub burst : Limiter → ℤ
  pub limit : Limiter → Limit
  -- A new limiter has the burst and the limit that it was made with.
  pub burst-new_limiter : (l : Limit) (b : ℤ) → burst (new_limiter l b) ≡ b
  pub limit-new_limiter : (l : Limit) (b : ℤ) → limit (new_limiter l b) ≡ l

abbrev pub inf : ℕ
inf = 1000000007

-- LimiterInfo
pub record LimiterInfo : Type 0 where
  pub url : Str
  pub type : Str
  pub init : ℤ
  pub speed : ℤ

abbrev negated : ℕ → ℤ
negated zero = pos 0
negated (suc n) = negsuc n

-- d.Milliseconds()
abbrev milliseconds : ℤ → ℤ
milliseconds (pos n) = pos (n / 1000000)
milliseconds (negsuc n) = negated (suc n / 1000000)

-- time.Second / time.Duration(speed): towards zero, and a panic at zero
unfoldable pub interval : ℤ → Go ℤ
interval (pos zero) = panic
interval (pos (suc n)) = ret (pos (1000000000 / suc n))
interval (negsuc n) = ret (negated (1000000000 / suc n))

module _ (lib : RateLib) where
  open lib use {Limiter, Limit, new_limiter, every, limit_of, trunc, allow, wait, burst, limit}

  pub record QpsRateLimiter : Type 0 where
    pub limiter : Limiter
    pub timeout : ℤ

  -- NewQpsRateLimiter
  unfoldable pub new_qps : QpsRateLimiter
  new_qps = record { limiter = new_limiter (limit_of inf) (pos inf); timeout = negsuc 0 }

  -- Build: `none` is ErrLimiterTypeNotSupported.
  unfoldable pub build : Str → Option QpsRateLimiter
  unfolding new_qps
  build t = if t == codes "qps" then some new_qps else none

  -- Take: `false` is ErrNoReaminToken.
  unfoldable pub take : ℕ → QpsRateLimiter → Bool × QpsRateLimiter
  take now r = let (allowed, l) = allow now r.limiter in (allowed, record r { limiter = l })

  -- TakeWithTimeout
  unfoldable pub take_with_timeout : ℕ → ℤ → QpsRateLimiter → Bool × QpsRateLimiter
  take_with_timeout now timeout r =
      let (allowed, l) = wait now timeout r.limiter in (allowed, record r { limiter = l })

  -- SetRate
  unfoldable pub set_rate : ℤ → ℤ → QpsRateLimiter → Go QpsRateLimiter
  unfolding interval
  set_rate init speed r = do
    d ← interval speed
    ret (record r { limiter = new_limiter (every d) init })

  -- GetVolumn and GetSpeed
  unfoldable pub get_volumn : QpsRateLimiter → ℤ
  get_volumn r = burst r.limiter

  unfoldable pub get_speed : QpsRateLimiter → ℤ
  get_speed r = trunc (limit r.limiter)

  -- GetTimeout: milliseconds, towards zero.
  unfoldable pub get_timeout : QpsRateLimiter → ℤ
  get_timeout r = milliseconds r.timeout

  -- SetTimeout
  unfoldable pub set_timeout : ℤ → QpsRateLimiter → QpsRateLimiter
  set_timeout t r = record r { timeout = t }
