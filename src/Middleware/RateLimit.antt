-- ===== src/Middleware/RateLimit.antt =====
-- internal/api/middleware/ratelimit.go: the fixed-window limiter. Times are nanoseconds of a clock
-- that does not go back; `now` is the time of the call.
pub mod Window
pub mod Counters
use upguardly_server.Base.{
  ℕ, suc, ◌+◌, ◌-◌, ◌*◌, Bool, true, false, not, ◌&&◌, ◌||◌, List, [], ◌∷◌, Option, none, some,
  String, if◌then◌else◌, ltb, leb, ◌=?◌, string_eq, lookup, insert, discard,
}

pub record LimitResult : Type 0 where
  pub allowed : Bool
  pub limit : ℕ
  pub remaining : ℕ
  pub reset_after : ℕ

pub record IpBucket : Type 0 where
  pub count : ℕ
  pub window_start : ℕ

pub record RateLimiter : Type 0 where
  pub limit : ℕ
  pub window : ℕ
  pub buckets : List (String × IpBucket)
  pub last_clean : ℕ

unfoldable pub new_rate_limiter : ℕ → ℕ → ℕ → RateLimiter
new_rate_limiter limit window now = record {
  limit = limit;
  window = window;
  buckets = [];
  last_clean = now;
}

-- `remaining`: on ℕ the subtraction stops at 0.
abbrev pub remaining_of : ℕ → ℕ → ℕ
remaining_of limit count = if ltb 0 (limit - count) then limit - count else 0

abbrev pub expired : ℕ → ℕ → IpBucket → Bool
expired window now b = ltb window (now - b.window_start)

-- The clean-up removes the buckets whose window is over.
abbrev pub stale : List (String × IpBucket) → ℕ → ℕ → String → Bool
stale [] window now ip = false
stale ((i, b) ∷ bs) window now ip = if i =? ip then expired window now b else stale bs window now ip

-- Five minutes, in nanoseconds.
abbrev pub clean_every : ℕ
clean_every = 300000000000

unfoldable pub clean : RateLimiter → ℕ → RateLimiter
clean r now =
    if ltb clean_every (now - r.last_clean)
    then record r { buckets = discard (stale r.buckets r.window now) r.buckets; last_clean = now }
    else r

abbrev open_window : RateLimiter → String → ℕ → RateLimiter × LimitResult
open_window r ip now = (
  record r { buckets = insert r.buckets ip (record { count = 1; window_start = now }) },
  record {
    allowed = true;
    limit = r.limit;
    remaining = remaining_of r.limit 1;
    reset_after = r.window;
  },
)

abbrev count_in : RateLimiter → String → ℕ → IpBucket → RateLimiter × LimitResult
count_in r ip now b =
    let reset_after = r.window - (now - b.window_start) in
    if leb r.limit b.count
    then (r, record { allowed = false; limit = r.limit; remaining = 0; reset_after = reset_after })
    else (
      record r { buckets = insert r.buckets ip (record b { count = suc b.count }) },
      record {
        allowed = true;
        limit = r.limit;
        remaining = remaining_of r.limit (suc b.count);
        reset_after = reset_after;
      },
    )

abbrev pub decide : RateLimiter → String → ℕ → Option IpBucket → RateLimiter × LimitResult
decide r ip now none = open_window r ip now
decide r ip now (some b) =
    if expired r.window now b then open_window r ip now else count_in r ip now b

-- `allowMemory`
unfoldable pub allow_memory : RateLimiter → String → ℕ → RateLimiter × LimitResult
unfolding clean
allow_memory r ip now = let r' = clean r now in decide r' ip now (lookup r'.buckets ip)

-- `allowRedis`, from the script's count and time to live in milliseconds (0 for a negative one).
unfoldable pub allow_redis : RateLimiter → ℕ → ℕ → LimitResult
allow_redis r count ttl_ms = record {
  allowed = leb count r.limit;
  limit = r.limit;
  remaining = remaining_of r.limit count;
  reset_after = if ltb 0 ttl_ms then ttl_ms * 1000000 else r.window;
}

-- `allow` with a Redis client, whose script may fail: then the request is let through.
unfoldable pub allow_shared : RateLimiter → Option (ℕ × ℕ) → LimitResult
unfolding allow_redis
allow_shared r none = record {
  allowed = true;
  limit = r.limit;
  remaining = r.limit;
  reset_after = r.window;
}
allow_shared r (some (count, ttl_ms)) = allow_redis r count ttl_ms
