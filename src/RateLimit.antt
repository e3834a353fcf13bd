-- ===== src/RateLimit.antt =====
-- internal/platform/ratelimit: the leaky bucket of leakybucket.go, whose script runs inside Redis,
-- and the HTTP middleware over it. Every policy of the program leaks a whole number of units per
-- minute (`float64(n) / 60.0`), so a level is a number of 60000ths of a unit: one millisecond at one
-- unit per minute. On these the script's divisions are exact; the rounding of doubles is not
-- modelled. A capacity, a cost and a leak are natural numbers.
pub mod Levels
pub mod Conformance
use vidmerce.Prelude.{
  ℕ, ◌+◌, ◌-◌, ◌*◌, ◌/◌, Bool, true, false, Option, none, some, Bytes, if◌then◌else◌, leb, ltb,
  ◌==◌,
}
use vidmerce.Redis.{Redis, hm_set, expire, del}

pub record Policy : Type 0 where
  pub capacity : ℕ
  pub leak_per_minute : ℕ
  pub ttl_seconds : ℕ

-- `RetryAfter` in milliseconds.
pub record Result : Type 0 where
  pub allowed : Bool
  pub remaining : ℕ
  pub retry_after : ℕ

abbrev pub unit : ℕ
unit = 60_000

-- The level now, after the leak since `last`; both differences stop at 0 in the script too.
unfoldable pub leaked_level : ℕ → ℕ → Option (ℕ × ℕ) → ℕ
leaked_level leak now none = 0
leaked_level leak now (some (level, last)) = level - (now - last) * leak

-- math.ceil of a quotient.
unfoldable pub ceil_div : ℕ → ℕ → ℕ
ceil_div a b = (a + (b - 1)) / b

-- What the script replies, and the level that it stores.
unfoldable pub decide : ℕ → ℕ → ℕ → ℕ → Result × ℕ
unfolding ceil_div
decide capacity leak cost level =
    let new_level = level + cost * unit in
    if leb new_level (capacity * unit)
    then (
      record { allowed = true; remaining = (capacity * unit - new_level) / unit; retry_after = 0 },
      new_level,
    )
    else (
      record {
        allowed = false;
        remaining = (capacity * unit - level) / unit;
        retry_after = ceil_div (new_level - capacity * unit) leak;
      },
      level,
    )

-- The time to live of a bucket, in seconds.
unfoldable pub lifetime : Policy → ℕ
lifetime p = if p.ttl_seconds == 0 then 3600 else p.ttl_seconds

module _ (R : Redis) where
  open R use {Store, exec, hm_get}

  -- `leakyBucketScript`
  unfoldable pub leaky_bucket_script : Bytes → ℕ → ℕ → ℕ → ℕ → ℕ → Store → Result × Store
  leaky_bucket_script key capacity leak now cost ttl s =
      let d = decide capacity leak cost (leaked_level leak now (hm_get key s)) in
      (d.0, exec (expire key ttl) (exec (hm_set key d.1 now) s))

  -- What the expiry has done by the time `now`: a bucket that was last used its whole time to live
  -- ago, in seconds, is gone.
  unfoldable pub expired : Bytes → ℕ → ℕ → Store → Store
  expired key ttl now s = elim (hm_get key s) [
    | none ↦ s
    | some (level, last) ↦ if leb (ttl * 1000) (now - last) then exec (del key) s else s
  ]

  -- `LeakyBucket.Allow`; `up` is whether the script is run, `none` an error.
  unfoldable pub allow : Bool → Bytes → Policy → ℕ → ℕ → Store → Option Result × Store
  allow up key p cost now s =
      let r = leaky_bucket_script key p.capacity p.leak_per_minute now cost (lifetime p) s in
      if up then (some r.0, r.1) else (none, s)

-- What the middleware does with a request.
pub data Answer : Type 0 where
  next : Answer
  unready : Answer  -- 503
  too_many : ℕ → Answer  -- 429, with the seconds of Retry-After

answer : Bool → Option Result → Answer
answer fail_open none = if fail_open then next else unready
answer fail_open (some r) =
    if r.allowed
    then next
    else too_many (if ltb (r.retry_after / 1000) 1 then 1 else r.retry_after / 1000)

module _ (R : Redis) where
  -- `Middleware`
  unfoldable pub middleware : Bool → Bool → Bytes → Policy → ℕ → R.Store → Answer × R.Store
  unfolding answer
  middleware fail_open up key p now s =
      let r = allow R up key p 1 now s in (answer fail_open r.0, r.1)
