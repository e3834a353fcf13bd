-- ===== src/View/Policy.antt =====
-- internal/view/policy.go: the watch threshold and the rate for a video's length. Go's `int` has 64
-- bits; its division rounds towards zero.
use native.Mathlib.Nat.{mul-div-le, div-le_self}
use vidmerce.Prelude.{
  ℕ, zero, suc, ◌*◌, ◌/◌, ◌^◌, ◌≤◌, ◌<◌, ◌≡◌, refl, ◌⊎◌, true, false, leb, Option, none, some,
  if◌then◌else◌, arith, Bool-cases, inl, inr,
}
use vidmerce.Prelude.Int.{ℤ, pos, negsuc, leb_ℤ, ltb_ℤ, wrap, wrap_small}
use vidmerce.RateLimit.{Policy}

pub record ViewPolicyConfig : Type 0 where
  pub min_duration_sec : ℤ
  pub unknown_min_watch_ms : ℤ

abbrev negate : ℕ → ℤ
negate zero = pos 0
negate (suc n) = negsuc n

-- a * k and a / k, for a literal k.
abbrev times : ℤ → ℕ → ℤ
times (pos n) k = wrap (pos (n * k))
times (negsuc n) k = wrap (negate (suc n * k))

abbrev quotient : ℤ → ℕ → ℤ
quotient (pos n) k = pos (n / k)
quotient (negsuc n) k = negate (suc n / k)

-- The default of 5 for a configured minimum that is not positive.
unfoldable pub min_duration : ViewPolicyConfig → ℤ
min_duration cfg = if leb_ℤ cfg.min_duration_sec (pos 0) then pos 5 else cfg.min_duration_sec

unfoldable pub required_watch_ms : ℤ → ViewPolicyConfig → ℤ
unfolding min_duration
required_watch_ms duration_sec cfg =
    if leb_ℤ duration_sec (pos 0)
    then cfg.unknown_min_watch_ms
    else if ltb_ℤ duration_sec (min_duration cfg)
    then cfg.unknown_min_watch_ms
    else (let w = quotient (times duration_sec 1000) 3 in if ltb_ℤ w (pos 1) then pos 1 else w)

-- 60 / duration, and at least 1. A duration below 1 does not get here.
per_minute : ℤ → ℕ
per_minute (pos n) = if leb 1 (60 / n) then 60 / n else 1
per_minute (negsuc n) = 1

-- `RatePolicy`; `none` where no bucket applies.
unfoldable pub rate_policy : ℤ → ViewPolicyConfig → Option Policy
unfolding min_duration per_minute
rate_policy duration_sec cfg =
    if ltb_ℤ duration_sec (min_duration cfg)
    then none
    else some (record {
      capacity = per_minute duration_sec;
      leak_per_minute = per_minute duration_sec;
      ttl_seconds = 3600;
    })

-- A known length that is no shorter than the minimum, in range.
pub required_watch_ms_known :
    (n : ℕ) (cfg : ViewPolicyConfig)
    → 0 < n
    → n * 1000 < 2 ^ 63
    → ltb_ℤ (pos n) (min_duration cfg) ≡ false
    → required_watch_ms (pos n) cfg ≡ pos (n * 1000 / 3)
unfolding required_watch_ms
required_watch_ms_known n cfg p h long = ground (arith, wrap_small (n * 1000) h)

-- A length of 0 is unknown; a shorter one than the minimum is treated so.
pub required_watch_ms_unknown :
    (d : ℤ) (cfg : ViewPolicyConfig)
    → (leb_ℤ d (pos 0) ≡ true) ⊎ (ltb_ℤ d (min_duration cfg) ≡ true)
    → required_watch_ms d cfg ≡ cfg.unknown_min_watch_ms
unfolding required_watch_ms
required_watch_ms_unknown d cfg h = ground arith

pub min_duration_pos : (cfg : ViewPolicyConfig) → ltb_ℤ (pos 0) (min_duration cfg) ≡ true
unfolding min_duration
min_duration_pos cfg = ground arith

quotient_bound : (n : ℕ) → 0 < n → 60 / n * n ≤ 60
quotient_bound n h = omega (arith, mul-div-le 60 n)

per_minute_bounds :
    (n : ℕ)
    → 0 < n
    → (1 ≤ per_minute (pos n))
      × (per_minute (pos n) ≤ 60)
      × ((per_minute (pos n) * n ≤ 60) ⊎ (per_minute (pos n) ≡ 1))
unfolding per_minute
per_minute_bounds n h = elim (Bool-cases (leb 1 (60 / n))) [
  | inl some_fit ↦ rw some_fit (ground arith, div-le_self 60 n, inl (quotient_bound n h))
  | inr none_fits ↦ rw none_fits (omega arith, omega arith, inr refl)
]

-- Where a bucket applies, the length is known and positive, the leak in a minute is the capacity,
-- which is from 1 to 60, and so many full watches fit in a minute, unless the capacity is 1.
pub rate_policy_bounds :
    (d : ℤ) (cfg : ViewPolicyConfig) (p : Policy)
    → rate_policy d cfg ≡ some p
    → (n : ℕ) × (d ≡ pos n)
      × (0 < n)
      × (p.leak_per_minute ≡ p.capacity)
      × (1 ≤ p.capacity)
      × (p.capacity ≤ 60)
      × ((p.capacity * n ≤ 60) ⊎ (p.capacity ≡ 1))
unfolding rate_policy
rate_policy_bounds (negsuc n) cfg p h = absurd (ground arith)
rate_policy_bounds (pos n) cfg p h =
    let k : 0 < n = ground arith in
    let e : p.capacity ≡ per_minute (pos n) = ground arith in
    let b = per_minute_bounds n k in (n, refl, k, ground arith, rw e (b.0), rw e (b.1), rw e (b.2))
