-- ===== src/View/Filters/Rates.antt =====
-- What the two filters of the program let through.
use native.Mathlib.Nat.{mul-le-mul_right}
use vidmerce.Prelude.{
  ℕ, ◌+◌, ◌*◌, ◌/◌, ◌^◌, ◌≤◌, ◌<◌, ◌≡◌, ◌⊎◌, ap, refl, Bool, false, List, some, Bytes, inl, inr,
  arith, ltb,
}
use vidmerce.Prelude.Int.{ℤ, pos, negsuc, ltb_ℤ}
use vidmerce.Redis.{Redis}
use vidmerce.RateLimit.{Policy, unit, lifetime}
use vidmerce.RateLimit.Levels.{IsWithin}
use vidmerce.RateLimit.Conformance.{admitted, total, IsDraining, conformance}
use vidmerce.View.{Input}
use vidmerce.View.Policy.{
  ViewPolicyConfig, required_watch_ms, min_duration, required_watch_ms_known, rate_policy,
  rate_policy_bounds,
}
use vidmerce.View.Filters.{watch_threshold_allow}

watch_pos :
    (cfg : ViewPolicyConfig) (i : Input) (n w : ℕ)
    → i.duration_sec ≡ pos n
    → i.watch_ms ≡ pos w
    → 0 < n
    → required_watch_ms (pos n) cfg ≡ pos (n * 1000 / 3)
    → (watch_threshold_allow cfg i).allowed ≡ ltb (n * 1000) (3 * w + 3)
unfolding watch_threshold_allow
watch_pos cfg i n w d e p k = rw (d, e, k) (ground arith)

-- Three times the reported time, in milliseconds, is more than the length less three milliseconds; a
-- negative time is too short.
abbrev pub is_third : ℕ → ℤ → Bool
is_third n (pos w) = ltb (n * 1000) (3 * w + 3)
is_third n (negsuc w) = false

third :
    (cfg : ViewPolicyConfig) (i : Input) (n : ℕ) (watched : ℤ)
    → i.watch_ms ≡ watched
    → i.duration_sec ≡ pos n
    → 0 < n
    → n * 1000 < 2 ^ 63
    → ltb_ℤ (pos n) (min_duration cfg) ≡ false
    → (watch_threshold_allow cfg i).allowed ≡ is_third n watched
unfolding watch_threshold_allow
third cfg i n (pos w) e d p h long =
    watch_pos cfg i n w d e p (required_watch_ms_known n cfg p h long)
third cfg i n (negsuc w) e d p h long =
    let k = required_watch_ms_known n cfg p h long in rw (d, e, k) (ground arith)

-- A view of a video of known length, of at least the shortest length that is limited, passes exactly
-- when three times the reported time, in milliseconds, is more than the length less three
-- milliseconds; a negative time never passes.
pub watch_threshold_third :
    (cfg : ViewPolicyConfig) (i : Input) (n : ℕ)
    → i.duration_sec ≡ pos n
    → 0 < n
    → n * 1000 < 2 ^ 63
    → ltb_ℤ (pos n) (min_duration cfg) ≡ false
    → (watch_threshold_allow cfg i).allowed ≡ is_third n i.watch_ms
watch_threshold_third cfg i n d p h long = third cfg i n i.watch_ms refl d p h long

-- A bucket that RatePolicy sizes drains in a minute, and lives for an hour.
rate_policy-IsDraining :
    (R : Redis) (key : Bytes) (d : ℤ) (cfg : ViewPolicyConfig) (p : Policy)
    → rate_policy d cfg ≡ some p
    → IsDraining R key p
unfolding rate_policy lifetime
rate_policy-IsDraining R key d cfg p e =
    let live : p.ttl_seconds ≡ 3600 = ground arith in
    let same : p.leak_per_minute ≡ p.capacity = ground arith in rw (live, same) (omega arith)

-- From a level within the capacity, a bucket that RatePolicy sizes lets in any minute at most 120
-- seconds of full watches through, or at most two views.
pub minute_bound :
    (R : Redis) (key : Bytes) (d : ℤ) (cfg : ViewPolicyConfig) (p : Policy) (now : ℕ) (gs : List ℕ)
    (s : R.Store)
    → rate_policy d cfg ≡ some p
    → IsWithin p.capacity (R.hm_get key s)
    → total gs ≤ 60_000
    → (n : ℕ) × (d ≡ pos n)
      × ((admitted R key p now gs s * n ≤ 120) ⊎ (admitted R key p now gs s ≤ 2))
minute_bound R key d cfg p now gs s e within minute =
    let (n, f, pos_n, same, one, sixty, fits) = rate_policy_bounds d cfg p e in
    let a = admitted R key p now gs s in
    let leak : total gs * p.capacity ≤ 60_000 * p.capacity = mul-le-mul_right p.capacity minute in
    let leak_same : total gs * p.leak_per_minute ≡ total gs * p.capacity =
      ap (λ x. total gs * x) same in
    let c : a * unit ≤ p.capacity * unit + total gs * p.capacity = omega (
      arith,
      conformance R key p now gs s (rate_policy-IsDraining R key d cfg p e) within,
      leak_same,
    ) in
    let twice : a ≤ 2 * p.capacity = omega arith in
    (
      n,
      f,
      elim fits [
        | inl full ↦ inl (omega (arith, mul-le-mul_right n twice))
        | inr only ↦ inr (omega arith)
      ],
    )
