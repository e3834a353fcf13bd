-- ===== src/View/Filters.antt =====
-- internal/view/filter.go and filters.go: the chain of spam filters. A filter may change the state,
-- which is Redis here; the names and reasons are the source's.
pub mod Chains
pub mod Rates
use vidmerce.Prelude.{
  ℕ, Bool, true, false, List, [], ◌∷◌, ◌++◌, Option, none, some, Bytes, text, map, if◌then◌else◌,
}
use vidmerce.Prelude.Int.{ℤ, pos, leb_ℤ, ltb_ℤ}
use vidmerce.Uuid.{UuidText}
use vidmerce.Redis.{Redis}
use vidmerce.RateLimit.{Policy, allow}
use vidmerce.RateLimit
use vidmerce.View.{Input, subject_key}
use vidmerce.View.Policy.{ViewPolicyConfig, required_watch_ms, rate_policy}

-- Whether the event may pass, and the reason if not.
pub record Verdict : Type 0 where
  pub allowed : Bool
  pub reason : Bytes

abbrev pub pass : Verdict
pass = record { allowed = true; reason = [] }

abbrev pub reject : Bytes → Verdict
reject r = record { allowed = false; reason = r }

pub record Filter {ℓ} (S : Type ℓ) : Type ℓ where
  pub name : Bytes
  pub allow : Input → S → Verdict × S

module _ {ℓ} {S : Type ℓ} where
  -- `Chain.Apply`: the first filter to reject ends the loop.
  unfoldable pub apply : List (Filter S) → Input → S → Verdict × S
  apply [] i s = (pass, s)
  apply (f ∷ fs) i s =
      let r = f.allow i s in
      let rest = apply fs i r.1 in
      if r.0.allowed then rest else (reject (f.name ++ (text ":" ++ r.0.reason)), r.1)

  -- `Names`
  unfoldable pub names : List (Filter S) → List Bytes
  names fs = map (λ f. f.name) fs

-- `WatchThresholdFilter.Allow`
unfoldable pub watch_threshold_allow : ViewPolicyConfig → Input → Verdict
watch_threshold_allow cfg i =
    let need = required_watch_ms i.duration_sec cfg in
    if leb_ℤ need (pos 0)
    then pass
    else if ltb_ℤ i.watch_ms need
    then reject (text "below_threshold")
    else pass

abbrev pub watch_threshold {ℓ} : {S : Type ℓ} → ViewPolicyConfig → Filter S
watch_threshold cfg = record {
  name = text "watch_threshold";
  allow = λ i s. (watch_threshold_allow cfg i, s);
}

-- `NewMinWatchTimeFilter`
unfoldable pub min_watch_time {ℓ} : {S : Type ℓ} → ℤ → Filter S
min_watch_time min_ms =
    if leb_ℤ min_ms (pos 0)
    then watch_threshold (record { unknown_min_watch_ms = pos 0; min_duration_sec = pos 1 })
    else watch_threshold (record { unknown_min_watch_ms = min_ms; min_duration_sec = pos 1 })

-- The filter's own reading of the bucket's answer.
unfoldable pub rate_verdict : Bool → Option RateLimit.Result → Verdict
rate_verdict fail_open none = if fail_open then pass else reject (text "infra_error")
rate_verdict fail_open (some r) = if r.allowed then pass else reject (text "rate_limited")

module _ (T : UuidText) (R : Redis) where
  unfoldable pub bucket_key : Input → Bytes
  bucket_key i = text "bucket:view:" ++ (subject_key T i ++ (text ":" ++ T.to_string i.video_id))

  unfoldable pub limited : Bool → Bool → ℕ → Option Policy → Input → R.Store → Verdict × R.Store
  unfolding rate_verdict
  limited fail_open up now none i s = (pass, s)
  limited fail_open up now (some p) i s =
      let r = allow R up (bucket_key i) p 1 now s in (rate_verdict fail_open r.0, r.1)

  -- `DurationRateFilter.Allow`, with the clock's reading and whether the bucket answers.
  unfoldable pub duration_rate_allow :
      ViewPolicyConfig → Bool → Bool → ℕ → Input → R.Store → Verdict × R.Store
  unfolding limited
  duration_rate_allow cfg fail_open up now i s =
      limited fail_open up now (rate_policy i.duration_sec cfg) i s

  abbrev pub duration_rate : ViewPolicyConfig → Bool → Bool → ℕ → Filter R.Store
  duration_rate cfg fail_open up now = record {
    name = text "duration_rate";
    allow = duration_rate_allow cfg fail_open up now;
  }

  -- `NewLeakyBucketFilter`: the policy that it is given is ignored.
  unfoldable pub leaky_bucket : Policy → Bool → Bool → ℕ → Filter R.Store
  leaky_bucket policy fail_open up now =
      duration_rate (record { min_duration_sec = pos 5; unknown_min_watch_ms = pos 0 }) fail_open up
        now
