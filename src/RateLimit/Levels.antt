-- ===== src/RateLimit/Levels.antt =====
-- The level of a bucket after a request.
use vidmerce.Prelude.{ℕ, ◌*◌, ◌≤◌, ◌≡◌, refl, Bool, true, false, Option, none, some, Bytes, arith}
use vidmerce.Redis.{Redis}
use vidmerce.RateLimit.{Policy, Result, unit, leaked_level, decide, leaky_bucket_script, allow}

-- The level of a bucket does not pass the capacity.
abbrev pub IsWithin : ℕ → Option (ℕ × ℕ) → Type 0
IsWithin capacity none = Unit {0}
IsWithin capacity (some (level, last)) = level ≤ capacity * unit

pub decide-le :
    (capacity leak cost level : ℕ)
    → level ≤ capacity * unit
    → (decide capacity leak cost level).1 ≤ capacity * unit
unfolding decide
decide-le capacity leak cost level h = ground arith

pub leaked_level-le :
    (capacity leak now : ℕ) (b : Option (ℕ × ℕ))
    → IsWithin capacity b
    → leaked_level leak now b ≤ capacity * unit
unfolding leaked_level
leaked_level-le capacity leak now none h = omega arith
leaked_level-le capacity leak now (some (level, last)) h = omega arith

module _ (R : Redis) where
  pub allow-hm_get :
      (key : Bytes) (p : Policy) (cost now : ℕ) (s : R.Store)
      → R.hm_get key (allow R true key p cost now s).1
        ≡ some (
          (decide p.capacity p.leak_per_minute cost
              (leaked_level p.leak_per_minute now (R.hm_get key s))).1,
          now,
        )
  unfolding allow leaky_bucket_script
  allow-hm_get key p cost now s = rw R.hm_get-expire (rw R.hm_get-hm_set)

  -- A level within the capacity is within it after a request, allowed or not.
  pub allow-IsWithin :
      (up : Bool) (key : Bytes) (p : Policy) (cost now : ℕ) (s : R.Store)
      → IsWithin p.capacity (R.hm_get key s)
      → IsWithin p.capacity (R.hm_get key (allow R up key p cost now s).1)
  allow-IsWithin false key p cost now s h = unfold allow in h
  allow-IsWithin true key p cost now s h = rw (allow-hm_get key p cost now s) (
      decide-le p.capacity p.leak_per_minute cost _
        (leaked_level-le p.capacity p.leak_per_minute now (R.hm_get key s) h))

  pub allow-decide :
      (key : Bytes) (p : Policy) (cost now : ℕ) (s : R.Store)
      → (allow R true key p cost now s).0
        ≡ some
            (decide p.capacity p.leak_per_minute cost
              (leaked_level p.leak_per_minute now (R.hm_get key s))).0
  unfolding allow leaky_bucket_script
  allow-decide key p cost now s = refl

abbrev pub is_allowed : Option Result → Bool
is_allowed none = false
is_allowed (some r) = r.allowed
