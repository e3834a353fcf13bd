-- ===== src/RateLimit/Conformance.antt =====
-- How much a bucket lets through over time.
use native.Mathlib.Nat.{mul-le-mul_right}
use vidmerce.Prelude.{
  ℕ, suc, ◌+◌, ◌-◌, ◌*◌, ◌≤◌, ◌≡◌, true, List, [], ◌∷◌, Option, none, some, Bytes, if◌then◌else◌,
  arith, refl, leb, ◌==◌, Option-cases, Bool-cases, inl, inr, ◌⊎◌,
}
use vidmerce.Redis.{Redis}
use vidmerce.RateLimit.{Policy, unit, leaked_level, decide, allow, lifetime, expired}
use vidmerce.RateLimit.Levels.{
  IsWithin, is_allowed, allow-hm_get, allow-decide, leaked_level-le, allow-IsWithin,
}

-- Requests of cost 1: each comes so many milliseconds after the one before.
abbrev pub total : List ℕ → ℕ
total [] = 0
total (g ∷ gs) = g + total gs

module _ (R : Redis) where
  -- How many of the requests are allowed, where the bucket expires between them.
  unfoldable pub admitted : Bytes → Policy → ℕ → List ℕ → R.Store → ℕ
  admitted key p now [] s = 0
  admitted key p now (g ∷ gs) s =
      let r = allow R true key p 1 (now + g) (expired R key (lifetime p) (now + g) s) in
      let rest = admitted key p (now + g) gs r.1 in if is_allowed r.0 then suc rest else rest

-- Waiting lowers a level by at most the leak.
leaked_level-wait :
    (leak now g : ℕ) (b : Option (ℕ × ℕ))
    → leaked_level leak now b ≤ leaked_level leak (now + g) b + g * leak
unfolding leaked_level
leaked_level-wait leak now g none = omega arith
leaked_level-wait leak now g (some (level, last)) =
    let le : now + g - last ≤ now - last + g = omega arith in
    omega (arith, mul-le-mul_right leak le)

leaked_level-now : (leak now level : ℕ) → leaked_level leak now (some (level, now)) ≡ level
unfolding leaked_level
leaked_level-now leak now level = let z : now - now ≡ 0 = omega arith in rw z (omega arith)

-- What a decision adds to the level.
decide_adds :
    (capacity leak level : ℕ)
    → let d = decide capacity leak 1 level in d.1 ≡ level + (if d.0.allowed then unit else 0)
unfolding decide
decide_adds capacity leak level = ground arith

module _ (R : Redis) (key : Bytes) (p : Policy) where
  -- A full bucket drains within the policy's time to live, or within an hour if that is not set.
  abbrev pub IsDraining : Type 0
  IsDraining =
      p.capacity * unit
      ≤ (if p.ttl_seconds == 0 then 3600 else p.ttl_seconds) * 1000 * p.leak_per_minute

  expired-cases :
      (now : ℕ) (s : R.Store)
      → (expired R key (lifetime p) now s ≡ s)
        ⊎ ((level : ℕ) × (last : ℕ) × (R.hm_get key s ≡ some (level, last))
            × (lifetime p * 1000 ≤ now - last)
            × (R.hm_get key (expired R key (lifetime p) now s) ≡ none))
  unfolding expired
  expired-cases now s = elim (Option-cases (R.hm_get key s)) [
    | inl fresh ↦ inl (ground (arith, fresh))
    | inr ((level, last), held) ↦ elim (Bool-cases (leb (lifetime p * 1000) (now - last))) [
      | inr live ↦ inl (ground (arith, held, live))
      | inl late ↦
          inr (
            level,
            last,
            held,
            ground (arith, late),
            ground (arith, held, late, R.hm_get-del key s),
          )
    ]
  ]

  expired-IsWithin :
      (now : ℕ) (s : R.Store)
      → IsWithin p.capacity (R.hm_get key s)
      → IsWithin p.capacity (R.hm_get key (expired R key (lifetime p) now s))
  expired-IsWithin now s h = elim (expired-cases now s) [
    | inl same ↦ rw same h
    | inr (level, last, held, long, gone) ↦ rw gone tt
  ]

  -- A bucket that has expired had drained before.
  leaked_level-expired :
      (now : ℕ) (s : R.Store)
      → IsDraining
      → IsWithin p.capacity (R.hm_get key s)
      → leaked_level p.leak_per_minute now (R.hm_get key (expired R key (lifetime p) now s))
        ≡ leaked_level p.leak_per_minute now (R.hm_get key s)
  unfolding leaked_level lifetime
  leaked_level-expired now s drains h = elim (expired-cases now s) [
    | inl same ↦ rw same refl
    | inr (level, last, held, long, gone) ↦
        let full : level ≤ p.capacity * unit = rw held at h in
        rw (gone, held) (omega (arith, full, drains, mul-le-mul_right p.leak_per_minute long))
  ]

  admitted_within :
      (now : ℕ) (gs : List ℕ) (s : R.Store)
      → IsDraining
      → IsWithin p.capacity (R.hm_get key s)
      → admitted R key p now gs s * unit + leaked_level p.leak_per_minute now (R.hm_get key s)
        ≤ p.capacity * unit + total gs * p.leak_per_minute
  unfolding admitted
  admitted_within now [] s drains h =
      omega (arith, leaked_level-le p.capacity p.leak_per_minute now (R.hm_get key s) h)
  admitted_within now (g ∷ gs) s drains h =
      let leak = p.leak_per_minute in
      let t = expired R key (lifetime p) (now + g) s in
      let s' = (allow R true key p 1 (now + g) t).1 in
      let level = leaked_level leak (now + g) (R.hm_get key t) in
      let rest =
        admitted_within (now + g) gs s' drains
          (allow-IsWithin R true key p 1 (now + g) t (expired-IsWithin (now + g) s h)) in
      ground (
        arith,
        rest,
        leaked_level-expired (now + g) s drains h,
        allow-hm_get R key p 1 (now + g) t,
        allow-decide R key p 1 (now + g) t,
        decide_adds p.capacity leak level,
        leaked_level-now leak (now + g) (decide p.capacity leak 1 level).1,
        leaked_level-wait leak now g (R.hm_get key s),
      )

  -- From a level within the capacity, in any window, of any length and with any requests of cost
  -- 1 in it, the bucket lets through at most its capacity and what leaks in that time, in exact
  -- arithmetic: also where it expires between requests, if a full bucket drains within the time to
  -- live of the policy, or within an hour if the policy has none.
  pub conformance :
      (now : ℕ) (gs : List ℕ) (s : R.Store)
      → IsDraining
      → IsWithin p.capacity (R.hm_get key s)
      → admitted R key p now gs s * unit ≤ p.capacity * unit + total gs * p.leak_per_minute
  conformance now gs s drains h = omega (arith, admitted_within now gs s drains h)
