-- ===== src/Bloom/Warmups.antt =====
-- A warm filter.
use vidmerce.Prelude.{
  ℕ, suc, ◌≡◌, refl, sym, ap, ◌∙◌, Bool, true, false, List, [], ◌∷◌, ◌++◌, Option, some, Bytes, leb,
  length, Bool-cases, inl, inr, arith, All, All-map,
}
use mathlib.Core.List.{append_assoc, append-nil}
use vidmerce.Bloom.{Blooms, bf_madd, init, add_batch, warm, warm_rows, warmup, may_contain}

module _ (B : Blooms) where
  open B use {Store}

  bf_madd-append :
      (k : Bytes) (ms ns : List Bytes) (s : Store)
      → bf_madd B k (ms ++ ns) s ≡ bf_madd B k ns (bf_madd B k ms s)
  unfolding bf_madd
  bf_madd-append k [] ns s = refl
  bf_madd-append k (m ∷ ms) ns s = bf_madd-append k ms ns (B.bf_add k m s)

  add_batch-bf_madd :
      (k : Bytes) (ms : List Bytes) (s : Store) → add_batch B true k ms s ≡ (true, bf_madd B k ms s)
  unfolding add_batch bf_madd
  add_batch-bf_madd k [] s = refl
  add_batch-bf_madd k (m ∷ ms) s = refl

  warm-below :
      (batch : ℕ) (up : ℕ → Bool) (i : ℕ) (k : Bytes) (buf : List Bytes) (r : Bytes)
      (rows : List Bytes) (s : Store)
      → leb batch (length (buf ++ r ∷ [])) ≡ false
      → warm B batch true up i k buf (r ∷ rows) s ≡ warm B batch true up i k (buf ++ r ∷ []) rows s
  unfolding warm
  warm-below batch up i k buf r rows s h = ground (arith, h)

  warm-reached :
      (batch : ℕ) (up : ℕ → Bool) (i : ℕ) (k : Bytes) (buf : List Bytes) (r : Bytes)
      (rows : List Bytes) (s : Store)
      → leb batch (length (buf ++ r ∷ [])) ≡ true
      → up i ≡ true
      → warm B batch true up i k buf (r ∷ rows) s
        ≡ warm B batch true up (suc i) k [] rows (bf_madd B k (buf ++ r ∷ []) s)
  unfolding warm
  warm-reached batch up i k buf r rows s h u =
      ground (arith, h, u, add_batch-bf_madd k (buf ++ r ∷ []) s)

  -- However the rows are cut into batches, all of them are added.
  warm-bf_madd :
      (batch : ℕ) (up : ℕ → Bool) (i : ℕ) (k : Bytes) (buf rows : List Bytes) (s : Store)
      → ((j : ℕ) → up j ≡ true)
      → warm B batch true up i k buf rows s ≡ (true, bf_madd B k (buf ++ rows) s)
  unfolding warm
  warm-bf_madd batch up i k buf [] s h = rw (h i, append-nil buf) (add_batch-bf_madd k buf s)
  warm-bf_madd batch up i k buf (r ∷ rows) s h =
      let full = buf ++ r ∷ [] in
      let again : full ++ rows ≡ buf ++ r ∷ rows = append_assoc buf (r ∷ []) rows in
      elim (Bool-cases (leb batch (length full))) [
        | inr below ↦
            warm-below batch up i k buf r rows s below
            ∙ (warm-bf_madd batch up i k full rows s h ∙ ap (λ x. (true, bf_madd B k x s)) again)
        | inl reached ↦
            warm-reached batch up i k buf r rows s reached (h i)
            ∙ (warm-bf_madd batch up (suc i) k [] rows (bf_madd B k full s) h
                ∙ (ap (λ x. (true, x)) (sym (bf_madd-append k full rows s))
                    ∙ ap (λ x. (true, bf_madd B k x s)) again))
      ]

  bf_exists_kept :
      (k m : Bytes) (ms : List Bytes) (s : Store)
      → B.bf_exists k m s ≡ true
      → B.bf_exists k m (bf_madd B k ms s) ≡ true
  unfolding bf_madd
  bf_exists_kept k m [] s h = h
  bf_exists_kept k m (n ∷ ms) s h =
      bf_exists_kept k m ms (B.bf_add k n s) (B.bf_exists_still k m n s h)

  bf_madd-All :
      (k : Bytes) (ms : List Bytes) (s : Store)
      → All (λ m. B.bf_exists k m (bf_madd B k ms s) ≡ true) ms
  unfolding bf_madd
  bf_madd-All k [] s = tt
  bf_madd-All k (m ∷ ms) s = (
    bf_exists_kept k m ms (B.bf_add k m s) (B.bf_exists-bf_add k m s),
    bf_madd-All k ms (B.bf_add k m s),
  )

  -- Warming up a filter in batches does what adding each member that the query returned does, and
  -- succeeds, once the filter is initialised, when the rows end well and every batch gets through;
  -- each of the members is then found where Redis answers.
  pub warmup-bf_madd :
      (reserved : Option Bytes) (info_up : Bool) (up : ℕ → Bool) (k : Bytes) (capacity : ℕ)
      (rows : List Bytes) (s t : Store)
      → ((j : ℕ) → up j ≡ true)
      → init B reserved info_up k capacity s ≡ (true, t)
      → (warmup B reserved info_up true up k capacity (some rows) s ≡ (true, bf_madd B k rows t))
        × All (λ m. may_contain B true k m (bf_madd B k rows t) ≡ some true) rows
  unfolding warmup warm_rows may_contain
  warmup-bf_madd reserved info_up up k capacity rows s t h e = (
    rw e (warm-bf_madd 5000 up 0 k [] rows t h),
    All-map (λ m. B.bf_exists k m (bf_madd B k rows t) ≡ true)
        (λ m. some (B.bf_exists k m (bf_madd B k rows t)) ≡ some true) rows (λ m p. ap some p)
        (bf_madd-All k rows t),
  )
