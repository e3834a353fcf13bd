-- ===== src/Like/Reconciler/Passes.antt =====
-- What a pass of the reconciler does, alone and beside the worker.
use vidmerce.Prelude.{
  ℕ, suc, ◌+◌, ◌≡◌, ◌≢◌, refl, true, false, List, [], ◌∷◌, Option, none, some, if◌then◌else◌, ◌==◌,
  arith, inl, inr, Option-cases,
}
use vidmerce.Uuid.{Uuid}
use vidmerce.Like.Service.{like}
use vidmerce.Like.Repository.{
  Db, Row, count, count_from_edges, reconcile_counter, sample_video_ids, stored, edges_of, rewrite,
  contains, has_edge, apply, apply_like, set_count,
}
use vidmerce.Like.Repository.Counts.{
  IsSound, IsKnown, after, stored-eq-edges_of, apply-IsKnown, apply-has_edge,
}
use vidmerce.Like.Reconciler.{Tally, Round, check_one, check_all, once, no_tally}

-- Nobody else writes, and every statement gets through.
abbrev pub IsQuiet : Round → Type 0
IsQuiet r =
    (r.count_up ≡ true)
    × (r.edges_up ≡ true)
    × (r.write_up ≡ true)
    × ((d : Db) → r.between_reads d ≡ d)
    × ((d : Db) → r.before_write d ≡ d)

-- A counter that is there becomes the number of edges.
abbrev pub set_exact : Option ℕ → ℕ → Option ℕ
set_exact none n = none
set_exact (some m) n = some n

stored-rewrite :
    (v exact now w : ℕ) (rs : List Row)
    → stored w (rewrite v exact now rs)
      ≡ (if v == w then set_exact (stored w rs) exact else stored w rs)
unfolding stored rewrite
stored-rewrite v exact now w [] = ground arith
stored-rewrite v exact now w (r ∷ rs) = ground (arith, stored-rewrite v exact now w rs)

-- One round, alone.
check_one-stored :
    (r : Round) (v w : Uuid) (t : Tally) (d : Db)
    → IsQuiet r
    → let d' = (check_one r v (t, d)).1 in
      (stored w d'.video_stats ≡ (
        if v == w
        then set_exact (stored w d.video_stats) (edges_of w d.likes)
        else stored w d.video_stats))
      × (d'.likes ≡ d.likes)
unfolding check_one count count_from_edges reconcile_counter
check_one-stored r v w t d (c, e, x, b₁, b₂) = elim (Option-cases (stored v d.video_stats)) [
  | inl miss ↦ ground arith
  | inr (n, hit) ↦
      ground (arith, b₁ d, b₂ d, stored-rewrite v (edges_of v d.likes) r.now w d.video_stats)
]

set_exact_twice : (o : Option ℕ) (n : ℕ) → set_exact (set_exact o n) n ≡ set_exact o n
set_exact_twice none n = refl
set_exact_twice (some m) n = refl

module _ (env : Uuid → Round) (quiet : (v : Uuid) → IsQuiet (env v)) where
  check_all-stored :
      (vs : List Uuid) (w : Uuid) (t : Tally) (d : Db)
      → let d' = (check_all env vs (t, d)).1 in
        (stored w d'.video_stats ≡ (
          if contains w vs
          then set_exact (stored w d.video_stats) (edges_of w d.likes)
          else stored w d.video_stats))
        × (d'.likes ≡ d.likes)
  unfolding check_all contains
  check_all-stored [] w t d = (refl, refl)
  check_all-stored (v ∷ vs) w t d =
      let s = check_one (env v) v (t, d) in
      let one = check_one-stored (env v) v w t d (quiet v) in
      let rest = check_all-stored vs w s.0 s.1 in
      ground (arith, one, rest, set_exact_twice (stored w d.video_stats) (edges_of w d.likes))

  -- A pass that nobody disturbs, and whose statements get through, sets the counter of every
  -- sampled video that has one to the number of its edges, and leaves every other counter and the
  -- edges alone.
  pub once-stored :
      (sample : ℕ) (d : Db) (ids : List Uuid) (w : Uuid)
      → sample_video_ids true sample d ≡ some ids
      → let d' = (once true sample env d).1 in
        (stored w d'.video_stats ≡ (
          if contains w ids
          then set_exact (stored w d.video_stats) (edges_of w d.likes)
          else stored w d.video_stats))
        × (d'.likes ≡ d.likes)
  unfolding once
  once-stored sample d ids w e = rw (e, once) (check_all-stored ids w no_tally d)

  check_one_sound :
      (v : Uuid) (t : Tally) (d : Db)
      → IsSound d
      → ((check_one (env v) v (t, d)).1 ≡ d)
        × ((check_one (env v) v (t, d)).0.drifted ≡ t.drifted)
        × ((check_one (env v) v (t, d)).0.corrected ≡ t.corrected)
  unfolding check_one count count_from_edges
  check_one_sound v t d s = elim (Option-cases (stored v d.video_stats)) [
    | inl miss ↦ let q = quiet v in ground arith
    | inr (n, hit) ↦
        let q = quiet v in
        ground (arith, q.3 d, q.4 d, stored-eq-edges_of v d.likes d.video_stats n s.exact hit)
  ]

  check_all_sound :
      (vs : List Uuid) (t : Tally) (d : Db)
      → IsSound d
      → ((check_all env vs (t, d)).1 ≡ d)
        × ((check_all env vs (t, d)).0.drifted ≡ t.drifted)
        × ((check_all env vs (t, d)).0.corrected ≡ t.corrected)
  unfolding check_all
  check_all_sound [] t d s = (refl, refl, refl)
  check_all_sound (v ∷ vs) t d s =
      let r = check_one (env v) v (t, d) in
      let one = check_one_sound v t d s in
      ground (arith, one, check_all_sound vs r.0 r.1 (rw one.0 s))

  -- Where no edge stands twice and the counters are exact, an undisturbed pass whose statements
  -- get through finds no drift and writes nothing.
  pub once_sound :
      (sample : ℕ) (d : Db) (ids : List Uuid)
      → sample_video_ids true sample d ≡ some ids
      → IsSound d
      → (t : Tally) × (once true sample env d ≡ (some t, d)) × (t.drifted ≡ 0) × (t.corrected ≡ 0)
  unfolding once
  once_sound sample d ids e s =
      let r = check_all env ids (no_tally, d) in
      let h = check_all_sound ids no_tally d s in (r.0, rw (e, once) (ground (arith, h)), h.1, h.2)

stored-set_count :
    (f : ℕ → ℕ) (v now n : ℕ) (rs : List Row)
    → stored v rs ≡ some n
    → stored v (set_count f v now rs) ≡ some (f n)
unfolding stored set_count
stored-set_count f v now n [] e = cc
stored-set_count f v now n (r ∷ rs) e = ground (arith, stored-set_count f v now n rs)

-- A like that was not there adds one to the counter and one to the edges.
like_new :
    (u v now n : ℕ) (d : Db)
    → IsKnown u v d
    → has_edge u v d.likes ≡ false
    → stored v d.video_stats ≡ some n
    → let d' = after d (apply true u v like now d) in
      (stored v d'.video_stats ≡ some (n + 1)) × (edges_of v d'.likes ≡ edges_of v d.likes + 1)
unfolding apply apply_like edges_of
like_new u v now n d k new e = ground (arith, stored-set_count suc v now n d.video_stats e)

-- A round between two likes.
abbrev pub racing : Uuid → Uuid → Uuid → ℕ → Round
racing u₁ u₂ v now = record {
  count_up = true;
  edges_up = true;
  write_up = true;
  between_reads = λ d. after d (apply true u₁ v like now d);
  before_write = λ d. after d (apply true u₂ v like now d);
  now = now;
}

-- Let no edge stand twice and the counters be exact. When one new like of a video lands after the
-- reconciler read its counter, and another user's after it counted the edges, the write of the
-- reconciler makes the counter wrong: one less than the number of edges.
pub race :
    (u₁ u₂ v now : ℕ) (d : Db) (t : Tally) (n : ℕ)
    → IsSound d
    → IsKnown u₁ v d
    → IsKnown u₂ v d
    → u₁ ≢ u₂
    → has_edge u₁ v d.likes ≡ false
    → has_edge u₂ v d.likes ≡ false
    → stored v d.video_stats ≡ some n
    → let d' = (check_one (racing u₁ u₂ v now) v (t, d)).1 in
      (stored v d'.video_stats ≡ some (n + 1)) × (edges_of v d'.likes ≡ n + 2)
unfolding check_one count count_from_edges reconcile_counter
race u₁ u₂ v now d t n s k₁ k₂ ne e₁ e₂ e =
    let d₁ = after d (apply true u₁ v like now d) in
    let d₂ = after d₁ (apply true u₂ v like now d₁) in
    let (c₁, x₁) = like_new u₁ v now n d k₁ e₁ e in
    let k : IsKnown u₂ v d₁ = apply-IsKnown true u₁ v like now d u₂ v k₂ in
    let f : has_edge u₂ v d₁.likes ≡ false =
      ground (arith, apply-has_edge u₁ v like now d u₂ v k₁) in
    let (c₂, x₂) = like_new u₂ v now (n + 1) d₁ k f c₁ in
    ground (
      arith,
      stored-eq-edges_of v d.likes d.video_stats n s.exact e,
      stored-rewrite v (edges_of v d₁.likes) now v d₂.video_stats,
      c₁,
      x₁,
      c₂,
      x₂,
    )
