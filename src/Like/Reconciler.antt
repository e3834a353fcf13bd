-- ===== src/Like/Reconciler.antt =====
-- internal/like/reconciler.go: a pass over a sample of the counters. Other processes may write
-- between the statements of a pass, so what they do is an argument.
pub mod Passes
use vidmerce.Prelude.{
  ℕ, zero, suc, ◌+◌, Bool, true, false, List, [], ◌∷◌, Option, none, some, if◌then◌else◌, ◌==◌,
}
use vidmerce.Prelude.Int.{ℤ, pos, negsuc}
use vidmerce.Uuid.{Uuid}
use vidmerce.Like.Repository.{Db, count, count_from_edges, reconcile_counter, sample_video_ids}

pub record Tally : Type 0 where
  pub checked : ℕ
  pub drifted : ℕ
  pub corrected : ℕ

-- What happens around the three statements for one video: whether each gets through, and what
-- others write before the second and before the third.
pub record Round : Type 0 where
  pub count_up : Bool
  pub edges_up : Bool
  pub write_up : Bool
  pub between_reads : Db → Db
  pub before_write : Db → Db
  pub now : ℕ

-- After `ReconcileCounter`.
corrected_by : Tally → Db → Option (ℕ × Db) → Tally × Db
corrected_by t d none = (t, d)
corrected_by t d (some (n, d')) = (record t { corrected = t.corrected + n }, d')

-- The comparison of the stored with the exact count.
compared : Round → Uuid → ℕ → ℕ → Tally → Db → Tally × Db
unfolding corrected_by
compared r v stored exact t d =
    let t₁ = record t { checked = t.checked + 1 } in
    let t₂ = record t₁ { drifted = t₁.drifted + 1 } in
    let d' = r.before_write d in
    if stored == exact
    then (t₁, d)
    else corrected_by t₂ d' (reconcile_counter r.write_up v exact r.now d')

-- The loop's body.
unfoldable pub check_one : Round → Uuid → Tally × Db → Tally × Db
unfolding compared
check_one r v (t, d) = elim (count r.count_up v d) [
  | none ↦ (t, d)
  | some stored ↦
      let d' = r.between_reads d in
      elim (count_from_edges r.edges_up v d') [
        | none ↦ (t, d')
        | some exact ↦ compared r v stored exact t d'
      ]
]

unfoldable pub check_all : (Uuid → Round) → List Uuid → Tally × Db → Tally × Db
check_all env [] s = s
check_all env (v ∷ vs) s = check_all env vs (check_one (env v) v s)

abbrev pub no_tally : Tally
no_tally = record { checked = 0; drifted = 0; corrected = 0 }

-- `Once`; an error of the sampling ends the pass.
unfoldable pub once : Bool → ℕ → (Uuid → Round) → Db → Option Tally × Db
once sample_up sample env d = elim (sample_video_ids sample_up sample d) [
  | none ↦ (none, d)
  | some ids ↦ let r = check_all env ids (no_tally, d) in (some r.0, r.1)
]

-- `NewReconciler`: the size of a sample.
unfoldable pub new_reconciler : ℤ → ℕ
new_reconciler (pos zero) = 200
new_reconciler (pos (suc n)) = suc n
new_reconciler (negsuc n) = 200

-- A pass: what others wrote since the last, and what happens around its statements.
pub record Pass : Type 0 where
  pub before : Db → Db
  pub sample_up : Bool
  pub env : Uuid → Round

-- `Run`: the initial pass, and one for each tick until the context is done; errors are logged.
unfoldable pub run : ℕ → List Pass → Db → Db
run sample [] d = d
run sample (p ∷ ps) d = run sample ps (once p.sample_up sample p.env (p.before d)).1
