-- ===== src/Like/Repository/Settled.antt =====
-- Two databases with the same edges have the same counters.
use vidmerce.Prelude.{
  ℕ, suc, ◌-◌, ◌≡◌, ◌∙◌, refl, sym, ap, Bool, true, false, List, [], ◌∷◌, Option, none, some, inl,
  inr, arith, Option-cases,
}
use vidmerce.Uuid.{Uuid}
use vidmerce.Like.Service.{Op, like, unlike}
use vidmerce.Like.Repository.{
  Row, Db, has_edge, delete_edge, stored, set_count, apply_like, apply_unlike, apply, edges_of,
}
use vidmerce.Like.Repository.Counts.{
  IsKeyed, IsSound, after, has_edge-delete_edge, delete_edge-IsKeyed, edges_of-delete_edge,
  stored-eq-edges_of,
}

edges_of-none :
    (v : Uuid) (fs : List (Uuid × Uuid))
    → ((x y : Uuid) → has_edge x y fs ≡ false)
    → edges_of v fs ≡ 0
unfolding edges_of has_edge
edges_of-none v [] h = refl
edges_of-none v ((y, z) ∷ fs) h = absurd (ground (arith, h y z))

-- Without duplicates, the number of edges of a video depends on which edges there are only.
pub edges_of-ext :
    (v : Uuid) (es fs : List (Uuid × Uuid))
    → IsKeyed es
    → IsKeyed fs
    → ((x y : Uuid) → has_edge x y es ≡ has_edge x y fs)
    → edges_of v es ≡ edges_of v fs
unfolding edges_of has_edge
edges_of-ext v [] fs k l h = sym (edges_of-none v fs (λ x y. sym (h x y)))
edges_of-ext v ((y, z) ∷ es) fs k l h =
    let there : has_edge y z fs ≡ true = ground (arith, h y z) in
    let rest =
      edges_of-ext v es (delete_edge y z fs) k.1 (delete_edge-IsKeyed y z fs l)
        (λ a b. ground (arith, h a b, has_edge-delete_edge y z a b fs, k.0)) in
    ground (arith, rest, edges_of-delete_edge y z v fs l there)

-- Whether there is a counter.
abbrev pub has_count : Option ℕ → Bool
has_count none = false
has_count (some n) = true

stored-set_count :
    (f : ℕ → ℕ) (v w now : ℕ) (rs : List Row)
    → has_count (stored v (set_count f w now rs)) ≡ has_count (stored v rs)
unfolding stored set_count
stored-set_count f v w now [] = refl
stored-set_count f v w now (r ∷ rs) = ground (arith, stored-set_count f v w now rs)

-- A statement neither adds nor removes a counter.
pub apply-has_count :
    (up : Bool) (u w : Uuid) (op : Op) (now : ℕ) (d : Db) (v : Uuid)
    → has_count (stored v (after d (apply up u w op now d)).video_stats)
      ≡ has_count (stored v d.video_stats)
unfolding apply apply_like apply_unlike
apply-has_count true u w like now d v = ground (arith, stored-set_count suc v w now d.video_stats)
apply-has_count true u w unlike now d v =
    ground (arith, stored-set_count (λ n. n - 1) v w now d.video_stats)
apply-has_count false u w op now d v = refl

-- Where the counters are exact and no edge stands twice, the same edges mean the same counter.
pub stored-ext :
    (v : Uuid) (d e : Db)
    → IsSound d
    → IsSound e
    → ((x y : Uuid) → has_edge x y d.likes ≡ has_edge x y e.likes)
    → has_count (stored v d.video_stats) ≡ has_count (stored v e.video_stats)
    → stored v d.video_stats ≡ stored v e.video_stats
stored-ext v d e s t h rows = elim (Option-cases (stored v d.video_stats)) [
  | inl n ↦ elim (Option-cases (stored v e.video_stats)) [
    | inl m ↦ n ∙ sym m
    | inr (b, m) ↦ absurd (cc (rw (n, m) at rows))
  ]
  | inr (a, n) ↦ elim (Option-cases (stored v e.video_stats)) [
    | inl m ↦ absurd (cc (rw (n, m) at rows))
    | inr (b, m) ↦
        let p = stored-eq-edges_of v d.likes d.video_stats a s.exact n in
        let q = stored-eq-edges_of v e.likes e.video_stats b t.exact m in
        n ∙ ap some (p ∙ edges_of-ext v d.likes e.likes s.keyed t.keyed h ∙ sym q) ∙ sym m
  ]
]
