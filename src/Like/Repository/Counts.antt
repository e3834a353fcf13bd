-- ===== src/Like/Repository/Counts.antt =====
-- The edges and the counters after each statement.
use vidmerce.Prelude.{
  ℕ, suc, ◌+◌, ◌-◌, ◌≡◌, refl, Bool, true, false, ◌&&◌, not, List, [], ◌∷◌, Option, none, some,
  if◌then◌else◌, ◌==◌, inl, inr, arith, Bool-cases, All,
}
use vidmerce.Uuid.{Uuid}
use vidmerce.Like.Service.{Op, like, unlike}
use vidmerce.Like.Service.Effects.{wanted}
use vidmerce.Like.Repository.{
  Row, Db, has_edge, delete_edge, contains, stored, set_count, apply_like, apply_unlike, apply,
  edges_of,
}

-- No edge stands twice: the primary key of `likes`.
abbrev pub IsKeyed : List (Uuid × Uuid) → Type 0
IsKeyed [] = Unit
IsKeyed ((x, y) ∷ es) = (has_edge x y es ≡ false) × IsKeyed es

pub has_edge-delete_edge :
    (u v w x : Uuid) (es : List (Uuid × Uuid))
    → has_edge w x (delete_edge u v es) ≡ (if u == w && v == x then false else has_edge w x es)
unfolding has_edge delete_edge
has_edge-delete_edge u v w x [] = ground arith
has_edge-delete_edge u v w x ((y, z) ∷ es) = ground (arith, has_edge-delete_edge u v w x es)

pub delete_edge-IsKeyed :
    (u v : Uuid) (es : List (Uuid × Uuid)) → IsKeyed es → IsKeyed (delete_edge u v es)
unfolding delete_edge
delete_edge-IsKeyed u v [] k = tt
delete_edge-IsKeyed u v ((y, z) ∷ es) k =
    ground (arith, delete_edge-IsKeyed u v es k.1, has_edge-delete_edge u v y z es)

edges_of-delete_none :
    (u v w : Uuid) (es : List (Uuid × Uuid))
    → has_edge u v es ≡ false
    → edges_of w (delete_edge u v es) ≡ edges_of w es
unfolding edges_of delete_edge has_edge
edges_of-delete_none u v w [] h = refl
edges_of-delete_none u v w ((y, z) ∷ es) h = ground (arith, edges_of-delete_none u v w es)

pub edges_of-delete_edge :
    (u v w : Uuid) (es : List (Uuid × Uuid))
    → IsKeyed es
    → has_edge u v es ≡ true
    → edges_of w (delete_edge u v es) + (if w == v then 1 else 0) ≡ edges_of w es
unfolding edges_of delete_edge has_edge
edges_of-delete_edge u v w [] k h = cc
edges_of-delete_edge u v w ((y, z) ∷ es) k h =
    ground (arith, edges_of-delete_edge u v w es k.1, edges_of-delete_none u v w es)

-- Each counter of a video with a row equals the number of its edges.
abbrev pub IsExact : List (Uuid × Uuid) → List Row → Type 0
IsExact es = All (λ r. r.likes_count ≡ edges_of r.video_id es)

pub record IsSound (d : Db) : Type 0 where
  pub keyed : IsKeyed d.likes
  pub exact : IsExact d.likes d.video_stats

set_count-IsExact :
    (f : ℕ → ℕ) (v now : ℕ) (es fs : List (Uuid × Uuid)) (rs : List Row)
    → ((w : Uuid) → edges_of w fs ≡ (if v == w then f (edges_of w es) else edges_of w es))
    → IsExact es rs
    → IsExact fs (set_count f v now rs)
unfolding set_count
set_count-IsExact f v now es fs [] e h = tt
set_count-IsExact f v now es fs (r ∷ rs) e h =
    ground (arith, e r.video_id, set_count-IsExact f v now es fs rs e h.1)

-- The database after a statement; one that fails changes nothing.
abbrev pub after {ℓ} : {A : Type ℓ} → Db → Option (A × Db) → Db
after d none = d
after d (some (a, d')) = d'

like-IsSound : (u v now : ℕ) (d : Db) → IsSound d → IsSound (after d (apply_like u v now d))
unfolding apply_like
like-IsSound u v now d s = elim (Bool-cases (has_edge u v d.likes)) [
  | inl old ↦ rw old s
  | inr new ↦ elim (Bool-cases (contains u d.users && contains v d.videos)) [
    | inl known ↦
        rw (new, known)
          (record {
            keyed = (new, s.keyed);
            exact =
                set_count-IsExact suc v now d.likes ((u, v) ∷ d.likes) d.video_stats
                  (λ w. unfold edges_of in ground arith) s.exact;
          })
    | inr unknown ↦ rw (new, unknown) s
  ]
]

unlike-IsSound : (u v now : ℕ) (d : Db) → IsSound d → IsSound (after d (apply_unlike u v now d))
unfolding apply_unlike
unlike-IsSound u v now d s = elim (Bool-cases (has_edge u v d.likes)) [
  | inl old ↦ rw old (record {
    keyed = delete_edge-IsKeyed u v d.likes s.keyed;
    exact =
        set_count-IsExact (λ n. n - 1) v now d.likes (delete_edge u v d.likes) d.video_stats
          (λ w. ground (arith, edges_of-delete_edge u v w d.likes s.keyed old)) s.exact;
  })
  | inr new ↦ rw new s
]

-- If no edge stands twice and every counter is exact, then so it is after each statement, whether
-- it gets through or not.
pub apply-IsSound :
    (up : Bool) (u v : Uuid) (op : Op) (now : ℕ) (d : Db)
    → IsSound d
    → IsSound (after d (apply up u v op now d))
unfolding apply
apply-IsSound true u v like now d s = like-IsSound u v now d s
apply-IsSound true u v unlike now d s = unlike-IsSound u v now d s
apply-IsSound false u v op now d s = s

-- The references of an edge.
abbrev pub IsKnown : Uuid → Uuid → Db → Type 0
IsKnown u v d = (contains u d.users ≡ true) × (contains v d.videos ≡ true)

-- A statement that gets through leaves the edge as its op asks, and every other edge alone.
pub apply-has_edge :
    (u v : Uuid) (op : Op) (now : ℕ) (d : Db) (w x : Uuid)
    → IsKnown u v d
    → has_edge w x (after d (apply true u v op now d)).likes
      ≡ (if u == w && v == x then wanted op else has_edge w x d.likes)
unfolding apply apply_like apply_unlike has_edge
apply-has_edge u v like now d w x known = ground arith
apply-has_edge u v unlike now d w x known = ground (arith, has_edge-delete_edge u v w x d.likes)

-- Whether it gets through or not, a statement leaves every edge but its own alone.
pub apply-other :
    (up : Bool) (u v : Uuid) (op : Op) (now : ℕ) (d : Db) (w x : Uuid)
    → (u == w && v == x) ≡ false
    → has_edge w x (after d (apply up u v op now d)).likes ≡ has_edge w x d.likes
unfolding apply apply_like apply_unlike has_edge
apply-other true u v like now d w x other = ground arith
apply-other true u v unlike now d w x other = ground (arith, has_edge-delete_edge u v w x d.likes)
apply-other false u v op now d w x other = refl

-- Users and videos are never written here.
pub apply-IsKnown :
    (up : Bool) (u v : Uuid) (op : Op) (now : ℕ) (d : Db) (w x : Uuid)
    → IsKnown w x d
    → IsKnown w x (after d (apply up u v op now d))
unfolding apply apply_like apply_unlike
apply-IsKnown true u v like now d w x known = ground arith
apply-IsKnown true u v unlike now d w x known = ground arith
apply-IsKnown false u v op now d w x known = known

-- Whether an op has something to do, given whether the edge is there.
abbrev pub changes : Op → Bool → Bool
changes like present = not present
changes unlike present = present

pub stored-eq-edges_of :
    (v : Uuid) (es : List (Uuid × Uuid)) (rs : List Row) (n : ℕ)
    → IsExact es rs
    → stored v rs ≡ some n
    → n ≡ edges_of v es
unfolding stored
stored-eq-edges_of v es [] n h e = cc
stored-eq-edges_of v es (r ∷ rs) n h e = ground (arith, stored-eq-edges_of v es rs n h.1)

-- Where no edge stands twice and the counters are exact, and the user and the video exist and the
-- video has a counter, a statement that gets through tells whether an edge changed, and the
-- number of edges of the video afterwards.
pub apply-Result :
    (u v : Uuid) (op : Op) (now : ℕ) (d : Db) (n : ℕ)
    → IsSound d
    → IsKnown u v d
    → stored v d.video_stats ≡ some n
    → let did = changes op (has_edge u v d.likes) in
      let d' = after d (apply true u v op now d) in
      apply true u v op now d
      ≡ some (record { changed = did; new_count = edges_of v d'.likes; was_noop = not did }, d')
unfolding apply apply_like apply_unlike edges_of
apply-Result u v like now d n s known e =
    ground (arith, stored-eq-edges_of v d.likes d.video_stats n s.exact e)
apply-Result u v unlike now d n s known e = ground (
  arith,
  stored-eq-edges_of v d.likes d.video_stats n s.exact e,
  edges_of-delete_edge u v v d.likes s.keyed,
)
