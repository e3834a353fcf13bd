-- ===== src/Feed/Push/Newest.antt =====
-- What the sorted set of the feed holds.
use vidmerce.Prelude.{
  ℕ, zero, suc, ◌<◌, ◌≤◌, ◌≡◌, ◌≢◌, refl, sym, ap, ◌∙◌, true, List, [], ◌∷◌, ◌++◌, map, some, take,
  All, arith, take-take, All-map, All-middle,
}
use mathlib.Core.Path.{subst}
use mathlib.Core.List.{append-nil, append_assoc}
use vidmerce.Uuid.{UuidText, beq-to_string}
use vidmerce.Redis.Sorted.{SortedSets, outranks, place, without, add_each}
use vidmerce.Feed.{Video, feed_page, visible, is_zero, zero_cursor}
use vidmerce.Feed.Push.{
  feed_global_key, score_for, entry, publish, added, both, nothing, warmup, load,
}
use vidmerce.Feed.Push.Agreement.{IsModern}

-- A video that a new one comes before.
abbrev pub IsOlder : Video → Video → Type 0
IsOlder v w = (w.created_at < v.created_at) × (w.id ≢ v.id)

-- Strictly newest first, and no two videos of one identifier.
abbrev pub IsChronological : List Video → Type 0
IsChronological [] = Unit
IsChronological (v ∷ vs) = All (IsOlder v) vs × IsChronological vs

take-cons-take :
    (cap n : ℕ) (v : Video) (vs : List Video)
    → cap ≤ n
    → take cap (v ∷ take n vs) ≡ take cap (v ∷ vs)
take-cons-take zero n v vs h = refl
take-cons-take (suc c) n v vs h = ap (◌∷◌ v) (take-take c n vs (omega arith))

pub All-take : (P : Video → Type 0) (n : ℕ) (vs : List Video) → All P vs → All P (take n vs)
All-take P zero vs h = tt
All-take P (suc n) [] h = tt
All-take P (suc n) (v ∷ vs) h = (h.0, All-take P n vs h.1)

after-IsOlder :
    (seen : List Video) (v : Video) (vs : List Video)
    → IsChronological (seen ++ v ∷ vs)
    → All (λ w. IsOlder w v) seen
after-IsOlder [] v vs h = tt
after-IsOlder (w ∷ seen) v vs h =
    (All-middle (IsOlder w) seen v vs h.0, after-IsOlder seen v vs h.1)

pub IsChronological-take :
    (n : ℕ) (vs : List Video) → IsChronological vs → IsChronological (take n vs)
IsChronological-take zero vs h = tt
IsChronological-take (suc n) [] h = tt
IsChronological-take (suc n) (v ∷ vs) h =
    (All-take (IsOlder v) n vs h.0, IsChronological-take n vs h.1)

feed_page-zero_cursor :
    (cap : ℕ) (table : List Video)
    → cap ≢ 0
    → feed_page true zero_cursor cap table ≡ some (take cap table)
unfolding feed_page visible is_zero
feed_page-zero_cursor cap table h = ground (arith, h)

module _ (T : UuidText) where
  without-absent :
      (v : Video) (vs : List Video)
      → All (λ w. w.id ≢ v.id) vs
      → without (T.to_string v.id) (map (entry T) vs) ≡ map (entry T) vs
  unfolding without entry
  without-absent v [] h = refl
  without-absent v (w ∷ vs) h =
      rw (beq-to_string T w.id v.id) (ground (arith, h.0, without-absent v vs h.1))

  outranks-entry :
      (v w : Video) → IsModern w → IsOlder v w → outranks (entry T v) (entry T w) ≡ true
  unfolding outranks entry score_for
  outranks-entry v w m h = ground (arith, m, h.0)

  place-newest :
      (v : Video) (vs : List Video)
      → All IsModern vs
      → All (IsOlder v) vs
      → place (entry T v) (map (entry T) vs) ≡ map (entry T) (v ∷ vs)
  unfolding place
  place-newest v [] m h = refl
  place-newest v (w ∷ vs) m h = rw (outranks-entry v w m.0 h.0) refl

  take-map : (n : ℕ) (vs : List Video) → take n (map (entry T) vs) ≡ map (entry T) (take n vs)
  take-map zero vs = refl
  take-map (suc n) [] = refl
  take-map (suc n) (v ∷ vs) = ap (◌∷◌ (entry T v)) (take-map n vs)

  place-oldest :
      (v : Video) (vs : List Video)
      → IsModern v
      → All (λ w. IsOlder w v) vs
      → place (entry T v) (map (entry T) vs) ≡ map (entry T) (vs ++ v ∷ [])
  unfolding place outranks entry score_for
  place-oldest v [] m h = refl
  place-oldest v (w ∷ vs) m h = ground (arith, m, h.0, place-oldest v vs m h.1)

  -- What reached the server of a pipeline that publishes a video, newer than those in the table,
  -- which were created since 1970, and with an identifier of its own, decides what the sorted set holds, if it held the newest n
  -- videos of the table, n at least `cap`: nothing, the same; the first command, one more; both,
  -- the newest `cap` with the published one first.
  pub publish-newest :
      (Z : SortedSets) (cap n : ℕ) (v : Video) (table : List Video) (s : Z.Store)
      → cap ≤ n
      → All IsModern table
      → All (IsOlder v) table
      → Z.ranked feed_global_key s ≡ map (entry T) (take n table)
      → (Z.ranked feed_global_key (publish T Z cap nothing v s) ≡ map (entry T) (take n table))
        × (Z.ranked feed_global_key (publish T Z cap added v s)
            ≡ map (entry T) (take (suc n) (v ∷ table)))
        × (Z.ranked feed_global_key (publish T Z cap both v s)
            ≡ map (entry T) (take cap (v ∷ table)))
  unfolding publish add_each
  publish-newest Z cap n v table s h m o r =
      let older : All (IsOlder v) (take n table) = All-take (IsOlder v) n table o in
      let placed : add_each (entry T v ∷ []) (map (entry T) (take n table))
          ≡ map (entry T) (v ∷ take n table) =
        unfold entry in
        (ap (place (entry T v)) (
            without-absent v (take n table)
              (All-map (IsOlder v) (λ w. w.id ≢ v.id) (take n table) (λ w p. p.1) older))
          ∙ place-newest v (take n table) (All-take IsModern n table m) older) in
      let grown =
        Z.ranked-z_add feed_global_key (entry T v ∷ []) s
        ∙ (ap (add_each (entry T v ∷ [])) r ∙ placed) in
      (
        r,
        grown,
        Z.ranked-z_rem_range_by_rank feed_global_key cap
              (Z.z_add feed_global_key (entry T v ∷ []) s)
            ∙ (ap (take cap) grown
                ∙ (take-map cap (v ∷ take n table)
                    ∙ ap (map (entry T)) (take-cons-take cap n v table h))),
      )

  add_each-chronological :
      (seen vs : List Video)
      → IsChronological (seen ++ vs)
      → All IsModern vs
      → add_each (map (entry T) vs) (map (entry T) seen) ≡ map (entry T) (seen ++ vs)
  unfolding add_each entry
  add_each-chronological seen [] h m = ap (map (entry T)) (sym (append-nil seen))
  add_each-chronological seen (v ∷ vs) h m =
      let older : All (λ w. IsOlder w v) seen = after-IsOlder seen v vs h in
      ap (add_each (map (entry T) vs)) (
        ap (place (entry T v)) (
          without-absent v seen
            (All-map (λ w. IsOlder w v) (λ w. w.id ≢ v.id) seen (λ w p e. p.1 (sym e)) older))
        ∙ place-oldest v seen m.0 older)
      ∙ (add_each-chronological (seen ++ v ∷ []) vs
            (subst IsChronological (sym (append_assoc seen (v ∷ []) vs)) h) m.1
          ∙ ap (map (entry T)) (append_assoc seen (v ∷ []) vs))

  load-newest :
      (Z : SortedSets) (rows : List Video) (s : Z.Store)
      → IsChronological rows
      → All IsModern rows
      → Z.ranked feed_global_key s ≡ []
      → ((load T Z true rows s).0 ≡ true)
        × (Z.ranked feed_global_key (load T Z true rows s).1 ≡ map (entry T) rows)
  unfolding load
  load-newest Z [] s c m r = (refl, r)
  load-newest Z (v ∷ vs) s c m r = (
    refl,
    Z.ranked-z_add feed_global_key (map (entry T) (v ∷ vs)) s
        ∙ (ap (add_each (map (entry T) (v ∷ vs))) r ∙ add_each-chronological [] (v ∷ vs) c m),
  )

  -- Warming up an empty sorted set from a table that is strictly newest first, its videos created
  -- since 1970 and of different identifiers, succeeds and leaves the newest `cap` videos, when
  -- the database and Redis answer and `cap` is positive.
  pub warmup-newest :
      (Z : SortedSets) (cap : ℕ) (table : List Video) (s : Z.Store)
      → cap ≢ 0
      → IsChronological table
      → All IsModern table
      → Z.ranked feed_global_key s ≡ []
      → ((warmup T Z cap true true table s).0 ≡ true)
        × (Z.ranked feed_global_key (warmup T Z cap true true table s).1
            ≡ map (entry T) (take cap table))
  unfolding warmup
  warmup-newest Z size table s h c m r =
      rw (feed_page-zero_cursor size table h, warmup)
        (load-newest Z (take size table) s (IsChronological-take size table c)
          (All-take IsModern size table m) r)
