-- ===== src/Feed/Push/Traversal.antt =====
-- Paging through the feed of the sorted set.
use vidmerce.Prelude.{
  ℕ, zero, suc, ◌+◌, ◌-◌, ◌≡◌, ◌≢◌, refl, ap, ◌∙◌, true, List, [], ◌∷◌, map, none, some, Bytes, ◌⊎◌,
  inl, inr, ltb, length, take, get_elem?, All, arith, Bool-cases, All-map,
}
use mathlib.Core.List.{Permᴰ}
use vidmerce.Uuid.{UuidText}
use vidmerce.Redis.Sorted.{SortedSets}
use vidmerce.Feed.{
  Video, Cursor, is_zero, Codec, decode_cursor, is_before, rows_before, visible, feed_page, Page,
  encoded, cut_page, paged, fetch, cursor_of, zero_cursor,
}
use vidmerce.Feed.Traversal.{
  IsOrdered, IsStored, followed_by, traverse, decode_cursor-encode, traverse_complete,
}
use vidmerce.Feed.Push.{feed_global_key, entry, push_fetch}
use vidmerce.Feed.Push.Order.{HasDistinctIds}
use vidmerce.Feed.Push.Agreement.{IsModern, IsApart, push_fetch-fetch}
use vidmerce.Feed.Push.Newest.{IsOlder, IsChronological, All-take, IsChronological-take}

-- A client that follows the cursors in push mode, for at most so many pages.
unfoldable pub push_traverse :
    Codec
    → UuidText
    → (Z : SortedSets) → (List Video → List Video)
    → ℕ
    → ℕ
    → Bytes
    → List Video
    → Z.Store
    → List Video
unfolding followed_by
push_traverse K T Z arrange zero limit token table s = []
push_traverse K T Z arrange (suc n) limit token table s = elim (decode_cursor K token) [
  | none ↦ []
  | some c ↦ elim (push_fetch K T Z arrange true true c limit table s) [
    | none ↦ []
    | some page ↦
        followed_by page.next_cursor page.items
          (push_traverse K T Z arrange n limit page.next_cursor table s)
  ]
]

older-IsBefore :
    (v : Video) (vs : List Video)
    → All (IsOlder v) vs
    → All (λ w. is_before (cursor_of v) w ≡ true) vs
unfolding is_before
older-IsBefore v [] h = tt
older-IsBefore v (w ∷ vs) h = (ground (arith, h.0), older-IsBefore v vs h.1)

IsChronological-IsOrdered : (vs : List Video) → IsChronological vs → IsOrdered vs
IsChronological-IsOrdered [] h = tt
IsChronological-IsOrdered (v ∷ vs) h = (older-IsBefore v vs h.0, IsChronological-IsOrdered vs h.1)

IsChronological-HasDistinctIds : (vs : List Video) → IsChronological vs → HasDistinctIds vs
IsChronological-HasDistinctIds [] h = tt
IsChronological-HasDistinctIds (v ∷ vs) h = (
  All-map (IsOlder v) (λ w. w.id ≢ v.id) vs (λ w p. p.1) h.0,
  IsChronological-HasDistinctIds vs h.1,
)

-- The cursor of one of the videos separates them by their times.
abbrev IsBoundary : List Video → Video → Type 0
IsBoundary vs x = All (IsApart (cursor_of x)) vs

IsBoundary-cons :
    (v : Video) (vs xs : List Video)
    → All (IsOlder v) xs
    → All (IsBoundary vs) xs
    → All (IsBoundary (v ∷ vs)) xs
IsBoundary-cons v vs [] o b = tt
IsBoundary-cons v vs (x ∷ xs) o b =
    ((λ e. absurd (omega (arith, o.0.0, e)), b.0), IsBoundary-cons v vs xs o.1 b.1)

IsChronological-IsBoundary : (vs : List Video) → IsChronological vs → All (IsBoundary vs) vs
IsChronological-IsBoundary [] h = tt
IsChronological-IsBoundary (v ∷ vs) h = (
  (
    λ e. refl,
    All-map (IsOlder v) (IsApart (cursor_of v)) vs (λ w p e. absurd (omega (arith, p.0, e))) h.0,
  ),
  IsBoundary-cons v vs vs h.0 (IsChronological-IsBoundary vs h.1),
)

rows_before-All :
    (P : Video → Type 0) (c : Cursor) (vs : List Video) → All P vs → All P (rows_before c vs)
unfolding rows_before
rows_before-All P c [] h = tt
rows_before-All P c (v ∷ vs) h = elim (Bool-cases (is_before c v)) [
  | inl b ↦ rw b (h.0, rows_before-All P c vs h.1)
  | inr b ↦ rw b (rows_before-All P c vs h.1)
]

visible-All : (P : Video → Type 0) (c : Cursor) (vs : List Video) → All P vs → All P (visible c vs)
unfolding visible
visible-All P c vs h = elim (Bool-cases (is_zero c)) [
  | inl z ↦ rw z h
  | inr n ↦ rw n (rows_before-All P c vs h)
]

-- A token that leads on is the cursor of one of the videos.
abbrev LeadsOn : Codec → (Video → Type 0) → Bytes → Type 0
LeadsOn K P token = (token ≡ []) ⊎ ((x : Video) × P x × (token ≡ K.encode (cursor_of x)))

encoded-LeadsOn :
    (K : Codec) (P : Video → Type 0) (i : ℕ) (vs : List Video)
    → All P vs
    → LeadsOn K P (encoded K (get_elem? vs i))
unfolding encoded
encoded-LeadsOn K P i [] h = inl refl
encoded-LeadsOn K P zero (v ∷ vs) h = inr (v, h.0, refl)
encoded-LeadsOn K P (suc i) (v ∷ vs) h = encoded-LeadsOn K P i vs h.1

cut_page-LeadsOn :
    (K : Codec) (P : Video → Type 0) (limit : ℕ) (vs : List Video)
    → All P vs
    → LeadsOn K P (cut_page K limit vs).next_cursor
unfolding cut_page
cut_page-LeadsOn K P limit vs h = elim (Bool-cases (ltb limit (length vs))) [
  | inl e ↦ rw e (encoded-LeadsOn K P (limit - 1) vs h)
  | inr e ↦ rw e (inl refl)
]

fetch-LeadsOn :
    (K : Codec) (P : Video → Type 0) (c : Cursor) (k : ℕ) (vs : List Video)
    → All P vs
    → (page : Page) × (fetch K true c (suc k) vs ≡ some page) × LeadsOn K P page.next_cursor
unfolding fetch paged feed_page
fetch-LeadsOn K P c k vs h =
    let rows = take (suc k + 1) (visible c vs) in
    (
      cut_page K (suc k) rows,
      ground arith,
      cut_page-LeadsOn K P (suc k) rows
          (All-take P (suc k + 1) (visible c vs) (visible-All P c vs h)),
    )

module _ (K : Codec) (T : UuidText) (Z : SortedSets) (arrange : List Video → List Video) (cap k : ℕ)
    (table : List Video) (s : Z.Store) (arranged : (vs : List Video) → Permᴰ (arrange vs) vs)
    (holds : Z.ranked feed_global_key s ≡ map (entry T) (take cap table))
    (chronological : IsChronological table) (stored : All IsStored (take cap table))
    (modern : All IsModern (take cap table)) where
  abbrev IsPassable : Video → Type 0
  IsPassable x = IsStored x × IsBoundary (take cap table) x

  passable :
      (xs : List Video) → All IsStored xs → All (IsBoundary (take cap table)) xs → All IsPassable xs
  passable [] p q = tt
  passable (x ∷ xs) p q = ((p.0, q.0), passable xs p.1 q.1)

  -- One page of both clients, and then the next.
  agreement_suc :
      (n : ℕ) (token : Bytes) (c : Cursor)
      → decode_cursor K token ≡ some c
      → All (IsApart c) (take cap table)
      → ((next : Bytes) (items : List Video)
          → LeadsOn K IsPassable next
          → followed_by next items (push_traverse K T Z arrange n (suc k) next table s)
            ≡ followed_by next items (traverse K n (suc k) next (take cap table)))
      → push_traverse K T Z arrange (suc n) (suc k) token table s
        ≡ traverse K (suc n) (suc k) token (take cap table)
  unfolding push_traverse traverse
  agreement_suc n token c d a rest =
      let (page, f, l) = fetch-LeadsOn K IsPassable c k (take cap table) (
        passable (take cap table) stored (
          IsChronological-IsBoundary (take cap table)
            (IsChronological-take cap table chronological))) in
      let same =
        push_fetch-fetch K T Z arrange cap (suc k) c table s arranged holds
          (IsChronological-HasDistinctIds table chronological) modern a in
      ground (arith, d, same, f, rest page.next_cursor page.items l)

  -- Both clients see the same from the start or from a cursor of either.
  agreement :
      (n : ℕ) (token : Bytes) (c : Cursor)
      → decode_cursor K token ≡ some c
      → All (IsApart c) (take cap table)
      → push_traverse K T Z arrange n (suc k) token table s
        ≡ traverse K n (suc k) token (take cap table)
  unfolding push_traverse traverse followed_by
  agreement zero token c d a = refl
  agreement (suc n) token c d a = agreement_suc n token c d a (λ next items l. elim l [
    | inl e ↦ rw e refl
    | inr (x, p, e) ↦
        ap (followed_by next items)
          (agreement n next (cursor_of x) (rw e (decode_cursor-encode K x p.0)) p.1)
  ])

  start-IsApart : (vs : List Video) → All IsStored vs → All (IsApart zero_cursor) vs
  start-IsApart vs h = All-map IsStored (IsApart zero_cursor) vs (λ v p e. absurd (p.1 e)) h

-- While the sorted set holds the newest `cap` videos of a table that is strictly newest first,
-- those videos created since 1970 and with an identifier, and no two of the table with the same,
-- following the cursors in push mode from the start, with any positive limit, shows exactly those
-- videos, each once and newest first, whatever the order in which the database returns rows: as
-- many pages as there are such videos are enough.
pub push_traverse_complete :
    (K : Codec) (T : UuidText) (Z : SortedSets) (arrange : List Video → List Video) (cap limit : ℕ)
    (table : List Video) (s : Z.Store)
    → ((vs : List Video) → Permᴰ (arrange vs) vs)
    → limit ≢ 0
    → Z.ranked feed_global_key s ≡ map (entry T) (take cap table)
    → IsChronological table
    → All IsStored (take cap table)
    → All IsModern (take cap table)
    → push_traverse K T Z arrange (length (take cap table)) limit [] table s ≡ take cap table
unfolding decode_cursor
push_traverse_complete K T Z arrange size zero table s p h r c t m = absurd (h refl)
push_traverse_complete K T Z arrange size (suc k) table s p h r c t m =
    agreement K T Z arrange size k table s p r c t m (length (take size table)) [] zero_cursor refl
      (start-IsApart K T Z arrange size k table s p r c t m (take size table) t)
    ∙ traverse_complete K (suc k) (take size table) h
        (IsChronological-IsOrdered (take size table) (IsChronological-take size table c)) t
