-- ===== src/Feed/Push/Agreement.antt =====
-- The feed from the sorted set, against the feed from the table.
use vidmerce.Prelude.{
  ℕ, zero, suc, ◌+◌, ◌≤◌, ◌≡◌, refl, ap, ◌∙◌, true, List, [], ◌∷◌, map, none, some, inl, inr, ltb,
  take, All, arith, Bool-cases, ◌==◌,
}
use mathlib.Core.List.{Sublistᴰ, Permᴰ}
use vidmerce.Uuid.{UuidText}
use vidmerce.Redis.Sorted.{Entry, SortedSets, is_below, below, member}
use vidmerce.Feed.{
  Video, Cursor, is_zero, Codec, is_before, rows_before, visible, feed_page, cut_page, paged, fetch,
}
use vidmerce.Feed.Push.{
  feed_global_key, unix_epoch, score_for, entry, bound, parse_each, restored, hydrate, push_fetch,
}
use vidmerce.Feed.Push.Order.{
  ids_of, HasDistinctIds, HasDistinctIds-sublist, selected-sublist, sort_by_order-perm,
}
use vidmerce.Video.Repository.{find_by_ids}

-- What was created since 1970.
abbrev pub IsModern : Video → Type 0
IsModern v = unix_epoch ≤ v.created_at

-- A video of the cursor's time is the cursor's own.
abbrev pub IsApart : Cursor → Video → Type 0
IsApart c v = v.created_at ≡ c.created_at → v.id ≡ c.id

below-none : (es : List Entry) → below none es ≡ es
unfolding below is_below
below-none [] = refl
below-none ((m, x) ∷ es) = ap (◌∷◌ (m, x)) (below-none es)

is_before-IsApart :
    (c : Cursor) (v : Video)
    → IsModern v
    → IsApart c v
    → is_before c v ≡ ltb (score_for v.created_at) (score_for c.created_at)
unfolding is_before score_for
is_before-IsApart c v m a = ground (arith, m, a)

module _ (T : UuidText) where
  below-rows_before :
      (c : Cursor) (vs : List Video)
      → All IsModern vs
      → All (IsApart c) vs
      → below (some (score_for c.created_at)) (map (entry T) vs) ≡ map (entry T) (rows_before c vs)
  unfolding below is_below rows_before entry
  below-rows_before c [] m a = refl
  below-rows_before c (v ∷ vs) m a =
      rw (is_before-IsApart c v m.0 a.0) (ground (arith, below-rows_before c vs m.1 a.1))

  below-visible :
      (c : Cursor) (vs : List Video)
      → All IsModern vs
      → All (IsApart c) vs
      → below (bound c) (map (entry T) vs) ≡ map (entry T) (visible c vs)
  unfolding bound visible
  below-visible c vs m a = elim (Bool-cases (is_zero c)) [
    | inl z ↦ rw z (below-none (map (entry T) vs))
    | inr n ↦ rw n (below-rows_before c vs m a)
  ]

  members-take :
      (n : ℕ) (vs : List Video)
      → map member (take n (map (entry T) vs)) ≡ map (λ v. T.to_string v.id) (take n vs)
  unfolding entry
  members-take zero vs = refl
  members-take (suc n) [] = refl
  members-take (suc n) (v ∷ vs) = ap (◌∷◌ (T.to_string v.id)) (members-take n vs)

  parse_each-to_string :
      (vs : List Video) → parse_each T (map (λ v. T.to_string v.id) vs) ≡ ids_of vs
  unfolding parse_each
  parse_each-to_string [] = refl
  parse_each-to_string (v ∷ vs) =
      rw (T.parse-to_string v.id) (ap (◌∷◌ v.id) (parse_each-to_string vs))

take_nil : (n : ℕ) → ◌≡◌ {A = List Video} (take n []) []
take_nil zero = refl
take_nil (suc n) = refl

take-Sublist : (n : ℕ) (xs ys : List Video) → Sublistᴰ xs ys → Sublistᴰ (take n xs) ys
take-Sublist n [] [] Sublistᴰ.slnil = rw (take_nil n) Sublistᴰ.slnil
take-Sublist n xs (y ∷ ys) (Sublistᴰ.cons s) = Sublistᴰ.cons (take-Sublist n xs ys s)
take-Sublist n (x ∷ xs) [] s = elim s [ ]
take-Sublist zero (x ∷ xs) (y ∷ ys) (Sublistᴰ.cons-cons e s) =
    Sublistᴰ.cons (take-Sublist zero xs ys s)
take-Sublist (suc n) (x ∷ xs) (y ∷ ys) (Sublistᴰ.cons-cons e s) =
    Sublistᴰ.cons-cons e (take-Sublist n xs ys s)

Sublist-self : (xs : List Video) → Sublistᴰ xs xs
Sublist-self [] = Sublistᴰ.slnil
Sublist-self (x ∷ xs) = Sublistᴰ.cons-cons refl (Sublist-self xs)

rows_before-Sublist :
    (c : Cursor) (xs ys : List Video) → Sublistᴰ xs ys → Sublistᴰ (rows_before c xs) ys
unfolding rows_before
rows_before-Sublist c [] [] Sublistᴰ.slnil = Sublistᴰ.slnil
rows_before-Sublist c xs (y ∷ ys) (Sublistᴰ.cons s) = Sublistᴰ.cons (rows_before-Sublist c xs ys s)
rows_before-Sublist c (x ∷ xs) [] s = elim s [ ]
rows_before-Sublist c (x ∷ xs) (y ∷ ys) (Sublistᴰ.cons-cons e s) =
    elim (Bool-cases (is_before c x)) [
      | inl h ↦ rw h (Sublistᴰ.cons-cons e (rows_before-Sublist c xs ys s))
      | inr h ↦ rw h (Sublistᴰ.cons (rows_before-Sublist c xs ys s))
    ]

visible-Sublist : (c : Cursor) (xs ys : List Video) → Sublistᴰ xs ys → Sublistᴰ (visible c xs) ys
unfolding visible
visible-Sublist c xs ys s = elim (Bool-cases (is_zero c)) [
  | inl z ↦ rw z s
  | inr n ↦ rw n (rows_before-Sublist c xs ys s)
]

-- A page that was found is hydrated to the same videos.
hydrate-page :
    (K : Codec) (T : UuidText) (arrange : List Video → List Video) (limit : ℕ)
    (page table : List Video)
    → ((vs : List Video) → Permᴰ (arrange vs) vs)
    → HasDistinctIds table
    → Sublistᴰ page table
    → hydrate K T arrange true limit table (map (λ v. T.to_string v.id) page)
      ≡ some (cut_page K limit page)
unfolding hydrate restored find_by_ids cut_page
hydrate-page K T arrange limit [] table arranged d s = ground arith
hydrate-page K T arrange limit (v ∷ page) table arranged d s =
    ap (λ ids. restored K limit ids (find_by_ids arrange true ids table))
      (parse_each-to_string T (v ∷ page))
    ∙ (ap (λ rows. restored K limit (ids_of (v ∷ page)) (some (arrange rows)))
          (selected-sublist (v ∷ page) table s d)
        ∙ ap (λ rows. some (cut_page K limit rows))
            (sort_by_order-perm (arrange (v ∷ page)) (v ∷ page) (arranged (v ∷ page))
              (HasDistinctIds-sublist (v ∷ page) table s d)))

-- While the sorted set holds the newest `cap` videos, created since 1970, a page read from it is
-- the page that the query gives for those videos, whatever the order in which the database
-- returns the rows of the identifiers: for each cursor whose time no other of those videos has,
-- and with no two videos of one identifier.
pub push_fetch-fetch :
    (K : Codec) (T : UuidText) (Z : SortedSets) (arrange : List Video → List Video) (cap limit : ℕ)
    (c : Cursor) (table : List Video) (s : Z.Store)
    → ((vs : List Video) → Permᴰ (arrange vs) vs)
    → Z.ranked feed_global_key s ≡ map (entry T) (take cap table)
    → HasDistinctIds table
    → All IsModern (take cap table)
    → All (IsApart c) (take cap table)
    → push_fetch K T Z arrange true true c limit table s ≡ fetch K true c limit (take cap table)
unfolding push_fetch fetch paged feed_page
push_fetch-fetch K T Z arrange cap limit c table s arranged r d m a =
    let page = take (limit + 1) (visible c (take cap table)) in
    let found : Z.z_rev_range_by_score feed_global_key (bound c) (limit + 1) s
        ≡ map (λ v. T.to_string v.id) page =
      Z.z_rev_range_by_score_lem feed_global_key (bound c) (limit + 1) s
      ∙ (rw r (
          rw (below-visible T c (take cap table) m a)
            (members-take T (limit + 1) (visible c (take cap table))))) in
    let part = take-Sublist (limit + 1) (visible c (take cap table)) table (
      visible-Sublist c (take cap table) table
        (take-Sublist cap table table (Sublist-self table))) in
    elim (Bool-cases (limit == 0)) [
      | inl z ↦ rw z refl
      | inr n ↦
          rw (n, found, hydrate-page K T arrange limit page table arranged d part) (ground arith)
    ]
