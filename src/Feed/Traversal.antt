-- ===== src/Feed/Traversal.antt =====
-- Paging through the feed.
use vidmerce.Prelude.{
  ℕ, zero, suc, ◌+◌, ◌≤◌, ◌<◌, ◌≡◌, ◌≢◌, refl, ◌∙◌, ap, sym, true, false, List, [], ◌∷◌, ◌++◌, none,
  some, Bytes, ltb, length, take, drop, All, arith, Bool-cases, inl, inr, length-take,
  take_of_length-le, take-append-drop, All-middle, get_elem?-split, get_elem?-take, take-take,
  length-drop,
}
use mathlib.Core.Path.{subst}
use mathlib.Core.List.{append_assoc}
use vidmerce.Uuid.{uuid_nil}
use vidmerce.Feed.{
  Video, Cursor, zero_cursor, is_zero, cursor_of, Codec, checked, decode_cursor, is_before,
  rows_before, visible, feed_page, Page, encoded, cut_page, paged, fetch,
}

-- Newest first, ties by id.
abbrev pub IsOrdered : List Video → Type 0
IsOrdered [] = Unit
IsOrdered (v ∷ vs) = All (λ w. is_before (cursor_of v) w ≡ true) vs × IsOrdered vs

-- What has an identifier and a time.
abbrev pub IsStored : Video → Type 0
IsStored v = (v.id ≢ uuid_nil) × (v.created_at ≢ 0)

rows_before-All :
    (c : Cursor) (vs : List Video) → All (λ w. is_before c w ≡ true) vs → rows_before c vs ≡ vs
unfolding rows_before
rows_before-All c [] h = refl
rows_before-All c (v ∷ vs) h = rw (h.0) (ap (◌∷◌ v) (rows_before-All c vs h.1))

is_before_self : (v : Video) → is_before (cursor_of v) v ≡ false
unfolding is_before
is_before_self v = ground arith

is_before-flip :
    (v w : Video) → is_before (cursor_of v) w ≡ true → is_before (cursor_of w) v ≡ false
unfolding is_before
is_before-flip v w h = ground arith

-- What is before a video is what follows it.
pub rows_before-suffix :
    (xs : List Video) (x : Video) (ys : List Video)
    → IsOrdered (xs ++ x ∷ ys)
    → rows_before (cursor_of x) (xs ++ x ∷ ys) ≡ ys
unfolding rows_before
rows_before-suffix [] x ys h = rw (is_before_self x) (rows_before-All (cursor_of x) ys h.0)
rows_before-suffix (v ∷ xs) x ys h =
    rw (is_before-flip v x (All-middle (λ w. is_before (cursor_of v) w ≡ true) xs x ys h.0))
      (rows_before-suffix xs x ys h.1)

-- The pages so far, and the rest if there is a cursor.
unfoldable pub followed_by : Bytes → List Video → List Video → List Video
followed_by [] items more = items
followed_by (b ∷ bs) items more = items ++ more

-- A client that follows the cursors, for at most so many pages; an error ends it.
unfoldable pub traverse : Codec → ℕ → ℕ → Bytes → List Video → List Video
unfolding followed_by
traverse K zero limit token table = []
traverse K (suc n) limit token table = elim (decode_cursor K token) [
  | none ↦ []
  | some c ↦ elim (fetch K true c limit table) [
    | none ↦ []
    | some page ↦
        followed_by page.next_cursor page.items (traverse K n limit page.next_cursor table)
  ]
]

-- A page with more behind it ends at the video that its cursor names.
cut_page-long :
    (K : Codec) (k : ℕ) (rest : List Video)
    → suc k < length rest
    → (x : Video) × (cut_page K (suc k) (take (suc k + 1) rest)
        ≡ record { items = take (suc k) rest; next_cursor = K.encode (cursor_of x) })
      × (rest ≡ take k rest ++ x ∷ drop (suc k) rest)
unfolding cut_page encoded
cut_page-long K k rest h =
    let (x, e, f) = get_elem?-split k rest (omega arith) in
    (
      x,
      ground (
        arith,
        length-take (suc k + 1) rest,
        take-take (suc k) (suc k + 1) rest (omega arith),
        get_elem?-take k (suc k + 1) rest (omega arith),
        e,
      ),
      f,
    )

decode_cursor-parse : (K : Codec) (t : Bytes) → t ≢ [] → decode_cursor K t ≡ checked (K.parse t)
unfolding decode_cursor
decode_cursor-parse K [] h = absurd (h refl)
decode_cursor-parse K (b ∷ bs) h = refl

followed_by-cons :
    (t : Bytes) (items more : List Video) → t ≢ [] → followed_by t items more ≡ items ++ more
unfolding followed_by
followed_by-cons [] items more h = absurd (h refl)
followed_by-cons (b ∷ bs) items more h = refl

pub decode_cursor-encode :
    (K : Codec) (v : Video)
    → IsStored v
    → decode_cursor K (K.encode (cursor_of v)) ≡ some (cursor_of v)
unfolding decode_cursor checked
decode_cursor-encode K v h =
    decode_cursor-parse K (K.encode (cursor_of v)) (K.encode-ne-nil (cursor_of v))
    ∙ ground (arith, K.parse-encode (cursor_of v), h.0, h.1)

visible-cursor_of :
    (v : Video) (table : List Video)
    → IsStored v
    → visible (cursor_of v) table ≡ rows_before (cursor_of v) table
unfolding visible is_zero
visible-cursor_of v table h = ground (arith, h.0, h.1)

cut_page-short :
    (K : Codec) (k : ℕ) (rest : List Video)
    → length rest ≤ suc k
    → cut_page K (suc k) (take (suc k + 1) rest) ≡ record { items = rest; next_cursor = [] }
unfolding cut_page
cut_page-short K k rest h =
    rw (take_of_length-le (suc k + 1) rest (omega arith)) (ground (arith, h))

-- One page of the client.
traverse-suc :
    (K : Codec) (n k : ℕ) (token : Bytes) (c : Cursor) (table : List Video) (page : Page)
    → decode_cursor K token ≡ some c
    → cut_page K (suc k) (take (suc k + 1) (visible c table)) ≡ page
    → traverse K (suc n) (suc k) token table
      ≡ followed_by page.next_cursor page.items (traverse K n (suc k) page.next_cursor table)
unfolding traverse fetch paged feed_page
traverse-suc K n k token c table page d p = ground (arith, d, p)

traverse-rest :
    (K : Codec) (n k : ℕ) (token : Bytes) (c : Cursor) (table seen rest : List Video)
    → decode_cursor K token ≡ some c
    → visible c table ≡ rest
    → table ≡ seen ++ rest
    → IsOrdered table
    → All IsStored table
    → length rest ≤ n
    → traverse K n (suc k) token table ≡ rest
unfolding traverse
traverse-rest K zero k token c table seen [] d v t o s h = refl
traverse-rest K zero k token c table seen (x ∷ rest) d v t o s h = absurd (omega arith)
traverse-rest K (suc n) k token c table seen rest d v t o s h =
    elim (Bool-cases (ltb (suc k) (length rest))) [
      | inr short ↦
          traverse-suc K n k token c table (record { items = rest; next_cursor = [] }) d
            (rw v (cut_page-short K k rest (ground (arith, short))))
      | inl long ↦
          let (x, page, split) = cut_page-long K k rest (ground (arith, long)) in
          let longer : suc k < length rest = ground (arith, long) in
          let here : table ≡ (seen ++ take k rest) ++ x ∷ drop (suc k) rest =
            t
            ∙ (ap (λ r. seen ++ r) split
                ∙ sym (append_assoc seen (take k rest) (x ∷ drop (suc k) rest))) in
          let stored : IsStored x =
            All-middle IsStored (seen ++ take k rest) x (drop (suc k) rest)
              (subst (All IsStored) here s) in
          traverse-suc K n k token c table
            (record { items = take (suc k) rest; next_cursor = K.encode (cursor_of x) }) d
            (rw v page)
          ∙ (followed_by-cons (K.encode (cursor_of x)) (take (suc k) rest)
                (traverse K n (suc k) (K.encode (cursor_of x)) table)
                (K.encode-ne-nil (cursor_of x))
              ∙ (ap (λ r. take (suc k) rest ++ r)
                    (traverse-rest K n k (K.encode (cursor_of x)) (cursor_of x) table
                      (seen ++ take (suc k) rest) (drop (suc k) rest)
                      (decode_cursor-encode K x stored)
                      (visible-cursor_of x table stored
                        ∙ (ap (rows_before (cursor_of x)) here
                            ∙ rows_before-suffix (seen ++ take k rest) x (drop (suc k) rest)
                                (subst IsOrdered here o)))
                      (t
                        ∙ (ap (λ r. seen ++ r) (sym (take-append-drop (suc k) rest))
                            ∙ sym (append_assoc seen (take (suc k) rest) (drop (suc k) rest))))
                      o s (omega (arith, length-drop (suc k) rest, h, longer)))
                  ∙ take-append-drop (suc k) rest))
    ]

-- In a table that is ordered and whose videos have an identifier and a time, following the
-- cursors from the start, with any positive limit, shows every video exactly once and newest
-- first: as many pages as there are videos are enough.
pub traverse_complete :
    (K : Codec) (limit : ℕ) (table : List Video)
    → limit ≢ 0
    → IsOrdered table
    → All IsStored table
    → traverse K (length table) limit [] table ≡ table
unfolding decode_cursor visible is_zero
traverse_complete K zero table p o s = absurd (p refl)
traverse_complete K (suc k) table p o s =
    traverse-rest K (length table) k [] zero_cursor table [] table refl refl refl o s (omega arith)
