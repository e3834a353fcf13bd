-- ===== src/Feed/Push/Order.antt =====
-- Hydrated rows in the order of their identifiers.
use vidmerce.Prelude.{
  ℕ, suc, ◌+◌, ◌<◌, ◌≡◌, ◌≢◌, refl, sym, ap, ◌∙◌, false, List, [], ◌∷◌, map, Option, none, some,
  get_elem?, All, arith, ==_refl,
}
use mathlib.Core.Path.{subst}
use mathlib.Core.List.{Sublistᴰ, Memᴰ, Permᴰ}
use mathlib.Core.List.Permᴰ
use vidmerce.Uuid.{Uuid}
use vidmerce.Feed.{Video}
use vidmerce.Feed.Push.{index_from, or_first, sink, rev_onto, sort_from, sort_by_order}
use vidmerce.Video.Repository.{is_any, selected}

abbrev pub ids_of : List Video → List Uuid
ids_of vs = map (λ v. v.id) vs

-- No two videos have one identifier.
abbrev pub HasDistinctIds : List Video → Type 0
HasDistinctIds [] = Unit
HasDistinctIds (v ∷ vs) = All (λ w. w.id ≢ v.id) vs × HasDistinctIds vs

All-sublist : (P : Video → Type 0) (xs ys : List Video) → Sublistᴰ xs ys → All P ys → All P xs
All-sublist P xs ys Sublistᴰ.slnil h = tt
All-sublist P xs (y ∷ ys) (Sublistᴰ.cons s) h = All-sublist P xs ys s h.1
All-sublist P (x ∷ xs) (y ∷ ys) (Sublistᴰ.cons-cons e s) h =
    (subst P (sym e) h.0, All-sublist P xs ys s h.1)

pub HasDistinctIds-sublist :
    (xs ys : List Video) → Sublistᴰ xs ys → HasDistinctIds ys → HasDistinctIds xs
HasDistinctIds-sublist xs ys Sublistᴰ.slnil h = tt
HasDistinctIds-sublist xs (y ∷ ys) (Sublistᴰ.cons s) h = HasDistinctIds-sublist xs ys s h.1
HasDistinctIds-sublist (x ∷ xs) (y ∷ ys) (Sublistᴰ.cons-cons e s) h = (
  All-sublist (λ w. w.id ≢ x.id) xs ys s
      (subst (λ (v : Video). All (λ w. w.id ≢ v.id) ys) (sym e) h.0),
  HasDistinctIds-sublist xs ys s h.1,
)

is_any-absent : (u : Uuid) (vs : List Video) → All (λ w. w.id ≢ u) vs → is_any u (ids_of vs) ≡ false
unfolding is_any
is_any-absent u [] h = refl
is_any-absent u (v ∷ vs) h = ground (arith, h.0, is_any-absent u vs h.1)

selected-cons :
    (u : Uuid) (ids : List Uuid) (vs : List Video)
    → All (λ w. w.id ≢ u) vs
    → selected (u ∷ ids) vs ≡ selected ids vs
unfolding selected is_any
selected-cons u ids [] h = refl
selected-cons u ids (v ∷ vs) h = ground (arith, h.0, selected-cons u ids vs h.1)

selected-head :
    (v : Video) (ids : List Uuid) (vs : List Video)
    → selected (v.id ∷ ids) (v ∷ vs) ≡ v ∷ selected (v.id ∷ ids) vs
unfolding selected is_any
selected-head v ids vs = ground (arith, ==_refl v.id)

-- The rows of the identifiers of a part of the table are that part.
pub selected-sublist :
    (page table : List Video)
    → Sublistᴰ page table
    → HasDistinctIds table
    → selected (ids_of page) table ≡ page
unfolding selected is_any
selected-sublist page table Sublistᴰ.slnil d = refl
selected-sublist page (v ∷ vs) (Sublistᴰ.cons s) d =
    rw (is_any-absent v.id page (All-sublist (λ w. w.id ≢ v.id) page vs s d.0))
      (selected-sublist page vs s d.1)
selected-sublist (p ∷ page) (v ∷ vs) (Sublistᴰ.cons-cons e s) d =
    ap (λ (x : Video). selected (x.id ∷ ids_of page) (v ∷ vs)) e
    ∙ (selected-head v (ids_of page) vs
        ∙ (ap (◌∷◌ v) (selected-cons v.id (ids_of page) vs d.0 ∙ selected-sublist page vs s d.1)
            ∙ ap (λ (x : Video). x ∷ page) (sym e)))

-- The videos stand at the indices from i.
abbrev IsNumbered : (Uuid → Option ℕ) → ℕ → List Video → Type 0
IsNumbered order i [] = Unit
IsNumbered order i (v ∷ vs) = (order v.id ≡ some i) × IsNumbered order (suc i) vs

index_from-absent :
    (i : ℕ) (u : Uuid) (vs : List Video)
    → All (λ w. w.id ≢ u) vs
    → index_from i (ids_of vs) u ≡ none
unfolding index_from
index_from-absent i u [] h = refl
index_from-absent i u (v ∷ vs) h = rw (index_from-absent (suc i) u vs h.1) (ground (arith, h.0))

IsNumbered-cons :
    (i k : ℕ) (u : Uuid) (ids : List Uuid) (vs : List Video)
    → IsNumbered (index_from (suc i) ids) k vs
    → IsNumbered (index_from i (u ∷ ids)) k vs
unfolding index_from
IsNumbered-cons i k u ids [] h = tt
IsNumbered-cons i k u ids (v ∷ vs) h = (rw (h.0) refl, IsNumbered-cons i (suc k) u ids vs h.1)

pub index_from-IsNumbered :
    (i : ℕ) (vs : List Video) → HasDistinctIds vs → IsNumbered (index_from i (ids_of vs)) i vs
unfolding index_from
index_from-IsNumbered i [] d = tt
index_from-IsNumbered i (v ∷ vs) d = (
  rw (index_from-absent (suc i) v.id vs d.0) (ground arith),
  IsNumbered-cons i (suc i) v.id (ids_of vs) vs (index_from-IsNumbered (suc i) vs d.1),
)

IsNumbered-position :
    (order : Uuid → Option ℕ) (i : ℕ) (v : Video) (vs : List Video)
    → IsNumbered order i vs
    → Memᴰ v vs
    → (j : ℕ) × (order v.id ≡ some (i + j)) × (get_elem? vs j ≡ some v)
IsNumbered-position order i v [] n m = elim m [ ]
IsNumbered-position order i v (w ∷ vs) n (Memᴰ.head e) =
    (0, ap (λ x. order x.id) e ∙ (n.0 ∙ ap some (omega arith)), ap some (sym e))
IsNumbered-position order i v (w ∷ vs) n (Memᴰ.tail m) =
    let (j, e, f) = IsNumbered-position order (suc i) v vs n.1 m in
    (suc j, e ∙ ap some (omega arith), f)

-- Different videos of the list have different indices.
abbrev IsOneToOne : (Uuid → Option ℕ) → List Video → Type 0
IsOneToOne order vs =
    (v w : Video) → Memᴰ v vs → Memᴰ w vs → or_first (order v.id) ≡ or_first (order w.id) → v ≡ w

IsNumbered-IsOneToOne :
    (order : Uuid → Option ℕ) (i : ℕ) (vs : List Video)
    → IsNumbered order i vs
    → IsOneToOne order vs
unfolding or_first
IsNumbered-IsOneToOne order i vs n v w p q e =
    let (j, a, b) = IsNumbered-position order i v vs n p in
    let (k, c, d) = IsNumbered-position order i w vs n q in ground (arith, a, b, c, d, e)

mem-perm : (v : Video) (xs ys : List Video) → Permᴰ xs ys → Memᴰ v ys → Memᴰ v xs
mem-perm v xs ys Permᴰ.nil m = m
mem-perm v (x ∷ xs) (y ∷ ys) (Permᴰ.cons e p) (Memᴰ.head f) = Memᴰ.head (f ∙ sym e)
mem-perm v (x ∷ xs) (y ∷ ys) (Permᴰ.cons e p) (Memᴰ.tail m) = Memᴰ.tail (mem-perm v xs ys p m)
mem-perm v (a ∷ b ∷ l) (c ∷ d ∷ _) (Permᴰ.swap e f) (Memᴰ.head g) =
    Memᴰ.tail (Memᴰ.head (g ∙ sym f))
mem-perm v (a ∷ b ∷ l) (c ∷ d ∷ _) (Permᴰ.swap e f) (Memᴰ.tail (Memᴰ.head g)) =
    Memᴰ.head (g ∙ sym e)
mem-perm v (a ∷ b ∷ l) (c ∷ d ∷ _) (Permᴰ.swap e f) (Memᴰ.tail (Memᴰ.tail m)) =
    Memᴰ.tail (Memᴰ.tail m)
mem-perm v xs zs (Permᴰ.trans {l₂ = ys} p q) m = mem-perm v xs ys p (mem-perm v ys zs q m)

-- Two videos can be placed in either order.
sink-sink :
    (order : Uuid → Option ℕ) (v w : Video) (ps : List Video)
    → (or_first (order v.id) ≡ or_first (order w.id) → v ≡ w)
    → sink order v (sink order w ps) ≡ sink order w (sink order v ps)
unfolding sink
sink-sink order v w [] same = ground (arith, same)
sink-sink order v w (p ∷ ps) same = ground (arith, same, sink-sink order v w ps same)

sort_from-perm :
    (order : Uuid → Option ℕ) (placed xs ys : List Video)
    → Permᴰ xs ys
    → IsOneToOne order xs
    → sort_from order placed xs ≡ sort_from order placed ys
unfolding sort_from
sort_from-perm order placed xs ys Permᴰ.nil o = refl
sort_from-perm order placed (x ∷ xs) (y ∷ ys) (Permᴰ.cons e p) o = rw e (
    sort_from-perm order (sink order y placed) xs ys p
      (λ v w m n. o v w (Memᴰ.tail m) (Memᴰ.tail n)))
sort_from-perm order placed (a ∷ b ∷ l) (c ∷ d ∷ _) (Permᴰ.swap e f) o =
    ap (λ ps. sort_from order ps l)
      (rw (e, f)
        (sink-sink order c d placed
          (λ s. sym f ∙ (o b a (Memᴰ.tail (Memᴰ.head refl)) (Memᴰ.head refl) (rw (e, f) s) ∙ e))))
sort_from-perm order placed xs zs (Permᴰ.trans {l₂ = ys} p q) o =
    sort_from-perm order placed xs ys p o
    ∙ sort_from-perm order placed ys zs q
        (λ v w m n. o v w (mem-perm v xs ys p m) (mem-perm w xs ys p n))

-- What is placed ends before index i.
abbrev EndsBefore : (Uuid → Option ℕ) → ℕ → List Video → Type 0
EndsBefore order i [] = Unit
EndsBefore order i (p ∷ ps) = or_first (order p.id) < i

sort_from-numbered :
    (order : Uuid → Option ℕ) (i : ℕ) (placed vs : List Video)
    → EndsBefore order i placed
    → IsNumbered order i vs
    → sort_from order placed vs ≡ rev_onto placed vs
unfolding sort_from sink or_first rev_onto
sort_from-numbered order i placed [] b n = refl
sort_from-numbered order i [] (v ∷ vs) b n =
    sort_from-numbered order (suc i) (v ∷ []) vs (rw (n.0) (omega arith)) n.1
sort_from-numbered order i (p ∷ ps) (v ∷ vs) b n =
    let stays : sink order v (p ∷ ps) ≡ v ∷ p ∷ ps = ground (arith, n.0, b) in
    rw stays (sort_from-numbered order (suc i) (v ∷ p ∷ ps) vs (rw (n.0) (omega arith)) n.1)

-- Whatever order the rows come in, they are sorted into the order of their identifiers.
pub sort_by_order-perm :
    (rows page : List Video)
    → Permᴰ rows page
    → HasDistinctIds page
    → sort_by_order (index_from 0 (ids_of page)) rows ≡ page
unfolding sort_by_order rev_onto
sort_by_order-perm rows page p d =
    let order = index_from 0 (ids_of page) in
    let n = index_from-IsNumbered 0 page d in
    let o = IsNumbered-IsOneToOne order 0 page n in
    sort_from-perm order [] rows page p (λ v w m k.
      o v w (mem-perm v page rows (Permᴰ.symm p) m) (mem-perm w page rows (Permᴰ.symm p) k))
    ∙ sort_from-numbered order 0 [] page tt n
