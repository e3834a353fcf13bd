-- ===== src/Prelude/Sublists.antt =====
-- How the library's sublists, in order and with gaps, go with the joining of lists.
use mathlib.Core.List.Sublistᴰ
use mathlib.Core.List.{Sublistᴰ}
use vidmerce.Prelude.{refl, List, [], ◌∷◌, ◌++◌}

module _ {ℓ} {A : Type ℓ} where
  pub Sublist-after : (zs xs ys : List A) → Sublistᴰ xs ys → Sublistᴰ xs (zs ++ ys)
  Sublist-after [] xs ys p = p
  Sublist-after (z ∷ zs) xs ys p = Sublistᴰ.cons (Sublist-after zs xs ys p)

  pub Sublist-append_left : (zs xs ys : List A) → Sublistᴰ xs ys → Sublistᴰ (zs ++ xs) (zs ++ ys)
  Sublist-append_left [] xs ys p = p
  Sublist-append_left (z ∷ zs) xs ys p = Sublistᴰ.cons-cons refl (Sublist-append_left zs xs ys p)

  pub Sublist-append_right : (xs ys zs : List A) → Sublistᴰ xs ys → Sublistᴰ (xs ++ zs) (ys ++ zs)
  Sublist-append_right [] [] zs Sublistᴰ.slnil = Sublistᴰ.refl zs
  Sublist-append_right (x ∷ xs) [] zs p = elim p [ ]
  Sublist-append_right xs (y ∷ ys) zs (Sublistᴰ.cons p) =
      Sublistᴰ.cons (Sublist-append_right xs ys zs p)
  Sublist-append_right (x ∷ xs) (y ∷ ys) zs (Sublistᴰ.cons-cons e p) =
      Sublistᴰ.cons-cons e (Sublist-append_right xs ys zs p)
