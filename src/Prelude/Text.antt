-- ===== src/Prelude/Text.antt =====
-- Text as its bytes: a Go `string` is a list of numbers below 256.
use Prim.Native.Nat.{ℕ}
use Prim.Native.Char.{code}
use Prim.Native.String.{String}
use mathlib.Core.Path.{◌≡◌, refl, ap}
use mathlib.Core.Logic.{◌↔◌, ◌≢◌}
use mathlib.Core.Bool.{Bool, true, false, ◌&&◌}
use mathlib.Core.List.{List, [], ◌∷◌, ◌++◌, append_cancel_right}
use native.Mathlib.Omega.{arith}
use vidmerce.Prelude.Tests.{◌==◌}
use vidmerce.Prelude.Lists.{All}

abbrev pub Bytes : Type 0
Bytes = List ℕ

-- The bytes of a literal in ASCII.
abbrev pub text : String → Bytes
text String.[] = []
text (String.◌∷◌ c s) = code c ∷ text s

unfoldable pub beq : Bytes → Bytes → Bool
beq [] [] = true
beq [] (y ∷ ys) = false
beq (x ∷ xs) [] = false
beq (x ∷ xs) (y ∷ ys) = x == y && beq xs ys

pub beq_sound : (a b : Bytes) → beq a b ≡ true → a ≡ b
unfolding beq
beq_sound [] [] h = refl
beq_sound [] (y ∷ ys) h = cc
beq_sound (x ∷ xs) [] h = cc
beq_sound (x ∷ xs) (y ∷ ys) h = ground (arith, beq_sound xs ys)

pub beq_refl : (a : Bytes) → beq a a ≡ true
unfolding beq
beq_refl [] = refl
beq_refl (x ∷ xs) = ground (arith, beq_refl xs)

pub beq_iff : (a b : Bytes) → (beq a b ≡ true) ↔ (a ≡ b)
beq_iff a b = (beq_sound a b, λ e. rw e (beq_refl b))

pub beq_prefix : (p a b : Bytes) → beq (p ++ a) (p ++ b) ≡ beq a b
unfolding beq
beq_prefix [] a b = refl
beq_prefix (c ∷ p) a b = ground (arith, beq_prefix p a b)

pub beq_suffix : (a b q : Bytes) → beq (a ++ q) (b ++ q) ≡ beq a b
beq_suffix a b q = ground (
  arith,
  beq_iff (a ++ q) (b ++ q),
  beq_iff a b,
  append_cancel_right a b q,
  λ (e : a ≡ b). ap (λ x. x ++ q) e,
)

-- A text that does not hold a character is no text that holds it.
pub beq_marked : (c : ℕ) (a b r : Bytes) → All (λ x. x ≢ c) a → beq a (b ++ c ∷ r) ≡ false
unfolding beq
beq_marked c [] [] r h = refl
beq_marked c [] (y ∷ b) r h = refl
beq_marked c (x ∷ a) [] r h = ground (arith, h.0)
beq_marked c (x ∷ a) (y ∷ b) r h = ground (arith, beq_marked c a b r h.1)

pub beq_marked_sym : (c : ℕ) (a b r : Bytes) → All (λ x. x ≢ c) a → beq (b ++ c ∷ r) a ≡ false
beq_marked_sym c a b r h =
    ground (arith, beq_marked c a b r h, beq_iff a (b ++ c ∷ r), beq_iff (b ++ c ∷ r) a)
