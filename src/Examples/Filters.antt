-- ===== src/Examples/Filters.antt =====
-- Filters that do not err.
use vidmerce.Prelude.{
  ◌≡◌, refl, true, false, Bool, ◌||◌, List, [], ◌∷◌, Bytes, beq, beq_refl, if◌then◌else◌, arith,
}
use vidmerce.Bloom.{Blooms}

unfoldable pub listed : Bytes → List Bytes → Bool
listed m [] = false
listed m (n ∷ ns) = beq n m || listed m ns

unfoldable pub filed : Bytes → Bytes → (Bytes → List Bytes) → Bytes → List Bytes
filed k m s j = if beq k j then m ∷ s j else s j

pub listed_now : (k m : Bytes) (s : Bytes → List Bytes) → listed m (filed k m s k) ≡ true
unfolding listed filed
listed_now k m s = rw (beq_refl k, beq_refl m) refl

pub listed_still :
    (k m n : Bytes) (s : Bytes → List Bytes)
    → listed m (s k) ≡ true
    → listed m (filed k n s k) ≡ true
unfolding listed filed
listed_still k m n s h = rw (beq_refl k, h) (ground arith)

-- Filters that keep their members in lists.
abbrev pub exact : Blooms
exact = record {
  Store = Bytes → List Bytes;
  bf_reserve = λ k capacity s. s;
  bf_add = filed;
  bf_exists = λ k m s. listed m (s k);
  bf_exists-bf_add = listed_now;
  bf_exists_still = listed_still;
}

abbrev pub vacant : Bytes → List Bytes
vacant k = []
