-- ===== src/Redis/Sorted.antt =====
-- The sorted sets of Redis, with the behaviour of the commands that the program sends as documented
-- at redis.io. Scores are natural numbers below 2 ^ 53, which a double holds exactly.
use vidmerce.Prelude.{
  ℕ, zero, ◌≡◌, refl, Bool, true, false, ◌&&◌, ◌||◌, List, [], ◌∷◌, map, Option, none, some, Bytes,
  beq, beq_refl, ltb, ◌==◌, take, if◌then◌else◌,
}
use vidmerce.Prelude.Int.{ℤ, pos, negsuc}

abbrev pub Entry : Type 0
Entry = Bytes × ℕ

-- The order of the bytes of two members.
unfoldable pub bytes_ltb : Bytes → Bytes → Bool
bytes_ltb [] [] = false
bytes_ltb [] (y ∷ ys) = true
bytes_ltb (x ∷ xs) [] = false
bytes_ltb (x ∷ xs) (y ∷ ys) = ltb x y || (x == y && bytes_ltb xs ys)

-- By score, and by member where the scores are equal.
unfoldable pub outranks : Entry → Entry → Bool
unfolding bytes_ltb
outranks (m, x) (n, y) = ltb y x || (x == y && bytes_ltb n m)

-- A set is listed with the highest entry first.
unfoldable pub place : Entry → List Entry → List Entry
unfolding outranks
place e [] = e ∷ []
place e (d ∷ ds) = let rest = place e ds in if outranks e d then e ∷ d ∷ ds else d ∷ rest

unfoldable pub without : Bytes → List Entry → List Entry
without m [] = []
without m ((n, x) ∷ es) = let rest = without m es in if beq n m then rest else (n, x) ∷ rest

-- ZADD gives a member that is there its new score.
unfoldable pub add_each : List Entry → List Entry → List Entry
unfolding place without
add_each [] es = es
add_each ((m, x) ∷ ms) es = add_each ms (place (m, x) (without m es))

unfoldable pub is_below : Option ℕ → ℕ → Bool
is_below none x = true
is_below (some b) x = ltb x b

unfoldable pub below : Option ℕ → List Entry → List Entry
unfolding is_below
below max [] = []
below max ((m, x) ∷ es) = let rest = below max es in if is_below max x then (m, x) ∷ rest else rest

abbrev pub member : Entry → Bytes
member e = e.0

pub record SortedSets : Type 1 where
  pub Store : Type 0
  pub ranked : Bytes → Store → List Entry  -- ZREVRANGE key 0 -1 WITHSCORES
  pub z_add : Bytes → List Entry → Store → Store  -- ZADD key score member ...
  pub z_rem_range_by_rank : Bytes → ℤ → ℤ → Store → Store  -- ZREMRANGEBYRANK key start stop
  -- ZREVRANGEBYSCORE key (max -inf LIMIT 0 count; no max stands for +inf
  pub z_rev_range_by_score : Bytes → Option ℕ → ℕ → Store → List Bytes
  pub ranked-z_add :
      (k : Bytes) (es : List Entry) (s : Store) → ranked k (z_add k es s) ≡ add_each es (ranked k s)
  -- From the lowest entry up to the one before the n highest.
  pub ranked-z_rem_range_by_rank :
      (k : Bytes) (n : ℕ) (s : Store)
      → ranked k (z_rem_range_by_rank k (pos 0) (negsuc n) s) ≡ take n (ranked k s)
  pub z_rev_range_by_score_lem :
      (k : Bytes) (max : Option ℕ) (count : ℕ) (s : Store)
      → z_rev_range_by_score k max count s ≡ map member (take count (below max (ranked k s)))

-- A store in memory, which shows that what is assumed can be met.
abbrev pub Sets : Type 0
Sets = Bytes → List Entry

abbrev changed : Bytes → (List Entry → List Entry) → Sets → Sets
changed k f s j = if beq k j then f (s j) else s j

-- Only the ranges that leave the n highest entries.
abbrev trimmed : ℤ → ℤ → List Entry → List Entry
trimmed (pos zero) (negsuc n) es = take n es
trimmed _ _ es = es

abbrev pub sets_in_memory : SortedSets
sets_in_memory = record {
  Store = Sets;
  ranked = λ k s. s k;
  z_add = λ k es s. changed k (add_each es) s;
  z_rem_range_by_rank = λ k start stop s. changed k (trimmed start stop) s;
  z_rev_range_by_score = λ k max count s. map member (take count (below max (s k)));
  ranked-z_add = λ k es s. rw (beq_refl k);
  ranked-z_rem_range_by_rank = λ k n s. rw (beq_refl k);
  z_rev_range_by_score_lem = λ k max count s. refl;
}
