-- ===== src/Bloom.antt =====
-- internal/platform/bloom: redis.go and warmup.go. The filters of RedisBloom are a parameter, with the
-- behaviour documented at redis.io; whether a command gets through is an argument.
pub mod Warmups
use vidmerce.Prelude.{
  ℕ, zero, suc, ◌≡◌, Bool, true, false, ◌||◌, List, [], ◌∷◌, ◌++◌, Option, none, some, Bytes, text,
  beq, leb, ltb, length, if◌then◌else◌,
}
use vidmerce.Prelude.Int.{ℤ, pos, negsuc}
use vidmerce.Auth.Email.{to_lower}

abbrev pub key_emails : Bytes
key_emails = text "bloom:emails"

abbrev pub key_product_videos : Bytes
key_product_videos = text "bloom:product_videos"

-- The capacity is a number of members; error rates, which are floats, are left to the filter.
pub record Blooms : Type 1 where
  pub Store : Type 0
  pub bf_reserve : Bytes → ℕ → Store → Store  -- BF.RESERVE key rate capacity, of a new key
  pub bf_add : Bytes → Bytes → Store → Store  -- BF.ADD key member
  pub bf_exists : Bytes → Bytes → Store → Bool  -- BF.EXISTS key member
  -- What was added is found, and what was found is found still.
  pub bf_exists-bf_add : (k m : Bytes) (s : Store) → bf_exists k m (bf_add k m s) ≡ true
  pub bf_exists_still :
      (k m n : Bytes) (s : Store) → bf_exists k m s ≡ true → bf_exists k m (bf_add k n s) ≡ true

-- `NewRedisFilter`: the capacity.
unfoldable pub new_redis_filter : ℤ → ℕ
new_redis_filter (pos zero) = 1000000
new_redis_filter (pos (suc n)) = suc n
new_redis_filter (negsuc n) = 1000000

-- `strings.Contains`
unfoldable pub has_prefix : Bytes → Bytes → Bool
has_prefix [] s = true
has_prefix (c ∷ p) [] = false
has_prefix (c ∷ p) (d ∷ s) =
    let rest = has_prefix p s in if beq (c ∷ []) (d ∷ []) then rest else false

unfoldable pub contains_text : Bytes → Bytes → Bool
unfolding has_prefix
contains_text p [] = has_prefix p []
contains_text p (c ∷ s) = has_prefix p (c ∷ s) || contains_text p s

module _ (B : Blooms) where
  open B use {Store, bf_reserve, bf_add, bf_exists}

  -- BF.MADD, which adds each member.
  unfoldable pub bf_madd : Bytes → List Bytes → Store → Store
  bf_madd k [] s = s
  bf_madd k (m ∷ ms) s = bf_madd k ms (bf_add k m s)

  -- `Init`, by what BF.RESERVE answers: none, or the text of an error, which changes nothing; false
  -- is an error.
  unfoldable pub init : Option Bytes → Bool → Bytes → ℕ → Store → Bool × Store
  unfolding contains_text
  init none info_up k capacity s = (true, bf_reserve k capacity s)
  init (some e) info_up k capacity s =
      if contains_text (text "exists") (to_lower e) then (true, s) else (info_up, s)

  -- `MayContain`; `none` is an error.
  unfoldable pub may_contain : Bool → Bytes → Bytes → Store → Option Bool
  may_contain up k m s = if up then some (bf_exists k m s) else none

  -- `Add`; false is an error.
  unfoldable pub add : Bool → Bytes → Bytes → Store → Bool × Store
  add up k m s = if up then (true, bf_add k m s) else (false, s)

  -- `AddBatch`; false is an error.
  unfoldable pub add_batch : Bool → Bytes → List Bytes → Store → Bool × Store
  unfolding bf_madd
  add_batch up k [] s = (true, s)
  add_batch up k (m ∷ ms) s = if up then (true, bf_madd k (m ∷ ms) s) else (false, s)

  -- The rows, what is buffered, which of the batches get through, and whether the rows end well.
  unfoldable pub warm :
      ℕ → Bool → (ℕ → Bool) → ℕ → Bytes → List Bytes → List Bytes → Store → Bool × Store
  unfolding add_batch
  warm batch rows_up up i k buf [] s = if rows_up then add_batch (up i) k buf s else (false, s)
  warm batch rows_up up i k buf (r ∷ rows) s =
      let full = buf ++ r ∷ [] in
      let sent = add_batch (up i) k full s in
      elim (leb batch (length full)) [
        | false ↦ warm batch rows_up up i k full rows s
        | true ↦ elim sent.0 [
          | true ↦ warm batch rows_up up (suc i) k [] rows sent.1
          | false ↦ (false, sent.1)
        ]
      ]

  unfoldable pub warm_rows :
      Bool → (ℕ → Bool) → Bytes → Option (List Bytes) → Bool × Store → Bool × Store
  unfolding warm
  warm_rows rows_up up k members (false, s) = (false, s)
  warm_rows rows_up up k none (true, s) = (false, s)
  warm_rows rows_up up k (some rows) (true, s) = warm 5000 rows_up up 0 k [] rows s

  -- `WarmupEmails` and `WarmupProductVideos`, of the members that the query returns; `none` is an
  -- error of the query.
  unfoldable pub warmup :
      Option Bytes
      → Bool
      → Bool
      → (ℕ → Bool)
      → Bytes
      → ℕ
      → Option (List Bytes)
      → Store
      → Bool × Store
  unfolding warm_rows init
  warmup reserved info_up rows_up up k capacity members s =
      warm_rows rows_up up k members (init reserved info_up k capacity s)
