-- ===== src/View/Hash.antt =====
-- internal/view/hash.go. SHA-256 is a parameter, by the 64 hexadecimal digits of its sums.
use vidmerce.Prelude.{ℕ, zero, suc, ◌≡◌, refl, [], ◌∷◌, Bytes, length, take, length-take, arith}

pub record Sha : Type 0 where
  pub hex_sum : Bytes → Bytes
  pub length-hex_sum : (bs : Bytes) → length (hex_sum bs) ≡ 64

unfoldable pub zeros : ℕ → Bytes
zeros zero = []
zeros (suc n) = b'0' ∷ zeros n

length-zeros : (n : ℕ) → length (zeros n) ≡ n
unfolding zeros
length-zeros zero = refl
length-zeros (suc n) = omega (arith, length-zeros n)

module _ (H : Sha) where
  -- `HashIP`
  unfoldable pub hash_ip : Bytes → Bytes
  unfolding zeros
  hash_ip [] = zeros 32
  hash_ip (c ∷ cs) = take 32 (H.hex_sum (c ∷ cs))

  -- `HashUA`
  unfoldable pub hash_ua : Bytes → Bytes
  unfolding zeros
  hash_ua [] = zeros 16
  hash_ua (c ∷ cs) = take 16 (H.hex_sum (c ∷ cs))

  -- Digests have the lengths of their columns.
  pub length-hash_ip : (ip : Bytes) → length (hash_ip ip) ≡ 32
  unfolding hash_ip
  length-hash_ip [] = length-zeros 32
  length-hash_ip (c ∷ cs) =
      omega (arith, length-take 32 (H.hex_sum (c ∷ cs)), H.length-hex_sum (c ∷ cs))

  pub length-hash_ua : (ua : Bytes) → length (hash_ua ua) ≡ 16
  unfolding hash_ua
  length-hash_ua [] = length-zeros 16
  length-hash_ua (c ∷ cs) =
      omega (arith, length-take 16 (H.hex_sum (c ∷ cs)), H.length-hex_sum (c ∷ cs))
