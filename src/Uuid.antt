-- ===== src/Uuid.antt =====
-- The identifiers of github.com/google/uuid. A `uuid.UUID` is an array of 16 bytes, read here as a
-- number, with `uuid.Nil` as 0; its textual form is the package's, a parameter.
use vidmerce.Prelude.{
  ℕ, ◌+◌, ◌-◌, ◌≡◌, ◌≢◌, ap, [], ◌∷◌, Option, none, some, arith, Bytes, All, beq, beq_iff, ◌==◌,
  if◌then◌else◌, leb,
}

abbrev pub Uuid : Type 0
Uuid = ℕ

abbrev pub uuid_nil : Uuid
uuid_nil = 0

-- `String` and `Parse`: what the program relies on is that a printed identifier is read back, that
-- it is not empty and that it holds no dot and no colon.
pub record UuidText : Type 0 where
  pub to_string : Uuid → Bytes
  pub parse : Bytes → Option Uuid
  pub parse-to_string : (u : Uuid) → parse (to_string u) ≡ some u
  pub to_string-ne-nil : (u : Uuid) → to_string u ≢ []
  pub to_string_no_dot : (u : Uuid) → All (λ c. c ≢ b'.') (to_string u)
  pub to_string_no_colon : (u : Uuid) → All (λ c. c ≢ b':') (to_string u)

module _ (T : UuidText) where
  pub to_string_injective : (u v : Uuid) → T.to_string u ≡ T.to_string v → u ≡ v
  to_string_injective u v e = cc (T.parse-to_string u, T.parse-to_string v, ap T.parse e)

  -- Identifiers and their texts are compared alike.
  pub beq-to_string : (u v : Uuid) → beq (T.to_string u) (T.to_string v) ≡ (u == v)
  beq-to_string u v = ground (
    arith,
    beq_iff (T.to_string u) (T.to_string v),
    to_string_injective u v,
    λ (e : u ≡ v). ap T.to_string e,
  )

unfoldable pub letter_parse : Bytes → Option Uuid
letter_parse [] = none
letter_parse (c ∷ []) = if leb 64 c then some (c - 64) else none
letter_parse (c ∷ d ∷ r) = none

pub letter_back : (u : Uuid) → letter_parse ((64 + u) ∷ []) ≡ some u
unfolding letter_parse
letter_back u = ground arith

pub letter-ne-nil : (u : Uuid) → ◌≢◌ {A = Bytes} ((64 + u) ∷ []) []
letter-ne-nil u e = cc

pub letter_no_dot : (u : Uuid) → All (λ c. c ≢ b'.') ((64 + u) ∷ [])
letter_no_dot u = (λ e. absurd (omega arith), tt)

pub letter_no_colon : (u : Uuid) → All (λ c. c ≢ b':') ((64 + u) ∷ [])
letter_no_colon u = (λ e. absurd (omega arith), tt)

-- One character for each identifier.
abbrev pub letters : UuidText
letters = record {
  to_string = λ u. (64 + u) ∷ [];
  parse = letter_parse;
  parse-to_string = letter_back;
  to_string-ne-nil = letter-ne-nil;
  to_string_no_dot = letter_no_dot;
  to_string_no_colon = letter_no_colon;
}
