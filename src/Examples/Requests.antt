-- ===== src/Examples/Requests.antt =====
-- Requests, with tokens that hold their claims.
use vidmerce.Prelude.{
  ℕ, ◌+◌, ◌-◌, ◌<◌, ◌≡◌, ◌≢◌, refl, [], ◌∷◌, ◌++◌, Option, none, some, Bytes, text, arith, ltb,
  if◌then◌else◌, ◌⊎◌, inl, inr, Bool-cases,
}
use mathlib.Core.Path.{subst}
use vidmerce.Uuid.{Uuid}
use vidmerce.Auth.Email.{trim_space}
use vidmerce.Http as Http
use vidmerce.Http.{Reply, error, code_unauthenticated}
use vidmerce.Jwt.{Claims, Signer, issue_access, require_auth, optional_auth, with_expiry}
use vidmerce.Jwt.Tokens.{IsBearer, require_auth-optional_auth, require_auth-issue_access}

-- Only claims without texts are signed.
pub sign : Claims → Bytes → Bytes → Option Bytes
sign c [] [] =
    some ((64 + c.user_id) ∷ (64 + c.issued_at) ∷ (64 + c.not_before) ∷ (64 + c.expires_at) ∷ [])
sign c _ _ = none

pub claims_of : Bytes → Option Claims
claims_of (u ∷ i ∷ b ∷ e ∷ []) = some (record {
  user_id = u - 64;
  issuer = [];
  issued_at = i - 64;
  not_before = b - 64;
  expires_at = e - 64;
  id = [];
})
claims_of _ = none

pub unexpired : ℕ → Option Claims → Option Claims
unexpired now none = none
unexpired now (some c) = if ltb now c.expires_at then some c else none

signed :
    (c : Claims) (token : Bytes)
    → sign c [] [] ≡ some token
    → (64 + c.user_id) ∷ (64 + c.issued_at) ∷ (64 + c.not_before) ∷ (64 + c.expires_at) ∷ [] ≡ token
unfolding sign
signed c token h = cc

pub claims_of-sign :
    (c : Claims) (issuer id token : Bytes)
    → c.issuer ≡ issuer
    → c.id ≡ id
    → sign c issuer id ≡ some token
    → claims_of token ≡ some c
unfolding sign claims_of
claims_of-sign c [] [] token e f h =
    subst (λ (t : Bytes). claims_of t ≡ some c) (signed c token h) (ground (arith, e, f))
claims_of-sign c [] (x ∷ xs) token e f h = absurd (cc)
claims_of-sign c (x ∷ xs) id token e f h = absurd (cc)

pub trim_space-sign :
    (c : Claims) (issuer id token : Bytes)
    → sign c issuer id ≡ some token
    → trim_space token ≡ token
unfolding sign trim_space
trim_space-sign c [] [] token h =
    subst (λ (t : Bytes). trim_space t ≡ t) (signed c token h) (ground arith)
trim_space-sign c [] (x ∷ xs) token h = absurd (cc)
trim_space-sign c (x ∷ xs) id token h = absurd (cc)

pub sign-ne-nil :
    (c : Claims) (issuer id token : Bytes) → sign c issuer id ≡ some token → token ≢ []
unfolding sign
sign-ne-nil c [] [] token h e = cc
sign-ne-nil c [] (x ∷ xs) token h e = cc
sign-ne-nil c (x ∷ xs) id token h e = cc

pub unexpired-read :
    (now : ℕ) (c : Claims) (token : Bytes)
    → claims_of token ≡ some c
    → now < c.expires_at
    → unexpired now (claims_of token) ≡ some c
unfolding unexpired
unexpired-read now c token h e = rw h (ground (arith, e))

pub unexpired-claims :
    (now : ℕ) (o : Option Claims) (d : Claims)
    → unexpired now o ≡ some d
    → (o ≡ some d) × (now < d.expires_at)
unfolding unexpired
unexpired-claims now none d h = absurd (cc)
unexpired-claims now (some c) d h = elim (Bool-cases (ltb now c.expires_at)) [
  | inr gone ↦ absurd (cc (rw gone at h))
  | inl valid ↦ let e = rw valid at h in (e, ground (arith, e, valid))
]

pub read_alike : (c d : Claims) (o : Option Claims) → o ≡ some c → o ≡ some d → d ≡ c
read_alike c d o h e = cc

-- Claims without texts.
abbrev pub plain : Signer
plain = record {
  sign = λ c. sign c c.issuer c.id;
  read = λ now token. unexpired now (claims_of token);
  read-sign = λ now c token h i b e.
      unexpired-read now c token (claims_of-sign c c.issuer c.id token refl refl h) e;
  reads_alike = λ now c d token h e.
      read_alike c d (claims_of token) (claims_of-sign c c.issuer c.id token refl refl h)
        (unexpired-claims now (claims_of token) d e).0;
  read_before_expiry = λ now c token h. (unexpired-claims now (claims_of token) c h).1;
  trim_space-sign = λ c token h. trim_space-sign c c.issuer c.id token h;
  sign-ne-nil = λ c token h. sign-ne-nil c c.issuer c.id token h;
}

-- A handler that answers with the user.
abbrev whoami : Uuid → ℕ → Reply Uuid × ℕ
whoami user w = (Http.ok user, w)

abbrev pub token : Bytes
token = 69 ∷ 114 ∷ 114 ∷ 124 ∷ []

issued : issue_access plain [] 10 50 [] 5 ≡ some (token, 60)
unfolding issue_access with_expiry sign
issued = refl

require_auth-issue_access_example : require_auth plain 55 (text "Bearer " ++ token) whoami 0 ≡ (
    if ltb 55 (50 + 10)
    then whoami 5 0
    else (error 401 code_unauthenticated (text "invalid or expired token"), 0))
require_auth-issue_access_example =
    require_auth-issue_access plain [] 10 50 55 [] 5 token 60 whoami 0 (omega arith) issued
      (omega arith)

require_auth-optional_auth_example :
    ((user : Uuid) × IsBearer plain 55 (text "Basic") user
      × (optional_auth plain 55 (text "Basic") ≡ some user)
      × (require_auth plain 55 (text "Basic") whoami 0 ≡ whoami user 0))
    ⊎ ((message : Bytes) × (optional_auth plain 55 (text "Basic") ≡ none)
        × (require_auth plain 55 (text "Basic") whoami 0
            ≡ (error 401 code_unauthenticated message, 0)))
require_auth-optional_auth_example = require_auth-optional_auth plain 55 (text "Basic") whoami 0
