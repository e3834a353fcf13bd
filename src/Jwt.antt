-- ===== src/Jwt.antt =====
-- internal/platform/jwt: jwt.go and middleware.go. github.com/golang-jwt/jwt is a parameter; times are in
-- seconds, as in the claims.
pub mod Tokens
use vidmerce.Prelude.{
  ℕ, ◌+◌, ◌≤◌, ◌<◌, ◌≡◌, ◌≢◌, Bool, true, false, ◌==◌, [], ◌∷◌, Option, none, some, Bytes, text,
  length, drop, if◌then◌else◌, not,
}
use vidmerce.Uuid.{Uuid, uuid_nil}
use vidmerce.Auth.Email.{trim_space}
use vidmerce.Bloom.{has_prefix}
use vidmerce.Http.{Reply, error, code_unauthenticated}

pub record Claims : Type 0 where
  pub user_id : Uuid
  pub issuer : Bytes
  pub issued_at : ℕ
  pub not_before : ℕ
  pub expires_at : ℕ
  pub id : Bytes

-- `SignedString` and `ParseWithClaims`, whose errors are none, for one secret and HS256. What was signed
-- is read back while it is valid, as what it is at any time, nothing is read once it has expired (the
-- parser is built without WithLeeway, so there is no tolerance), and a token is a text with no space
-- around it.
pub record Signer : Type 0 where
  pub sign : Claims → Option Bytes
  pub read : ℕ → Bytes → Option Claims
  pub read-sign :
      (now : ℕ) (c : Claims) (token : Bytes)
      → sign c ≡ some token
      → c.issued_at ≤ now
      → c.not_before ≤ now
      → now < c.expires_at
      → read now token ≡ some c
  pub reads_alike :
      (now : ℕ) (c d : Claims) (token : Bytes)
      → sign c ≡ some token
      → read now token ≡ some d
      → d ≡ c
  pub read_before_expiry :
      (now : ℕ) (c : Claims) (token : Bytes) → read now token ≡ some c → now < c.expires_at
  pub trim_space-sign :
      (c : Claims) (token : Bytes) → sign c ≡ some token → trim_space token ≡ token
  pub sign-ne-nil : (c : Claims) (token : Bytes) → sign c ≡ some token → token ≢ []

module _ (S : Signer) where
  unfoldable pub with_expiry : ℕ → Option Bytes → Option (Bytes × ℕ)
  with_expiry expires none = none
  with_expiry expires (some token) = some (token, expires)

  -- `IssueAccess`, of the service's issuer and lifetime, with the time and the identifier of the
  -- token; `none` is an error.
  unfoldable pub issue_access : Bytes → ℕ → ℕ → Bytes → Uuid → Option (Bytes × ℕ)
  unfolding with_expiry
  issue_access issuer ttl now id user =
      let c : Claims = record {
        user_id = user;
        issuer = issuer;
        issued_at = now;
        not_before = now;
        expires_at = now + ttl;
        id = id;
      } in
      with_expiry c.expires_at (S.sign c)

  unfoldable pub named : Option Claims → Option Uuid
  named none = none
  named (some c) = if c.user_id == uuid_nil then none else some c.user_id

  -- `Parse`; `none` is ErrInvalidToken.
  unfoldable pub parse : ℕ → Bytes → Option Uuid
  unfolding named
  parse now token = named (S.read now token)

  abbrev prefix : Bytes
  prefix = text "Bearer "

  unfoldable pub refused {ℓ} : {A : Type ℓ} → Bytes → Reply A
  refused message = error 401 code_unauthenticated message

  unfoldable pub admit {ℓ κ} :
      {A : Type ℓ} {W : Type κ} → Option Uuid → (Uuid → W → Reply A × W) → W → Reply A × W
  unfolding refused
  admit none next w = (refused (text "invalid or expired token"), w)
  admit (some user) next w = next user w

  -- `RequireAuth`: the handler behind it runs for the user of the token, on the state of the process.
  unfoldable pub require_auth {ℓ κ} :
      {A : Type ℓ} {W : Type κ} → ℕ → Bytes → (Uuid → W → Reply A × W) → W → Reply A × W
  unfolding admit parse
  require_auth now raw next w =
      let token = trim_space (drop 7 raw) in
      if length raw == 0
      then (refused (text "missing authorization header"), w)
      else if not (has_prefix prefix raw)
      then (refused (text "malformed authorization header"), w)
      else if length token == 0
      then (refused (text "empty bearer token"), w)
      else admit (parse now token) next w

  -- `OptionalAuth` with `OptionalUserIDFrom`: the user whom the handler behind it sees.
  unfoldable pub optional_auth : ℕ → Bytes → Option Uuid
  unfolding parse
  optional_auth now raw =
      let token = trim_space (drop 7 raw) in
      if length raw == 0
      then none
      else if not (has_prefix prefix raw)
      then none
      else if length token == 0
      then none
      else parse now token
