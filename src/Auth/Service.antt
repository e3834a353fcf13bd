-- ===== src/Auth/Service.antt =====
-- internal/auth/service.go, repository.go and the models of domain.go. bcrypt and the signer of access
-- tokens are parameters; the table of users is a list, a filter of known emails is a parameter, and
-- whether each call gets through is an argument.
pub mod Rotation
pub mod Accounts
use vidmerce.Prelude.{
  ℕ, zero, suc, Bool, true, false, ◌||◌, ◌&&◌, not, List, [], ◌∷◌, ◌++◌, Option, none, some, Bytes,
  text, beq, ◌==◌, leb, ltb, length, if◌then◌else◌, ◌+◌, ◌≡◌,
}
use vidmerce.Uuid.{Uuid, UuidText}
use vidmerce.Redis.{Redis}
use vidmerce.Auth.Email.{trim_space, normalize_email, contains, to_lower}
use vidmerce.Auth.Refresh.{
  Mint, Validity, owner, unknown_token, unreadable, issue, validate, revoke,
}

-- The errors of the package; `failure` is any other.
pub data Error : Type 0 where
  invalid : Bytes → Error
  email_taken : Error
  invalid_credentials : Error
  user_not_found : Error
  invalid_refresh : Error
  failure : Error

unfoldable pub validate_email : Bytes → Option Error
unfolding contains
validate_email raw =
    let email = trim_space raw in
    if length email == 0
    then some (invalid (text "email is required"))
    else if not (contains b'@' email) || contains b' ' email
    then some (invalid (text "invalid email"))
    else if ltb 254 (length email)
    then some (invalid (text "email too long"))
    else none

unfoldable pub validate_password : Bytes → Option Error
validate_password pw =
    if ltb (length pw) 8
    then some (invalid (text "password must be at least 8 characters"))
    else if ltb 72 (length pw)
    then some (invalid (text "password must be at most 72 characters"))
    else none

pub record User : Type 0 where
  pub id : Uuid
  pub email : Bytes
  pub password_hash : Bytes
  pub created_at : ℕ

pub record PublicUser : Type 0 where
  pub id : Uuid
  pub email : Bytes
  pub created_at : ℕ

-- `Public`
unfoldable pub public : User → PublicUser
public u = record { id = u.id; email = u.email; created_at = u.created_at }

pub data Result {ℓ} (A : Type ℓ) : Type ℓ where
  ok : A → Result A
  err : Error → Result A

-- The equality of the column `email`, of type CITEXT: case is ignored, on ASCII.
unfoldable pub citext_eq : Bytes → Bytes → Bool
citext_eq a b = beq (to_lower a) (to_lower b)

-- SELECT ... WHERE email = $1
unfoldable pub lookup : Bytes → List User → Option User
lookup email [] = none
lookup email (u ∷ us) =
    let rest = lookup email us in if citext_eq u.email email then some u else rest

unfoldable pub found : Option User → Result User
found none = err user_not_found
found (some u) = ok u

-- `FindByEmail`
unfoldable pub find_by_email : Bool → Bytes → List User → Result User
unfolding found
find_by_email up email users =
    if up then found (lookup (normalize_email email) users) else err failure

-- The INSERT, given the row that the UNIQUE constraint of the column finds in its way.
unfoldable pub insert_user : Option User → User → List User → Result User × List User
insert_user none u users = (ok u, users ++ u ∷ [])
insert_user (some v) u users = (err email_taken, users)

-- `Create`, with the id and time that the database assigns.
unfoldable pub create : Bool → Uuid → ℕ → Bytes → Bytes → List User → Result User × List User
unfolding insert_user
create up id now email hash users =
    let u : User = record {
      id = id;
      email = normalize_email email;
      password_hash = hash;
      created_at = now;
    } in
    if up then insert_user (lookup u.email users) u users else (err failure, users)

-- bcrypt, whose errors are none and false, and `IssueAccess`, whose error is none.
pub record Crypto : Type 0 where
  pub hash : Bytes → Option Bytes
  pub compare : Bytes → Bytes → Bool
  pub issue_access : Uuid → Option (Bytes × ℕ)
  pub compare-hash : (pw h : Bytes) → hash pw ≡ some h → compare h pw ≡ true

-- `emailMaybeTaken`: the filter's answer, none for an error or no filter.
unfoldable pub email_maybe_taken : Option Bool → Bool
email_maybe_taken none = false
email_maybe_taken (some maybe) = maybe

unfoldable pub registered : Result User × List User → Result PublicUser × List User
registered (ok u, users) = (ok (public u), users)
registered (err e, users) = (err e, users)

unfoldable pub hashed :
    Bool → Uuid → ℕ → Bytes → Option Bytes → List User → Result PublicUser × List User
unfolding registered
hashed up id now email none users = (err failure, users)
hashed up id now email (some h) users = registered (create up id now email h users)

-- The checks before the password is hashed, in order.
unfoldable pub refusal : Option Error → Option Error → Option Bool → Option Error
refusal (some e) password maybe = some e
refusal none (some e) maybe = some e
refusal none none maybe = if email_maybe_taken maybe then some email_taken else none

unfoldable pub unless :
    Option Error → Result PublicUser × List User → List User → Result PublicUser × List User
unless none r users = r
unless (some e) r users = (err e, users)

-- `Register`, with the answer of the filter of emails.
unfoldable pub register :
    Crypto
    → Option Bool
    → Bool
    → Uuid
    → ℕ
    → Bytes
    → Bytes
    → List User
    → Result PublicUser × List User
unfolding hashed unless refusal
register C maybe up id now email password users =
    unless (refusal (validate_email email) (validate_password password) maybe)
      (hashed up id now email (C.hash password) users) users

pub record TokenPair : Type 0 where
  pub access_token : Bytes
  pub refresh_token : Bytes
  pub access_expires_at : ℕ
  pub token_type : Bytes

unfoldable pub pair_of : Bytes × ℕ → Option Bytes → Result TokenPair
pair_of a none = err failure
pair_of a (some r) = ok (record {
  access_token = a.0;
  refresh_token = r;
  access_expires_at = a.1;
  token_type = text "Bearer";
})

module _ (C : Crypto) (T : UuidText) (R : Redis) where
  open R use {Store}

  unfoldable pub with_access :
      Mint → ℕ → Uuid → Option (Bytes × ℕ) → Store → Result TokenPair × Store
  unfolding pair_of
  with_access m ttl user none s = (err failure, s)
  with_access m ttl user (some a) s = let r = issue T R m ttl user s in (pair_of a r.0, r.1)

  -- `issueTokens`
  unfoldable pub issue_tokens : Mint → ℕ → Uuid → Store → Result TokenPair × Store
  unfolding with_access
  issue_tokens m ttl user s = with_access m ttl user (C.issue_access user) s

  unfoldable pub let_in : Mint → ℕ → Bytes → Result User → Store → Result TokenPair × Store
  let_in m ttl password (ok u) s =
      if C.compare u.password_hash password
      then issue_tokens m ttl u.id s
      else (err invalid_credentials, s)
  let_in m ttl password (err user_not_found) s = (err invalid_credentials, s)
  let_in m ttl password (err e) s = (err e, s)

  -- `Login`
  unfoldable pub login :
      Bool → Mint → ℕ → Bytes → Bytes → List User → Store → Result TokenPair × Store
  unfolding let_in
  login up m ttl email password users s = let_in m ttl password (find_by_email up email users) s

  unfoldable pub rotate : Bool → Mint → ℕ → Bytes → Validity → Store → Result TokenPair × Store
  rotate revoke_up m ttl token (owner user) s =
      issue_tokens m ttl user (revoke T R revoke_up token s).1
  rotate revoke_up m ttl token v s = (err invalid_refresh, s)

  -- `Refresh`: an error of `Revoke` is logged only.
  unfoldable pub refresh : Bool → Bool → Mint → ℕ → Bytes → Store → Result TokenPair × Store
  unfolding rotate
  refresh read_up revoke_up m ttl token s =
      rotate revoke_up m ttl token (validate T R read_up token s) s

  -- `Logout`; false is an error.
  unfoldable pub logout : Bool → Bytes → Store → Bool × Store
  logout up token s = revoke T R up token s
