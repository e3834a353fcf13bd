-- ===== src/Auth/Service/Accounts.antt =====
-- What holds of the accounts.
use vidmerce.Prelude.{
  ℕ, ◌≡◌, refl, sym, Bool, true, List, [], ◌∷◌, ◌++◌, Option, none, some, Bytes, beq_refl,
  if◌then◌else◌, arith, Bool-cases, Option-cases, inl, inr,
}
use vidmerce.Uuid.{Uuid, UuidText}
use vidmerce.Redis.{Redis}
use vidmerce.Auth.Refresh.{Mint}
use vidmerce.Auth.Email.{normalize_email, to_lower}
use vidmerce.Auth.Service.{
  Crypto, Result, ok, User, PublicUser, public, lookup, citext_eq, found, find_by_email,
  insert_user, create, registered, hashed, register, validate_email, validate_password,
  issue_tokens, let_in, login, Error, refusal, unless,
}

citext_eq_refl : (a : Bytes) → citext_eq a a ≡ true
unfolding citext_eq
citext_eq_refl a = beq_refl (to_lower a)

lookup-append :
    (e : Bytes) (us : List User) (u : User)
    → lookup e us ≡ none
    → lookup e (us ++ u ∷ []) ≡ (if citext_eq u.email e then some u else none)
unfolding lookup
lookup-append e [] u h = refl
lookup-append e (v ∷ us) u h = elim (Bool-cases (citext_eq v.email e)) [
  | inl same ↦ absurd (cc (rw same at h))
  | inr other ↦ rw other (lookup-append e us u (rw other at h))
]

-- What an answer of success says of the table.
abbrev IsAdded : Bytes → Option Bytes → List User → PublicUser → List User → Type 0
IsAdded email h us p users =
    (u : User) × (h ≡ some u.password_hash)
    × (u.email ≡ normalize_email email)
    × (u.id ≡ p.id)
    × (lookup u.email us ≡ none)
    × (users ≡ us ++ u ∷ [])

hashed-IsAdded :
    (up : Bool) (id : Uuid) (now : ℕ) (email : Bytes) (h : Option Bytes) (us : List User)
    (p : PublicUser)
    → (hashed up id now email h us).0 ≡ ok p
    → IsAdded email h us p (hashed up id now email h us).1
unfolding hashed registered create insert_user public
hashed-IsAdded up id now email none us p r = absurd (cc)
hashed-IsAdded up id now email (some h) us p r = elim (Bool-cases up) [
  | inr down ↦ absurd (cc (rw down at r))
  | inl on ↦ elim (Option-cases (lookup (normalize_email email) us)) [
    | inr (v, known) ↦ absurd (cc (rw (on, known) at r))
    | inl fresh ↦
        rw (on, fresh)
          (
            record { id = id; email = normalize_email email; password_hash = h; created_at = now },
            refl,
            refl,
            cc (rw (on, fresh) at r),
            fresh,
            refl,
          )
  ]
]

unless-IsAdded :
    (e : Option Error) (r : Result PublicUser × List User) (email : Bytes) (h : Option Bytes)
    (us : List User) (p : PublicUser)
    → (unless e r us).0 ≡ ok p
    → (r.0 ≡ ok p → IsAdded email h us p r.1)
    → IsAdded email h us p (unless e r us).1
unfolding unless
unless-IsAdded none r email h us p q f = f q
unless-IsAdded (some e) r email h us p q f = absurd (cc)

-- Who has registered logs in with the same password, under any spelling of the email that
-- normalizes alike, if the table of users is read: tokens are issued for the new account.
pub login-register :
    (C : Crypto) (T : UuidText) (R : Redis) (maybe : Option Bool) (up : Bool) (id : Uuid) (now : ℕ)
    (email spelling password : Bytes) (us : List User) (p : PublicUser) (m : Mint) (ttl : ℕ)
    (s : R.Store)
    → (register C maybe up id now email password us).0 ≡ ok p
    → normalize_email spelling ≡ normalize_email email
    → login C T R true m ttl spelling password (register C maybe up id now email password us).1 s
      ≡ issue_tokens C T R m ttl p.id s
unfolding register login let_in find_by_email found
login-register C T R maybe up id now email spelling password us p m ttl s h same =
    let (u, hashes, mail, owned, fresh, added) =
      unless-IsAdded (refusal (validate_email email) (validate_password password) maybe)
        (hashed up id now email (C.hash password) us) email (C.hash password) us p h
        (hashed-IsAdded up id now email (C.hash password) us p) in
    rw (added, same, sym mail)
      (ground (
        arith,
        lookup-append u.email us u fresh,
        citext_eq_refl u.email,
        C.compare-hash password u.password_hash hashes,
        owned,
      ))
