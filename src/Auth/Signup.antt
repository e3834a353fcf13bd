-- ===== src/Auth/Signup.antt =====
-- Register of internal/auth/service.go with the filter of emails, and FindByID of repository.go.
use vidmerce.Prelude.{
  ℕ, ◌≡◌, refl, Bool, true, ◌==◌, List, [], ◌∷◌, ◌++◌, Option, none, some, Bytes, inl, inr, ◌⊎◌,
  Bool-cases, Option-cases, All, All-append, All-map, if◌then◌else◌,
}
use vidmerce.Uuid.{Uuid}
use vidmerce.Auth.Email.{normalize_email}
use vidmerce.Auth.Service.{
  Error, invalid, email_taken, invalid_credentials, user_not_found, invalid_refresh, failure,
  validate_email, validate_password, User, PublicUser, public, Result, ok, err, lookup, found,
  insert_user, create, Crypto, registered, hashed, refusal, unless, register,
}
use vidmerce.Bloom.{Blooms, key_emails, may_contain, add}

unfoldable pub lookup_id : Uuid → List User → Option User
lookup_id id [] = none
lookup_id id (u ∷ us) = let rest = lookup_id id us in if u.id == id then some u else rest

-- `FindByID`
unfoldable pub find_by_id : Bool → Uuid → List User → Result User
unfolding lookup_id
find_by_id up id users = if up then found (lookup_id id users) else err failure

-- Which calls get through, and what the database assigns.
pub record Calls : Type 0 where
  pub check_up : Bool
  pub insert_up : Bool
  pub record_up : Bool
  pub id : Uuid
  pub clock : ℕ

module _ (B : Blooms) where
  -- `recordEmail`
  unfoldable pub record_email : Bool → Bytes → B.Store → B.Store
  record_email up email f = (add B up key_emails email f).1

  -- After the call of the repository.
  unfoldable pub after_create : Bool → Bytes → Result PublicUser → B.Store → B.Store
  unfolding record_email
  after_create up email (ok u) f = record_email up email f
  after_create up email (err email_taken) f = record_email up email f
  after_create up email (err e) f = f

  unfoldable pub unless_refused :
      Option Error → Bool → Bytes → Result PublicUser → B.Store → B.Store
  unfolding after_create
  unless_refused none up email r f = after_create up email r f
  unless_refused (some e) up email r f = f

  -- `Register`, with the filter: a password that cannot be hashed is an error like the others.
  unfoldable pub sign_up :
      Crypto
      → Calls
      → Bytes
      → Bytes
      → List User
      → B.Store
      → (Result PublicUser × List User) × B.Store
  unfolding unless_refused
  sign_up C c email password users f =
      let norm = normalize_email email in
      let maybe = may_contain B c.check_up key_emails norm f in
      let r = register C maybe c.insert_up c.id c.clock email password users in
      (
        r,
        unless_refused (refusal (validate_email email) (validate_password password) maybe)
            c.record_up norm r.0 f,
      )

  -- The filter finds the email of each account.
  abbrev pub IsFiltered : List User → B.Store → Type 0
  IsFiltered users f = All (λ u. B.bf_exists key_emails u.email f ≡ true) users

  still :
      (email : Bytes) (users : List User) (f : B.Store)
      → IsFiltered users f
      → IsFiltered users (B.bf_add key_emails email f)
  still email users f h =
      All-map (λ u. B.bf_exists key_emails u.email f ≡ true)
        (λ u. B.bf_exists key_emails u.email (B.bf_add key_emails email f) ≡ true) users
        (λ u e. B.bf_exists_still key_emails u.email email f e) h

  -- What a registration leaves of the table.
  abbrev IsRegistered : Bytes → List User → Result PublicUser × List User → Type 0
  IsRegistered email users r =
      ((e : Error) × (r ≡ (err e, users)))
      ⊎ ((u : User) × (r ≡ (ok (public u), users ++ u ∷ [])) × (u.email ≡ normalize_email email))

  hashed-IsRegistered :
      (up : Bool) (id : Uuid) (now : ℕ) (email : Bytes) (o : Option Bytes) (users : List User)
      → IsRegistered email users (hashed up id now email o users)
  unfolding hashed registered create insert_user
  hashed-IsRegistered up id now email none users = inl (failure, refl)
  hashed-IsRegistered up id now email (some h) users = elim (Bool-cases up) [
    | inr down ↦ inl (failure, rw down refl)
    | inl on ↦ elim (Option-cases (lookup (normalize_email email) users)) [
      | inr (v, known) ↦ inl (email_taken, rw (on, known) refl)
      | inl fresh ↦ inr (
        record { id = id; email = normalize_email email; password_hash = h; created_at = now },
        rw (on, fresh) refl,
        refl,
      )
    ]
  ]

  after_create-IsFiltered :
      (email : Bytes) (users : List User) (r : Result PublicUser × List User) (f : B.Store)
      → IsFiltered users f
      → IsRegistered email users r
      → IsFiltered r.1 (after_create true (normalize_email email) r.0 f)
  unfolding after_create record_email add
  after_create-IsFiltered email users r f h (inr (u, e, same)) = rw e (
      All-append
        (λ w. B.bf_exists key_emails w.email (B.bf_add key_emails (normalize_email email) f) ≡ true)
        users (u ∷ []) (still (normalize_email email) users f h)
        (rw same (B.bf_exists-bf_add key_emails (normalize_email email) f), tt))
  after_create-IsFiltered email users r f h (inl (email_taken, e)) =
      rw e (still (normalize_email email) users f h)
  after_create-IsFiltered email users r f h (inl (invalid m, e)) = rw e h
  after_create-IsFiltered email users r f h (inl (invalid_credentials, e)) = rw e h
  after_create-IsFiltered email users r f h (inl (user_not_found, e)) = rw e h
  after_create-IsFiltered email users r f h (inl (invalid_refresh, e)) = rw e h
  after_create-IsFiltered email users r f h (inl (failure, e)) = rw e h

  -- If the filter finds the email of each account, then also after a registration, whatever it
  -- answers, if the filter is reached to record the email.
  pub sign_up-IsFiltered :
      (C : Crypto) (c : Calls) (email password : Bytes) (users : List User) (f : B.Store)
      → c.record_up ≡ true
      → IsFiltered users f
      → IsFiltered (sign_up C c email password users f).0.1 (sign_up C c email password users f).1
  unfolding sign_up register unless unless_refused
  sign_up-IsFiltered C c email password users f up h =
      elim (Option-cases (
        refusal (validate_email email) (validate_password password)
          (may_contain B c.check_up key_emails (normalize_email email) f))) [
            | inr (e, refused) ↦ rw refused h
            | inl passed ↦
                rw (passed, up)
                  (after_create-IsFiltered email users
                    (hashed c.insert_up c.id c.clock email (C.hash password) users) f h
                    (hashed-IsRegistered c.insert_up c.id c.clock email (C.hash password) users))
          ]
