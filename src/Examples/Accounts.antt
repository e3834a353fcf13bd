-- ===== src/Examples/Accounts.antt =====
-- Accounts and sessions, in a store in memory.
use vidmerce.Prelude.{
  ◌≡◌, refl, true, false, [], some, Bytes, text, arith, if◌then◌else◌, beq, beq_refl,
}
use vidmerce.Uuid.{letters, letter_parse}
use vidmerce.Redis.Memory.{Memory, empty, in_memory}
use vidmerce.Auth.Refresh.{
  Mint, issue, validate, revoke, owner, unknown_token, token_of, split_refresh, cut, refresh_key,
}
use vidmerce.Auth.Refresh.Tokens.{IsApart, issue_valid}
use vidmerce.Auth.Email.{trim_space, normalize_email, to_lower}
use vidmerce.Auth.Service.{
  Crypto, PublicUser, register, login, refresh, issue_tokens, ok, validate_email, validate_password,
  email_maybe_taken, hashed, create, lookup, citext_eq, public,
}
use vidmerce.Auth.Service.Rotation.{revoke-validate, refresh_rotates, refresh_unrevoked}
use vidmerce.Auth.Signup.{Calls, sign_up, IsFiltered, sign_up-IsFiltered}
use vidmerce.Examples.Filters.{exact, vacant}
use vidmerce.Auth.Service.Accounts.{login-register}

letters-IsApart : IsApart letters
letters-IsApart u v e = cc

plain_back : (pw h : Bytes) → some pw ≡ some h → beq h pw ≡ true
plain_back pw h e = let same : pw ≡ h = cc in rw same (beq_refl h)

-- A hash that hides nothing, and a signer of one token.
abbrev plain : Crypto
plain = record {
  hash = λ pw. some pw;
  compare = λ h pw. beq h pw;
  issue_access = λ u. some (text "jwt", 900);
  compare-hash = plain_back;
}

abbrev first : Mint
first = record { token_id = 1; secret = some (text "s1"); set_up = true; index_up = true }

abbrev second : Mint
second = record { token_id = 2; secret = some (text "s2"); set_up = true; index_up = false }

abbrev logged_in : Memory
logged_in = (issue letters in_memory first 60 7 empty).1

issue_valid_example :
    ((issue letters in_memory first 60 7 empty).0 ≡ some (token_of letters 1 (text "s1")))
    × (validate letters in_memory true (token_of letters 1 (text "xx")) logged_in
        ≡ (if beq (text "s1") (text "xx") then owner 7 else unknown_token))
issue_valid_example =
    issue_valid letters in_memory letters-IsApart first 60 7 (text "s1") (text "xx") empty refl refl
      (λ e. cc) (λ e. cc)

is_valid : validate letters in_memory true (token_of letters 1 (text "s1")) logged_in ≡ owner 7
unfolding validate issue split_refresh cut beq refresh_key letter_parse
is_valid = refl

refresh_rotates_example :
    ((refresh plain letters in_memory true true second 60
        (token_of letters 1 (text "s1"))
        logged_in).0
      ≡ ok (record {
        access_token = text "jwt";
        refresh_token = token_of letters 2 (text "s2");
        access_expires_at = 900;
        token_type = text "Bearer";
      }))
    × (validate letters in_memory true
          (token_of letters 2 (text "s2"))
          (refresh plain letters in_memory true true second 60
            (token_of letters 1 (text "s1"))
            logged_in).1
        ≡ owner 7)
    × (validate letters in_memory true
          (token_of letters 1 (text "s1"))
          (refresh plain letters in_memory true true second 60
            (token_of letters 1 (text "s1"))
            logged_in).1
        ≡ unknown_token)
refresh_rotates_example =
    refresh_rotates plain letters in_memory letters-IsApart second 60 7 1 (text "s1") (text "s2")
      (text "jwt", 900) logged_in (λ e. cc) (λ e. cc) is_valid (omega arith) refl refl refl

refresh_unrevoked_example :
    ((refresh plain letters in_memory true false second 60
        (token_of letters 1 (text "s1"))
        logged_in).0
      ≡ ok (record {
        access_token = text "jwt";
        refresh_token = token_of letters 2 (text "s2");
        access_expires_at = 900;
        token_type = text "Bearer";
      }))
    × (validate letters in_memory true
          (token_of letters 2 (text "s2"))
          (refresh plain letters in_memory true false second 60
            (token_of letters 1 (text "s1"))
            logged_in).1
        ≡ owner 7)
    × (validate letters in_memory true
          (token_of letters 1 (text "s1"))
          (refresh plain letters in_memory true false second 60
            (token_of letters 1 (text "s1"))
            logged_in).1
        ≡ owner 7)
refresh_unrevoked_example =
    refresh_unrevoked plain letters in_memory letters-IsApart second 60 7 1 (text "s1") (text "s2")
      (text "jwt", 900) logged_in (λ e. cc) (λ e. cc) is_valid (omega arith) refl refl refl

revoke-validate_example :
    validate letters in_memory true
      (token_of letters 2 (text "s2"))
      (revoke letters in_memory true (token_of letters 1 (text "s1")) logged_in).1
    ≡ validate letters in_memory true (token_of letters 2 (text "s2")) logged_in
revoke-validate_example =
    revoke-validate plain letters in_memory letters-IsApart 1 2 (text "s1") (text "s2") logged_in
      (λ e. cc) (λ e. cc)

abbrev ann : PublicUser
ann = record { id = 9; email = text "ann@x.org"; created_at = 100 }

registered :
    (register plain (some false) true 9 100 (text "Ann@x.org ") (text "password") []).0 ≡ ok ann
unfolding register validate_email trim_space validate_password email_maybe_taken hashed create
    normalize_email lookup citext_eq to_lower public
registered = refl

login-register_example :
    login plain letters in_memory true first 60
      (text "ann@X.org")
      (text "password")
      (register plain (some false) true 9 100 (text "Ann@x.org ") (text "password") []).1
      empty
    ≡ issue_tokens plain letters in_memory first 60 9 empty
login-register_example =
    login-register plain letters in_memory (some false) true 9 100 (text "Ann@x.org ")
      (text "ann@X.org") (text "password") [] ann first 60 empty registered
      (unfold normalize_email trim_space in refl)

abbrev calls : Calls
calls = record { check_up = true; insert_up = true; record_up = true; id = 7; clock = 100 }

sign_up-IsFiltered_example :
    IsFiltered exact
      (sign_up exact plain calls (text "A@b.c ") (text "password") [] vacant).0.1
      (sign_up exact plain calls (text "A@b.c ") (text "password") [] vacant).1
sign_up-IsFiltered_example =
    sign_up-IsFiltered exact plain calls (text "A@b.c ") (text "password") [] vacant refl tt
