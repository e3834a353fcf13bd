-- ===== src/Auth/Service/Rotation.antt =====
-- What exchanging and giving up a refresh token does to the sessions.
use vidmerce.Prelude.{
  ℕ, ◌≡◌, ◌≢◌, ap, true, false, [], ◌++◌, none, some, Bytes, text, beq, beq_refl, if◌then◌else◌,
  ◌==◌, arith, Bool-cases, Option-cases, inl, inr,
}
use vidmerce.Uuid.{Uuid, UuidText, beq-to_string}
use vidmerce.Redis.{Redis, set, del}
use vidmerce.Auth.Refresh.{
  refresh_key, Mint, owner, unknown_token, token_of, check_raw, with_secret, issue, validate,
  drop_token, revoke,
}
use vidmerce.Auth.Refresh.Tokens.{
  IsApart, split-token_of, validate-token_of, issue_valid, index-get,
}
use vidmerce.Auth.Service.{Crypto, ok, pair_of, with_access, issue_tokens, rotate, refresh}

module _ (C : Crypto) (T : UuidText) (R : Redis) (apart : IsApart T) where
  open R use {Store, exec, get}

  beq-refresh_key :
      (id other : Uuid)
      → beq (refresh_key (T.to_string id)) (refresh_key (T.to_string other)) ≡ (id == other)
  unfolding refresh_key beq
  beq-refresh_key id other = beq-to_string T id other

  get-del_key :
      (id other : Uuid) (s : Store)
      → get (refresh_key (T.to_string other)) (exec (del (refresh_key (T.to_string id))) s)
        ≡ (if id == other then none else get (refresh_key (T.to_string other)) s)
  get-del_key id other s = ground (
    arith,
    beq-refresh_key id other,
    R.get-frame (del (refresh_key (T.to_string id))) (refresh_key (T.to_string other)) s,
    R.get-del (refresh_key (T.to_string id)) s,
    λ (e : id ≡ other). ap (λ i. refresh_key (T.to_string i)) e,
  )

  -- When Redis answers and the secrets are not empty, a revoked token is valid no longer, and
  -- revoking it leaves the tokens of other ids as they were.
  pub revoke-validate :
      (id other : Uuid) (secret secret' : Bytes) (s : Store)
      → secret ≢ []
      → secret' ≢ []
      → validate T R true (token_of T other secret') (revoke T R true (token_of T id secret) s).1
        ≡ (if id == other then unknown_token else validate T R true (token_of T other secret') s)
  unfolding revoke drop_token check_raw
  revoke-validate id other secret secret' s p q = rw (split-token_of T id secret p) (
      ground (
        arith,
        validate-token_of T R other secret' s q,
        validate-token_of T R other secret' (exec (del (refresh_key (T.to_string id))) s) q,
        get-del_key id other s,
      ))

  issue-get :
      (m : Mint) (ttl : ℕ) (user id : Uuid) (s : Store)
      → m.token_id ≢ id
      → get (refresh_key (T.to_string id)) (issue T R m ttl user s).1
        ≡ get (refresh_key (T.to_string id)) s
  unfolding issue with_secret
  issue-get m ttl user id s new = elim (Option-cases m.secret) [
    | inl none_minted ↦ rw none_minted
    | inr (secret, minted) ↦ elim (Bool-cases m.set_up) [
      | inr down ↦ rw (minted, down)
      | inl up ↦ ground (
        arith,
        minted,
        up,
        index-get T R apart m ttl user id (
            exec
              (set (refresh_key (T.to_string m.token_id)) (T.to_string user ++ (text "." ++ secret))
                ttl)
              s),
        R.get-frame
            (set (refresh_key (T.to_string m.token_id)) (T.to_string user ++ (text "." ++ secret))
              ttl)
            (refresh_key (T.to_string id)) s,
        beq-refresh_key m.token_id id,
        new,
      )
    ]
  ]

  -- Exchanging a valid token gives a new one that is valid for the same user, and the old one is
  -- valid no longer, when Redis answers (the index aside), the access token is signed, the new id
  -- is another and neither secret is empty. Identifiers' texts do not clash with the keys of the
  -- indexes.
  pub refresh_rotates :
      (m : Mint) (ttl : ℕ) (user old : Uuid) (secret secret' : Bytes) (a : Bytes × ℕ) (s : Store)
      → secret ≢ []
      → secret' ≢ []
      → validate T R true (token_of T old secret) s ≡ owner user
      → m.token_id ≢ old
      → m.secret ≡ some secret'
      → m.set_up ≡ true
      → C.issue_access user ≡ some a
      → (let r = refresh C T R true true m ttl (token_of T old secret) s in
          (r.0
            ≡ ok (record {
              access_token = a.0;
              refresh_token = token_of T m.token_id secret';
              access_expires_at = a.1;
              token_type = text "Bearer";
            }))
          × (validate T R true (token_of T m.token_id secret') r.1 ≡ owner user)
          × (validate T R true (token_of T old secret) r.1 ≡ unknown_token))
  unfolding refresh rotate issue_tokens with_access pair_of
  refresh_rotates m ttl user old secret secret' a s p q valid new minted up signed =
      let t = (revoke T R true (token_of T old secret) s).1 in
      let (given, works) = issue_valid T R apart m ttl user secret' secret' t minted up q q in
      let u = (issue T R m ttl user t).1 in
      ground (
        arith,
        valid,
        signed,
        given,
        works,
        beq_refl secret',
        validate-token_of T R old secret u p,
        validate-token_of T R old secret t p,
        issue-get m ttl user old t new,
        revoke-validate old old secret secret s p p,
      )

  -- When the revocation of a valid token does not get through, the exchange goes on all the same: it
  -- hands out a new pair of tokens, the new refresh token is valid for the user, and the old one
  -- stays valid too. The access token is signed, Redis stores the new token, its id is another,
  -- neither secret is empty, and identifiers' texts do not clash with the keys of the indexes.
  pub refresh_unrevoked :
      (m : Mint) (ttl : ℕ) (user old : Uuid) (secret secret' : Bytes) (a : Bytes × ℕ) (s : Store)
      → secret ≢ []
      → secret' ≢ []
      → validate T R true (token_of T old secret) s ≡ owner user
      → m.token_id ≢ old
      → m.secret ≡ some secret'
      → m.set_up ≡ true
      → C.issue_access user ≡ some a
      → (let r = refresh C T R true false m ttl (token_of T old secret) s in
          (r.0
            ≡ ok (record {
              access_token = a.0;
              refresh_token = token_of T m.token_id secret';
              access_expires_at = a.1;
              token_type = text "Bearer";
            }))
          × (validate T R true (token_of T m.token_id secret') r.1 ≡ owner user)
          × (validate T R true (token_of T old secret) r.1 ≡ owner user))
  unfolding refresh rotate issue_tokens with_access pair_of revoke drop_token
  refresh_unrevoked m ttl user old secret secret' a s p q valid new minted up signed =
      let (given, works) = issue_valid T R apart m ttl user secret' secret' s minted up q q in
      ground (
        arith,
        valid,
        signed,
        given,
        works,
        beq_refl secret',
        split-token_of T old secret p,
        validate-token_of T R old secret s p,
        validate-token_of T R old secret (issue T R m ttl user s).1 p,
        issue-get m ttl user old s new,
      )
