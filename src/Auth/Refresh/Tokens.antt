-- ===== src/Auth/Refresh/Tokens.antt =====
-- What holds of the tokens in the store.
use vidmerce.Prelude.{
  ℕ, ◌≡◌, ◌≢◌, refl, sym, true, false, [], ◌∷◌, ◌++◌, some, Bytes, text, beq, beq_iff,
  if◌then◌else◌, All, arith, Option-cases, inl, inr,
}
use vidmerce.Uuid.{Uuid, UuidText}
use vidmerce.Redis.{Redis, set, s_add, expire}
use vidmerce.Auth.Refresh.{
  cut, both, split_refresh, refresh_key, refresh_user_index_key, Mint, owner, unknown_token,
  token_of, check_stored, check_raw, index, with_secret, issue, read_token, validate, known_owner,
}

cut-join :
    (id secret : Bytes)
    → All (λ c. c ≢ b'.') id
    → cut (id ++ (text "." ++ secret)) ≡ some (id, secret)
unfolding cut
cut-join [] secret h = elim (Option-cases (cut secret)) [ inl e ↦ rw e | inr (p, e) ↦ rw e ]
cut-join (c ∷ id) secret h = ground (arith, cut-join id secret h.1, h.0)

-- A token is split where it was joined, when its id has no dot and neither part is empty.
pub split_refresh-join :
    (id secret : Bytes)
    → All (λ c. c ≢ b'.') id
    → id ≢ []
    → secret ≢ []
    → split_refresh (id ++ (text "." ++ secret)) ≡ some (id, secret)
unfolding split_refresh both
split_refresh-join [] secret h p q = absurd (p refl)
split_refresh-join (c ∷ id) [] h p q = absurd (q refl)
split_refresh-join (c ∷ id) (d ∷ secret) h p q = rw (cut-join (c ∷ id) (d ∷ secret) h)

module _ (T : UuidText) where
  pub split-token_of :
      (id : Uuid) (secret : Bytes)
      → secret ≢ []
      → split_refresh (token_of T id secret) ≡ some (T.to_string id, secret)
  split-token_of id secret q =
      split_refresh-join (T.to_string id) secret (T.to_string_no_dot id) (T.to_string-ne-nil id) q

  -- The record that `Issue` stores answers for its own secret.
  pub check_raw-stored :
      (user : Uuid) (secret other : Bytes)
      → secret ≢ []
      → check_raw T other (some (T.to_string user ++ (text "." ++ secret)))
        ≡ (if beq secret other then owner user else unknown_token)
  unfolding check_raw check_stored known_owner
  check_raw-stored user secret other q = rw (split-token_of user secret q, T.parse-to_string user)

  module _ (R : Redis) where
    open R use {Store, exec, get}

    -- What `Validate` answers for a token of a given id and secret.
    pub validate-token_of :
        (id : Uuid) (secret : Bytes) (s : Store)
        → secret ≢ []
        → validate T R true (token_of T id secret) s
          ≡ check_raw T secret (get (refresh_key (T.to_string id)) s)
    unfolding validate read_token
    validate-token_of id secret s q = rw (split-token_of id secret q)

-- The text of an identifier is not that of a per-user index's key behind the common prefix.
abbrev pub IsApart : UuidText → Type 0
IsApart T = (u v : Uuid) → T.to_string u ≢ text "user:" ++ T.to_string v

module _ (T : UuidText) (R : Redis) (apart : IsApart T) where
  open R use {Store, exec, get}

  index_key-ne-refresh_key :
      (id user : Uuid) → beq (refresh_user_index_key T user) (refresh_key (T.to_string id)) ≡ false
  unfolding refresh_user_index_key refresh_key beq
  index_key-ne-refresh_key id user = ground (
    arith,
    beq_iff (text "user:" ++ T.to_string user) (T.to_string id),
    λ (e : text "user:" ++ T.to_string user ≡ T.to_string id). apart id user (sym e),
  )

  -- The index of a user's tokens leaves every token alone.
  pub index-get :
      (m : Mint) (ttl : ℕ) (user id : Uuid) (s : Store)
      → get (refresh_key (T.to_string id)) (index T R m ttl user s)
        ≡ get (refresh_key (T.to_string id)) s
  unfolding index
  index-get m ttl user id s = ground (
    arith,
    R.get-frame (expire (refresh_user_index_key T user) ttl) (refresh_key (T.to_string id))
        (exec (s_add (refresh_user_index_key T user) (T.to_string m.token_id)) s)
        (index_key-ne-refresh_key id user),
    R.get-frame (s_add (refresh_user_index_key T user) (T.to_string m.token_id))
        (refresh_key (T.to_string id)) s (index_key-ne-refresh_key id user),
  )

  -- A token that is stored is valid for its user, and only with its own secret, whether or not
  -- the index is written. The secrets are not empty, and identifiers' texts do not clash with the
  -- keys of the indexes.
  pub issue_valid :
      (m : Mint) (ttl : ℕ) (user : Uuid) (secret other : Bytes) (s : Store)
      → m.secret ≡ some secret
      → m.set_up ≡ true
      → secret ≢ []
      → other ≢ []
      → ((issue T R m ttl user s).0 ≡ some (token_of T m.token_id secret))
        × (validate T R true (token_of T m.token_id other) (issue T R m ttl user s).1
            ≡ (if beq secret other then owner user else unknown_token))
  unfolding issue with_secret
  issue_valid m ttl user secret other s minted up p q =
      rw (minted, up)
        (
          refl,
          rw
              (
                validate-token_of T R m.token_id other
                    (index T R m ttl user (
                      exec
                        (set (refresh_key (T.to_string m.token_id))
                          (T.to_string user ++ (text "." ++ secret)) ttl)
                        s))
                    q,
                index-get m ttl user m.token_id (
                    exec
                      (set (refresh_key (T.to_string m.token_id))
                        (T.to_string user ++ (text "." ++ secret)) ttl)
                      s),
                R.get-set (refresh_key (T.to_string m.token_id))
                    (T.to_string user ++ (text "." ++ secret)) ttl s,
              )
              (check_raw-stored T user secret other p),
        )
