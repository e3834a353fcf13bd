-- ===== src/Auth/Refresh.antt =====
-- internal/auth/refresh.go: the store of refresh tokens. The random parts of a token and whether each
-- call of Redis gets through are arguments.
pub mod Tokens
use vidmerce.Prelude.{
  ℕ, Bool, true, false, List, [], ◌∷◌, ◌++◌, Option, none, some, Bytes, text, beq, ◌==◌,
  if◌then◌else◌,
}
use vidmerce.Uuid.{Uuid, UuidText}
use vidmerce.Redis.{Redis, set, del, s_add, expire}

-- The loop of `splitRefresh`: what stands before the first dot, and what after it.
unfoldable pub cut : Bytes → Option (Bytes × Bytes)
cut [] = none
cut (c ∷ cs) = elim (cut cs) [
  | none ↦ if c == b'.' then some ([], cs) else none
  | some p ↦ if c == b'.' then some ([], cs) else some (c ∷ p.0, p.1)
]

unfoldable pub both : Option (Bytes × Bytes) → Option (Bytes × Bytes)
both none = none
both (some ([], secret)) = none
both (some (c ∷ id, [])) = none
both (some (c ∷ id, d ∷ secret)) = some (c ∷ id, d ∷ secret)

-- `splitRefresh`
unfoldable pub split_refresh : Bytes → Option (Bytes × Bytes)
unfolding both
split_refresh s = both (cut s)

unfoldable pub refresh_key : Bytes → Bytes
refresh_key token_id = text "refresh:" ++ token_id

unfoldable pub refresh_user_index_key : UuidText → Uuid → Bytes
refresh_user_index_key T user = text "refresh:user:" ++ T.to_string user

-- A new token's parts: `uuid.NewString` and `randomToken`, and which calls get through.
pub record Mint : Type 0 where
  pub token_id : Uuid
  pub secret : Option Bytes
  pub set_up : Bool
  pub index_up : Bool

-- `Validate`'s answer; only `owner` is not an error.
pub data Validity : Type 0 where
  owner : Uuid → Validity
  unknown_token : Validity
  unreadable : Validity

module _ (T : UuidText) where
  -- The token that the client gets.
  abbrev pub token_of : Uuid → Bytes → Bytes
  token_of token_id secret = T.to_string token_id ++ (text "." ++ secret)

  unfoldable pub known_owner : Option Uuid → Validity
  known_owner none = unknown_token
  known_owner (some user) = owner user

  unfoldable pub check_stored : Bytes → Option (Bytes × Bytes) → Validity
  unfolding known_owner
  check_stored secret none = unknown_token
  check_stored secret (some (user, stored)) =
      if beq stored secret then known_owner (T.parse user) else unknown_token

  unfoldable pub check_raw : Bytes → Option Bytes → Validity
  unfolding check_stored
  check_raw secret none = unknown_token
  check_raw secret (some raw) = check_stored secret (split_refresh raw)

  module _ (R : Redis) where
    open R use {Store, exec, get}

    unfoldable pub index : Mint → ℕ → Uuid → Store → Store
    index m ttl user s =
        if m.index_up
        then exec (expire (refresh_user_index_key T user) ttl)
            (exec (s_add (refresh_user_index_key T user) (T.to_string m.token_id)) s)
        else s

    unfoldable pub with_secret : Mint → ℕ → Uuid → Option Bytes → Store → Option Bytes × Store
    unfolding index
    with_secret m ttl user none s = (none, s)
    with_secret m ttl user (some secret) s =
        if m.set_up
        then (
          some (token_of m.token_id secret),
          index m ttl user (
              exec
                (set (refresh_key (T.to_string m.token_id))
                  (T.to_string user ++ (text "." ++ secret)) ttl)
                s),
        )
        else (none, s)

    -- `Issue`; `none` is an error.
    unfoldable pub issue : Mint → ℕ → Uuid → Store → Option Bytes × Store
    unfolding with_secret
    issue m ttl user s = with_secret m ttl user m.secret s

    unfoldable pub read_token : Bool → Option (Bytes × Bytes) → Store → Validity
    unfolding check_raw
    read_token up none s = unknown_token
    read_token up (some (id, secret)) s =
        if up then check_raw secret (get (refresh_key id) s) else unreadable

    -- `Validate`
    unfoldable pub validate : Bool → Bytes → Store → Validity
    unfolding read_token
    validate up token s = read_token up (split_refresh token) s

    unfoldable pub drop_token : Bool → Option (Bytes × Bytes) → Store → Bool × Store
    drop_token up none s = (true, s)
    drop_token up (some (id, secret)) s =
        if up then (true, exec (del (refresh_key id)) s) else (false, s)

    -- `Revoke`; false is an error.
    unfoldable pub revoke : Bool → Bytes → Store → Bool × Store
    unfolding drop_token
    revoke up token s = drop_token up (split_refresh token) s
