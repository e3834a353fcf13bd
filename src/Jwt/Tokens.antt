-- ===== src/Jwt/Tokens.antt =====
-- Who gets past the middleware.
use vidmerce.Prelude.{
  ℕ, ◌+◌, ◌≤◌, ◌<◌, ◌≡◌, ◌≢◌, refl, ap, true, false, ◌==◌, [], ◌∷◌, ◌++◌, none, some, Bytes, text,
  length, drop, if◌then◌else◌, arith, inl, inr, ◌⊎◌, Bool-cases, Option-cases, beq, ltb,
}
use vidmerce.Uuid.{Uuid, uuid_nil}
use vidmerce.Auth.Email.{trim_space}
use vidmerce.Bloom.{has_prefix}
use vidmerce.Http.{Reply, error, code_unauthenticated}
use vidmerce.Jwt.{
  Claims, Signer, with_expiry, issue_access, named, parse, refused, admit, require_auth,
  optional_auth,
}

module _ (S : Signer) where
  -- A header that carries a token of the user, not expired.
  abbrev pub IsBearer : ℕ → Bytes → Uuid → Type 0
  IsBearer now raw user =
      (c : Claims) × (has_prefix (text "Bearer ") raw ≡ true)
      × (S.read now (trim_space (drop 7 raw)) ≡ some c)
      × (c.user_id ≡ user)
      × (user ≢ uuid_nil)
      × (now < c.expires_at)

  parse-read :
      (now : ℕ) (token : Bytes) (user : Uuid)
      → parse S now token ≡ some user
      → (c : Claims) × (S.read now token ≡ some c) × (c.user_id ≡ user) × (user ≢ uuid_nil)
  unfolding parse named
  parse-read now token user h = elim (Option-cases (S.read now token)) [
    | inl none_read ↦ absurd (cc (rw none_read at h))
    | inr (c, e) ↦ let g = rw e at h in (c, e, ground (arith, g), ground (arith, g))
  ]

  pub optional_auth-IsBearer :
      (now : ℕ) (raw : Bytes) (user : Uuid)
      → optional_auth S now raw ≡ some user
      → IsBearer now raw user
  unfolding optional_auth
  optional_auth-IsBearer now raw user h =
      let prefixed : has_prefix (text "Bearer ") raw ≡ true = ground (arith, h) in
      let parsed : parse S now (trim_space (drop 7 raw)) ≡ some user = ground (arith, h) in
      let (c, e, f, g) = parse-read now (trim_space (drop 7 raw)) user parsed in
      (c, prefixed, e, f, g, S.read_before_expiry now c (trim_space (drop 7 raw)) e)

  -- Either the header carries a token of a user that has not expired, and both middlewares let the
  -- request through as that user; or the strict one answers 401 and changes nothing, and the
  -- lenient one lets it through as nobody.
  pub require_auth-optional_auth {ℓ κ} :
      {A : Type ℓ} {W : Type κ} (now : ℕ) (raw : Bytes) (next : Uuid → W → Reply A × W) (w : W)
      → ((user : Uuid) × IsBearer now raw user
          × (optional_auth S now raw ≡ some user)
          × (require_auth S now raw next w ≡ next user w))
        ⊎ ((message : Bytes) × (optional_auth S now raw ≡ none)
            × (require_auth S now raw next w ≡ (error 401 code_unauthenticated message, w)))
  require_auth-optional_auth now raw next w = elim (Bool-cases (length raw == 0)) [
    | inl e ↦ inr (
      text "missing authorization header",
      unfold optional_auth in (rw e refl),
      unfold require_auth in (rw e refl),
    )
    | inr a ↦ elim (Bool-cases (has_prefix (text "Bearer ") raw)) [
      | inr e ↦ inr (
        text "malformed authorization header",
        unfold optional_auth in (rw (a, e) refl),
        unfold require_auth in (rw (a, e) refl),
      )
      | inl b ↦ elim (Bool-cases (length (trim_space (drop 7 raw)) == 0)) [
        | inl e ↦ inr (
          text "empty bearer token",
          unfold optional_auth in (rw (a, b, e) refl),
          unfold require_auth in (rw (a, b, e) refl),
        )
        | inr c ↦ elim (Option-cases (parse S now (trim_space (drop 7 raw)))) [
          | inl e ↦ inr (
            text "invalid or expired token",
            unfold optional_auth in (rw (a, b, c, e) refl),
            unfold require_auth in (rw (a, b, c, e) refl),
          )
          | inr (user, e) ↦
              let seen : optional_auth S now raw ≡ some user =
                unfold optional_auth in (rw (a, b, c, e) refl) in
              inl (
                user,
                optional_auth-IsBearer now raw user seen,
                seen,
                unfold require_auth in (rw (a, b, c, e) refl),
              )
        ]
      ]
    ]
  ]

  bearer_token :
      (token : Bytes)
      → trim_space token ≡ token
      → token ≢ []
      → (has_prefix (text "Bearer ") (text "Bearer " ++ token) ≡ true)
        × ((length (trim_space (drop 7 (text "Bearer " ++ token))) == 0) ≡ false)
        × (trim_space (drop 7 (text "Bearer " ++ token)) ≡ token)
        × ((length (text "Bearer " ++ token) == 0) ≡ false)
  unfolding has_prefix beq
  bearer_token [] t n = absurd (n refl)
  bearer_token (c ∷ cs) t n = (refl, rw t (ground arith), t, ground arith)

  -- What the signed claims are read as.
  parse-sign :
      (now : ℕ) (c : Claims) (token : Bytes)
      → S.sign c ≡ some token
      → c.user_id ≢ uuid_nil
      → c.issued_at ≤ now
      → c.not_before ≤ now
      → parse S now token ≡ (if ltb now c.expires_at then some c.user_id else none)
  unfolding parse named
  parse-sign now c token h u i b = elim (Bool-cases (ltb now c.expires_at)) [
    | inl valid ↦
        rw (valid, S.read-sign now c token h i b (ground (arith, valid))) (ground (arith, u))
    | inr expired ↦ elim (Option-cases (S.read now token)) [
      | inl gone ↦ rw (expired, gone) refl
      | inr (d, e) ↦ absurd (
          ground (
            arith,
            S.read_before_expiry now d token e,
            ap (λ (x : Claims). x.expires_at) (S.reads_alike now c d token h e),
            expired,
          ))
    ]
  ]

  issued-sign :
      (issuer : Bytes) (ttl now : ℕ) (id : Bytes) (user : Uuid) (token : Bytes) (expires : ℕ)
      → issue_access S issuer ttl now id user ≡ some (token, expires)
      → (S.sign (record {
        user_id = user;
        issuer = issuer;
        issued_at = now;
        not_before = now;
        expires_at = now + ttl;
        id = id;
      })
          ≡ some token)
        × (expires ≡ now + ttl)
  unfolding issue_access with_expiry
  issued-sign issuer ttl now id user token expires h =
      elim (Option-cases (
        S.sign (record {
          user_id = user;
          issuer = issuer;
          issued_at = now;
          not_before = now;
          expires_at = now + ttl;
          id = id;
        }))) [
          | inl failed ↦ absurd (cc (rw failed at h))
          | inr (t, e) ↦ let g = rw e at h in (ground (arith, e, g), ground (arith, g))
        ]

  -- A token that was issued to a user, whose identifier is not the nil one, lets a request that
  -- carries it through as that user from then until it expires, and afterwards the request is
  -- answered 401 and changes nothing.
  pub require_auth-issue_access {ℓ κ} :
      {A : Type ℓ} {W : Type κ} (issuer : Bytes) (ttl issued now : ℕ) (id : Bytes) (user : Uuid)
      (token : Bytes) (expires : ℕ) (next : Uuid → W → Reply A × W) (w : W)
      → user ≢ uuid_nil
      → issue_access S issuer ttl issued id user ≡ some (token, expires)
      → issued ≤ now
      → require_auth S now (text "Bearer " ++ token) next w ≡ (
          if ltb now (issued + ttl)
          then next user w
          else (error 401 code_unauthenticated (text "invalid or expired token"), w))
  unfolding require_auth admit refused
  require_auth-issue_access issuer ttl issued now id user token expires next w u h since =
      let (signed, same) = issued-sign issuer ttl issued id user token expires h in
      let (a, b, c, d) =
        bearer_token token (S.trim_space-sign _ token signed) (S.sign-ne-nil _ token signed) in
      let p = parse-sign now _ token signed u since since in
      elim (Bool-cases (ltb now (issued + ttl))) [
        | inl valid ↦ rw (d, a, b, c, p, valid) refl
        | inr expired ↦ rw (d, a, b, c, p, expired) refl
      ]
