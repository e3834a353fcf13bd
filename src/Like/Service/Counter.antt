-- ===== src/Like/Service/Counter.antt =====
-- The counter of a video and the sets of its likers.
use vidmerce.Prelude.{
  ℕ, suc, ◌+◌, ◌-◌, ◌<◌, ◌≡◌, ap, ◌∙◌, Bool, true, false, List, [], ◌∷◌, Bytes, if◌then◌else◌, ◌==◌,
  inl, inr, arith, Bool-cases, ==_refl,
}
use vidmerce.Prelude.Int.{pos, negsuc, ◌+ℤ◌}
use vidmerce.Uuid.{Uuid, UuidText}
use vidmerce.Redis.{Redis, incr, decr, s_add, s_rem, x_add, or_zero}
use vidmerce.Like.Service.{
  Op, like, unlike, stream_key, stream_max_len, user_liked_set_key, video_likes_count_key, clamp,
  apply,
}
use vidmerce.Like.Service.Keys.{
  count_key-ne-set_key, stream_key-ne-count_key, beq-video_likes_count_key,
}
use vidmerce.Like.Service.Effects.{
  like_store, unlike_store, like_store-is_member, unlike_store-is_member, apply-like, apply-unlike,
}

-- How often a user is listed.
abbrev pub times : Uuid → List Uuid → ℕ
times u [] = 0
times u (w ∷ ws) = if u == w then suc (times u ws) else times u ws

module _ (T : UuidText) (R : Redis) where
  open R use {Store, exec, number, is_member}

  -- How many of the users like the video.
  unfoldable pub likers : List Uuid → Uuid → Store → ℕ
  likers [] v s = 0
  likers (w ∷ ws) v s =
      if is_member (user_liked_set_key T w) (T.to_string v) s
      then suc (likers ws v s)
      else likers ws v s

  -- Each counter counts the users that like its video.
  abbrev pub IsCounted : List Uuid → Store → Type 0
  IsCounted users s =
      (v : Uuid) → or_zero (number (video_likes_count_key T v) s) ≡ pos (likers users v s)

  likers-like_store :
      (users : List Uuid) (u v x : Uuid) (ts : Bytes) (s : Store)
      → is_member (user_liked_set_key T u) (T.to_string v) s ≡ false
      → likers users x (like_store T R u v ts s)
        ≡ likers users x s + (if v == x then times u users else 0)
  unfolding likers
  likers-like_store [] u v x ts s h = ground arith
  likers-like_store (w ∷ ws) u v x ts s h =
      ground (arith, like_store-is_member T R u v w x ts s, likers-like_store ws u v x ts s h)

  likers-unlike_store :
      (users : List Uuid) (u v x : Uuid) (ts : Bytes) (s : Store)
      → is_member (user_liked_set_key T u) (T.to_string v) s ≡ true
      → likers users x (unlike_store T R u v ts s) + (if v == x then times u users else 0)
        ≡ likers users x s
  unfolding likers
  likers-unlike_store [] u v x ts s h = ground arith
  likers-unlike_store (w ∷ ws) u v x ts s h =
      ground (arith, unlike_store-is_member T R u v w x ts s, likers-unlike_store ws u v x ts s h)

  number-like_store :
      (u v x : Uuid) (ts : Bytes) (s : Store)
      → or_zero (number (video_likes_count_key T x) (like_store T R u v ts s))
        ≡ or_zero (number (video_likes_count_key T x) s) +ℤ pos (if v == x then 1 else 0)
  unfolding like_store
  number-like_store u v x ts s =
      let s₁ = exec (s_add (user_liked_set_key T u) (T.to_string v)) s in
      let s₂ = exec (incr (video_likes_count_key T v)) s₁ in
      rw
        (R.number-frame (x_add stream_key stream_max_len _) (video_likes_count_key T x) s₂
          (stream_key-ne-count_key T x))
        (ground (
          arith,
          R.number-incr (video_likes_count_key T v) s₁,
          R.number-frame (incr (video_likes_count_key T v)) (video_likes_count_key T x) s₁,
          beq-video_likes_count_key T v x,
          R.number-frame (s_add (user_liked_set_key T u) (T.to_string v))
              (video_likes_count_key T x) s (count_key-ne-set_key T u x),
        ))

  -- The counter after the decrement, before the clamp.
  number-removed :
      (u v x : Uuid) (s : Store)
      → or_zero (
          number (video_likes_count_key T x) (
            exec
              (decr (video_likes_count_key T v))
              (exec (s_rem (user_liked_set_key T u) (T.to_string v)) s)))
        ≡ (if v == x
            then or_zero (number (video_likes_count_key T x) s) +ℤ negsuc 0
            else or_zero (number (video_likes_count_key T x) s))
  number-removed u v x s =
      let s₁ = exec (s_rem (user_liked_set_key T u) (T.to_string v)) s in
      ground (
        arith,
        R.number-decr (video_likes_count_key T v) s₁,
        R.number-frame (decr (video_likes_count_key T v)) (video_likes_count_key T x) s₁,
        beq-video_likes_count_key T v x,
        R.number-frame (s_rem (user_liked_set_key T u) (T.to_string v)) (video_likes_count_key T x)
            s (count_key-ne-set_key T u x),
      )

  -- A counter that is not negative is not clamped.
  clamp_id :
      (v n : ℕ) (s : Store)
      → or_zero (number (video_likes_count_key T v) s) ≡ pos n
      → clamp R (video_likes_count_key T v) s ≡ (pos n, s)
  unfolding clamp
  clamp_id v n s h = ground arith

  number-unlike_store :
      (u v x n : ℕ) (ts : Bytes) (s : Store)
      → or_zero (
          number (video_likes_count_key T v) (
            exec
              (decr (video_likes_count_key T v))
              (exec (s_rem (user_liked_set_key T u) (T.to_string v)) s)))
        ≡ pos n
      → number (video_likes_count_key T x) (unlike_store T R u v ts s)
        ≡ number (video_likes_count_key T x) (
            exec
              (decr (video_likes_count_key T v))
              (exec (s_rem (user_liked_set_key T u) (T.to_string v)) s))
  unfolding unlike_store
  number-unlike_store u v x n ts s h =
      R.number-frame (x_add stream_key stream_max_len _) (video_likes_count_key T x) _
        (stream_key-ne-count_key T x)
      ∙ ap (λ c. number (video_likes_count_key T x) c.1) (clamp_id v n _ h)

  -- The members of a user's set are counted, so there is one to take away.
  likers_pos :
      (users : List Uuid) (u v : Uuid) (s : Store)
      → is_member (user_liked_set_key T u) (T.to_string v) s ≡ true
      → times u users ≡ 1
      → 0 < likers users v s
  unfolding likers
  likers_pos [] u v s h once = absurd (ground arith)
  likers_pos (w ∷ ws) u v s h once = ground (arith, likers_pos ws u v s h)

  module _ (users : List Uuid) (u v : Uuid) (ts : Bytes) (s : Store) (once : times u users ≡ 1)
      (counted : IsCounted users s) where
    like_store-IsCounted :
        is_member (user_liked_set_key T u) (T.to_string v) s ≡ false
        → IsCounted users (like_store T R u v ts s)
    like_store-IsCounted new x = ground (
      arith,
      counted x,
      once,
      number-like_store u v x ts s,
      likers-like_store users u v x ts s new,
    )

    removed-counter :
        is_member (user_liked_set_key T u) (T.to_string v) s ≡ true
        → (n : ℕ) × (likers users v s ≡ suc n)
          × (or_zero (
                number (video_likes_count_key T v) (
                  exec
                    (decr (video_likes_count_key T v))
                    (exec (s_rem (user_liked_set_key T u) (T.to_string v)) s)))
              ≡ pos n)
    removed-counter old = (
      likers users v s - 1,
      omega (arith, likers_pos users u v s old once),
      ground (arith, number-removed u v v s, counted v, likers_pos users u v s old once, ==_refl v),
    )

    unlike_store-IsCounted :
        is_member (user_liked_set_key T u) (T.to_string v) s ≡ true
        → IsCounted users (unlike_store T R u v ts s)
    unlike_store-IsCounted old x =
        let (n, e, c) = removed-counter old in
        rw (number-unlike_store u v x n ts s c) (
          ground (
            arith,
            number-removed u v x s,
            counted x,
            likers_pos users u v s old once,
            likers-unlike_store users u v x ts s old,
            once,
          ))

  -- If each counter equals the number of likers among some users, then so it does after a
  -- request, or a failed one, of a user that stands once among them.
  pub apply-IsCounted :
      (users : List Uuid) (up : Bool) (u v : Uuid) (op : Op) (ts : Bytes) (s : Store)
      → times u users ≡ 1
      → IsCounted users s
      → IsCounted users (apply T R up u v op ts s).1
  apply-IsCounted users true u v like ts s once counted =
      rw (apply-like T R u v ts s)
        (elim (Bool-cases (is_member (user_liked_set_key T u) (T.to_string v) s)) [
          | inl old ↦ rw old counted
          | inr new ↦ rw new (like_store-IsCounted users u v ts s once counted new)
        ])
  apply-IsCounted users true u v unlike ts s once counted =
      rw (apply-unlike T R u v ts s)
        (elim (Bool-cases (is_member (user_liked_set_key T u) (T.to_string v) s)) [
          | inl old ↦ rw old (unlike_store-IsCounted users u v ts s once counted old)
          | inr new ↦ rw new counted
        ])
  apply-IsCounted users false u v op ts s once counted = unfold apply in counted
