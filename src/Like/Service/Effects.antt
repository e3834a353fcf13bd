-- ===== src/Like/Service/Effects.antt =====
-- What one request does to Redis.
use vidmerce.Prelude.{
  ◌<◌, ◌≡◌, refl, ap, ◌∙◌, Bool, true, false, ◌&&◌, List, [], ◌∷◌, ◌++◌, Bytes, text, beq,
  if◌then◌else◌, ◌==◌, arith, length,
}
use vidmerce.Prelude.Int.{pos}
use vidmerce.Uuid.{Uuid, UuidText, beq-to_string}
use vidmerce.Redis.{Redis, incr, decr, s_add, s_rem, set_number, x_add}
use vidmerce.Like.Service.{
  Op, like, unlike, op_text, stream_key, stream_max_len, user_liked_set_key, video_likes_count_key,
  event_fields, script_like, clamp, script_unlike, like_script, apply,
}
use vidmerce.Like.Service.Keys.{
  set_key-ne-count_key, stream_key-ne-set_key, set_key-ne-stream_key, count_key-ne-stream_key,
  beq-user_liked_set_key,
}

-- What an op asks for.
abbrev pub wanted : Op → Bool
wanted like = true
wanted unlike = false

-- The fields of the event for a request.
abbrev pub event_of : UuidText → Uuid → Uuid → Op → Bytes → List (Bytes × Bytes)
event_of T u v op ts = event_fields (T.to_string u) (T.to_string v) (op_text op) ts

-- The text of an op is read back.
pub op_text_tests :
    (beq (op_text like) (text "like") ≡ true)
    × (beq (op_text unlike) (text "like") ≡ false)
    × (beq (op_text unlike) (text "unlike") ≡ true)
unfolding beq
op_text_tests = (refl, refl, refl)

module _ (T : UuidText) (R : Redis) where
  open R use {Store, exec, number, is_member, entries, next_id}

  -- The store after a request that changes the set: the set, the counter, the stream.
  unfoldable pub like_store : Uuid → Uuid → Bytes → Store → Store
  like_store u v ts s =
      exec
        (x_add stream_key stream_max_len
          (event_fields (T.to_string u) (T.to_string v) (text "like") ts))
        (exec (incr (video_likes_count_key T v))
          (exec (s_add (user_liked_set_key T u) (T.to_string v)) s))

  unfoldable pub unlike_store : Uuid → Uuid → Bytes → Store → Store
  unlike_store u v ts s =
      exec
        (x_add stream_key stream_max_len
          (event_fields (T.to_string u) (T.to_string v) (text "unlike") ts))
        (clamp R (video_likes_count_key T v) (
          exec (decr (video_likes_count_key T v))
            (exec (s_rem (user_liked_set_key T u) (T.to_string v)) s))).1

  -- Clamping the counter of one video leaves all other keys alone.
  pub clamp-is_member :
      (v w : Uuid) (x : Bytes) (s : Store)
      → is_member (user_liked_set_key T w) x (clamp R (video_likes_count_key T v) s).1
        ≡ is_member (user_liked_set_key T w) x s
  unfolding clamp
  clamp-is_member v w x s = ground (
    arith,
    R.is_member-frame (set_number (video_likes_count_key T v) (pos 0) 0) (user_liked_set_key T w) x
        s (set_key-ne-count_key T w v),
  )

  pub clamp-entries :
      (v : Uuid) (s : Store)
      → entries stream_key (clamp R (video_likes_count_key T v) s).1 ≡ entries stream_key s
  unfolding clamp
  clamp-entries v s = ground (
    arith,
    R.entries-frame (set_number (video_likes_count_key T v) (pos 0) 0) stream_key s
        (count_key-ne-stream_key T v),
  )

  s_add-is_member :
      (u v w x : Uuid) (s : Store)
      → is_member
          (user_liked_set_key T w)
          (T.to_string x)
          (exec (s_add (user_liked_set_key T u) (T.to_string v)) s)
        ≡ (if u == w && v == x then true else is_member (user_liked_set_key T w) (T.to_string x) s)
  s_add-is_member u v w x s = ground (
    arith,
    R.is_member-s_add (user_liked_set_key T u) (T.to_string v) (T.to_string x) s,
    beq-to_string T v x,
    R.is_member-frame (s_add (user_liked_set_key T u) (T.to_string v)) (user_liked_set_key T w)
        (T.to_string x) s,
    beq-user_liked_set_key T u w,
  )

  s_rem-is_member :
      (u v w x : Uuid) (s : Store)
      → is_member
          (user_liked_set_key T w)
          (T.to_string x)
          (exec (s_rem (user_liked_set_key T u) (T.to_string v)) s)
        ≡ (if u == w && v == x then false else is_member (user_liked_set_key T w) (T.to_string x) s)
  s_rem-is_member u v w x s = ground (
    arith,
    R.is_member-s_rem (user_liked_set_key T u) (T.to_string v) (T.to_string x) s,
    beq-to_string T v x,
    R.is_member-frame (s_rem (user_liked_set_key T u) (T.to_string v)) (user_liked_set_key T w)
        (T.to_string x) s,
    beq-user_liked_set_key T u w,
  )

  pub like_store-is_member :
      (u v w x : Uuid) (ts : Bytes) (s : Store)
      → is_member (user_liked_set_key T w) (T.to_string x) (like_store u v ts s)
        ≡ (if u == w && v == x then true else is_member (user_liked_set_key T w) (T.to_string x) s)
  unfolding like_store
  like_store-is_member u v w x ts s =
      R.is_member-frame _ (user_liked_set_key T w) (T.to_string x) _ (stream_key-ne-set_key T w)
      ∙ R.is_member-frame _ (user_liked_set_key T w) (T.to_string x) _ (set_key-ne-count_key T w v)
      ∙ s_add-is_member u v w x s

  pub unlike_store-is_member :
      (u v w x : Uuid) (ts : Bytes) (s : Store)
      → is_member (user_liked_set_key T w) (T.to_string x) (unlike_store u v ts s)
        ≡ (if u == w && v == x then false else is_member (user_liked_set_key T w) (T.to_string x) s)
  unfolding unlike_store
  unlike_store-is_member u v w x ts s =
      R.is_member-frame _ (user_liked_set_key T w) (T.to_string x) _ (stream_key-ne-set_key T w)
      ∙ clamp-is_member v w (T.to_string x) _
      ∙ R.is_member-frame _ (user_liked_set_key T w) (T.to_string x) _ (set_key-ne-count_key T w v)
      ∙ s_rem-is_member u v w x s

  pub like_store-entries :
      (u v : Uuid) (ts : Bytes) (s : Store)
      → length (entries stream_key s) < stream_max_len
      → (i : Bytes) × (entries stream_key (like_store u v ts s)
          ≡ entries stream_key s
            ++ record {
              id = i;
              values = event_fields (T.to_string u) (T.to_string v) (text "like") ts;
            }
              ∷ [])
  unfolding like_store
  like_store-entries u v ts s room =
      let s₁ = exec (s_add (user_liked_set_key T u) (T.to_string v)) s in
      let s₂ = exec (incr (video_likes_count_key T v)) s₁ in
      let e : entries stream_key s₂ ≡ entries stream_key s =
        R.entries-frame (incr (video_likes_count_key T v)) stream_key s₁
          (count_key-ne-stream_key T v)
        ∙ R.entries-frame (s_add (user_liked_set_key T u) (T.to_string v)) stream_key s
            (set_key-ne-stream_key T u) in
      (
        next_id stream_key s₂,
        R.entries-x_add stream_key stream_max_len _ s₂ (rw e room)
            ∙ ap
                (λ l.
                  l
                  ++ record {
                    id = next_id stream_key s₂;
                    values = event_fields (T.to_string u) (T.to_string v) (text "like") ts;
                  }
                    ∷ [])
                e,
      )

  pub unlike_store-entries :
      (u v : Uuid) (ts : Bytes) (s : Store)
      → length (entries stream_key s) < stream_max_len
      → (i : Bytes) × (entries stream_key (unlike_store u v ts s)
          ≡ entries stream_key s
            ++ record {
              id = i;
              values = event_fields (T.to_string u) (T.to_string v) (text "unlike") ts;
            }
              ∷ [])
  unfolding unlike_store
  unlike_store-entries u v ts s room =
      let s₁ = exec (s_rem (user_liked_set_key T u) (T.to_string v)) s in
      let s₂ = exec (decr (video_likes_count_key T v)) s₁ in
      let s₃ = (clamp R (video_likes_count_key T v) s₂).1 in
      let e : entries stream_key s₃ ≡ entries stream_key s =
        clamp-entries v s₂
        ∙ R.entries-frame (decr (video_likes_count_key T v)) stream_key s₁
            (count_key-ne-stream_key T v)
        ∙ R.entries-frame (s_rem (user_liked_set_key T u) (T.to_string v)) stream_key s
            (set_key-ne-stream_key T u) in
      (
        next_id stream_key s₃,
        R.entries-x_add stream_key stream_max_len _ s₃ (rw e room)
            ∙ ap
                (λ l.
                  l
                  ++ record {
                    id = next_id stream_key s₃;
                    values = event_fields (T.to_string u) (T.to_string v) (text "unlike") ts;
                  }
                    ∷ [])
                e,
      )

  -- A request either finds what it asks for, and changes nothing, or makes the three writes.
  pub apply-like :
      (u v : Uuid) (ts : Bytes) (s : Store)
      → (apply T R true u v like ts s).1
        ≡ (if is_member (user_liked_set_key T u) (T.to_string v) s then s else like_store u v ts s)
  unfolding apply like_script script_like like_store
  apply-like u v ts s = ground (arith, op_text_tests)

  pub apply-unlike :
      (u v : Uuid) (ts : Bytes) (s : Store)
      → (apply T R true u v unlike ts s).1 ≡ (
          if is_member (user_liked_set_key T u) (T.to_string v) s then unlike_store u v ts s else s)
  unfolding apply like_script script_unlike unlike_store
  apply-unlike u v ts s = ground (arith, op_text_tests)
