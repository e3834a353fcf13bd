-- ===== src/Like/Service/Replies.antt =====
-- What the callers of Like and Unlike are told, and repeated requests.
use vidmerce.Prelude.{
  ◌≡◌, ◌∙◌, ap, true, ◌&&◌, List, some, Bytes, if◌then◌else◌, ◌==◌, arith, ==_refl,
}
use vidmerce.Prelude.Int.{pos}
use vidmerce.Uuid.{Uuid, UuidText}
use vidmerce.Redis.{Redis, incr, decr, s_add, s_rem, set_number, x_add, or_zero}
use vidmerce.Like.Service.{
  Op, like, unlike, stream_key, stream_max_len, user_liked_set_key, video_likes_count_key,
  script_like, clamp, script_unlike, like_script, apply,
}
use vidmerce.Like.Service.Keys.{stream_key-ne-count_key}
use vidmerce.Like.Service.Effects.{
  wanted, op_text_tests, like_store-is_member, unlike_store-is_member, apply-like, apply-unlike,
  event_of,
}
use vidmerce.Like.Service.Counter.{times, likers, IsCounted, apply-IsCounted}

module _ (T : UuidText) (R : Redis) where
  open R use {Store, exec, number, is_member}

  -- After a request exactly its own membership is as asked, and every other is unchanged.
  pub apply-is_member :
      (u v : Uuid) (op : Op) (ts : Bytes) (s : Store) (w x : Uuid)
      → is_member (user_liked_set_key T w) (T.to_string x) (apply T R true u v op ts s).1 ≡ (
          if u == w && v == x
          then wanted op
          else is_member (user_liked_set_key T w) (T.to_string x) s)
  apply-is_member u v like ts s w x =
      ground (arith, apply-like T R u v ts s, like_store-is_member T R u v w x ts s)
  apply-is_member u v unlike ts s w x =
      ground (arith, apply-unlike T R u v ts s, unlike_store-is_member T R u v w x ts s)

  -- The reported count is the counter's value.
  reply_count :
      (u v : Uuid) (op : Op) (ts : Bytes) (s : Store)
      → let r = apply T R true u v op ts s in
        r.0
        ≡ some
            (record { liked = wanted op; count = or_zero (number (video_likes_count_key T v) r.1) })
  unfolding apply like_script script_like script_unlike clamp
  reply_count u v like ts s = ground (
    arith,
    op_text_tests,
    R.number-frame (x_add stream_key stream_max_len (event_of T u v like ts))
        (video_likes_count_key T v)
        (exec (incr (video_likes_count_key T v))
          (exec (s_add (user_liked_set_key T u) (T.to_string v)) s))
        (stream_key-ne-count_key T v),
  )
  reply_count u v unlike ts s =
      let s₂ =
        exec (decr (video_likes_count_key T v))
          (exec (s_rem (user_liked_set_key T u) (T.to_string v)) s) in
      ground (
        arith,
        op_text_tests,
        R.number-set_number (video_likes_count_key T v) (pos 0) 0 s₂,
        R.number-frame (x_add stream_key stream_max_len (event_of T u v unlike ts))
            (video_likes_count_key T v) s₂ (stream_key-ne-count_key T v),
        R.number-frame (x_add stream_key stream_max_len (event_of T u v unlike ts))
            (video_likes_count_key T v) (exec (set_number (video_likes_count_key T v) (pos 0) 0) s₂)
            (stream_key-ne-count_key T v),
      )

  -- Where the counters count the likers among some users, a user that stands once among them is
  -- told, if the script runs, what it asked for and how many of the users then like the video.
  pub apply-State :
      (users : List Uuid) (u v : Uuid) (op : Op) (ts : Bytes) (s : Store)
      → times u users ≡ 1
      → IsCounted T R users s
      → let r = apply T R true u v op ts s in
        r.0 ≡ some (record { liked = wanted op; count = pos (likers T R users v r.1) })
  apply-State users u v op ts s once counted =
      reply_count u v op ts s
      ∙ ap (λ c. some (record { liked = wanted op; count = c }))
          (apply-IsCounted T R users true u v op ts s once counted v)

  apply_settled :
      (u v : Uuid) (op : Op) (ts : Bytes) (s : Store)
      → is_member (user_liked_set_key T u) (T.to_string v) s ≡ wanted op
      → (apply T R true u v op ts s).1 ≡ s
  apply_settled u v like ts s h = rw (apply-like T R u v ts s, h)
  apply_settled u v unlike ts s h = rw (apply-unlike T R u v ts s, h)

  -- If the script runs, a repeated request changes nothing, and gets the reply of the first.
  pub apply_twice :
      (u v : Uuid) (op : Op) (ts later : Bytes) (s : Store)
      → let r = apply T R true u v op ts s in apply T R true u v op later r.1 ≡ r
  apply_twice u v op ts later s =
      let t = (apply T R true u v op ts s).1 in
      let e =
        apply_settled u v op later t
          (ground (arith, apply-is_member u v op ts s u v, ==_refl u, ==_refl v)) in
      ground (arith, e, reply_count u v op later t, reply_count u v op ts s)
