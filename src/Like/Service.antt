-- ===== src/Like/Service.antt =====
-- internal/like/service.go and domain.go: the script that runs inside Redis, the service over it and
-- the events that it leaves on the stream. The clock's reading is the argument `ts`, as text.
pub mod Keys
pub mod Effects
pub mod Counter
pub mod Replies
use vidmerce.Prelude.{
  ℕ, ◌≡◌, Bool, true, false, List, [], ◌∷◌, ◌++◌, Option, none, some, Bytes, text, beq,
  if◌then◌else◌,
}
use vidmerce.Prelude.Int.{ℤ, pos, ◌==ℤ◌, ltb_ℤ}
use vidmerce.Uuid.{Uuid, UuidText}
use vidmerce.Redis.{Redis, Message, incr, decr, s_add, s_rem, set_number, x_add, or_zero}

-- `Op` is a string with two constants.
pub data Op : Type 0 where
  like unlike : Op

abbrev pub op_text : Op → Bytes
op_text like = text "like"
op_text unlike = text "unlike"

pub record State : Type 0 where
  pub liked : Bool
  pub count : ℤ

abbrev pub stream_key : Bytes
stream_key = text "stream:likes"

abbrev pub stream_max_len : ℕ
stream_max_len = 1_000_000

module _ (T : UuidText) where
  unfoldable pub user_liked_set_key : Uuid → Bytes
  user_liked_set_key uid = text "user:" ++ (T.to_string uid ++ text ":liked:videos")

  unfoldable pub video_likes_count_key : Uuid → Bytes
  video_likes_count_key vid = text "video:" ++ (T.to_string vid ++ text ":likes")

-- What the script returns: {liked (1/0), count, status}.
pub record Reply : Type 0 where
  pub liked : ℤ
  pub count : ℤ
  pub status : Bytes

-- The fields of the event that the script adds to the stream.
abbrev pub event_fields : Bytes → Bytes → Bytes → Bytes → List (Bytes × Bytes)
event_fields uid vid op ts =
    (text "uid", uid) ∷ (text "vid", vid) ∷ (text "op", op) ∷ (text "ts", ts) ∷ []

module _ (R : Redis) where
  open R use {Store, exec, number, is_member}

  -- `if op == "like" then … end` of the script.
  unfoldable pub script_like :
      Bytes → Bytes → Bytes → Bytes → Bytes → Bytes → ℕ → Store → Reply × Store
  script_like user_set counter stream vid uid ts maxlen s =
      if is_member user_set vid s
      then (record { liked = pos 1; count = or_zero (number counter s); status = text "noop" }, s)
      else (let s₁ = exec (s_add user_set vid) s in
          let s₂ = exec (incr counter) s₁ in
          let s₃ = exec (x_add stream maxlen (event_fields uid vid (text "like") ts)) s₂ in
          (
            record { liked = pos 1; count = or_zero (number counter s₂); status = text "applied" },
            s₃,
          ))

  -- `if newC < 0 then … end` of the script.
  unfoldable pub clamp : Bytes → Store → ℤ × Store
  clamp counter s =
      if ltb_ℤ (or_zero (number counter s)) (pos 0)
      then (pos 0, exec (set_number counter (pos 0) 0) s)
      else (or_zero (number counter s), s)

  -- `if op == "unlike" then … end` of the script.
  unfoldable pub script_unlike :
      Bytes → Bytes → Bytes → Bytes → Bytes → Bytes → ℕ → Store → Reply × Store
  script_unlike user_set counter stream vid uid ts maxlen s =
      if is_member user_set vid s
      then (let s₁ = exec (s_rem user_set vid) s in
          let s₂ = exec (decr counter) s₁ in
          let c = clamp counter s₂ in
          let s₃ = exec (x_add stream maxlen (event_fields uid vid (text "unlike") ts)) c.1 in
          (record { liked = pos 0; count = c.0; status = text "applied" }, s₃))
      else (record { liked = pos 0; count = or_zero (number counter s); status = text "noop" }, s)

  -- `likeScript`; `none` is the error reply for an unknown op.
  unfoldable pub like_script :
      Bytes → Bytes → Bytes → Bytes → Bytes → Bytes → Bytes → ℕ → Store → Option Reply × Store
  like_script user_set counter stream vid uid op ts maxlen s =
      if beq op (text "like")
      then (let r = script_like user_set counter stream vid uid ts maxlen s in (some r.0, r.1))
      else if beq op (text "unlike")
      then (let r = script_unlike user_set counter stream vid uid ts maxlen s in (some r.0, r.1))
      else (none, s)

abbrev decode : Option Reply → Option State
decode none = none
decode (some r) = some (record { liked = r.liked ==ℤ pos 1; count = r.count })

module _ (T : UuidText) (R : Redis) where
  open R use {Store, exec, number, is_member}

  -- `Service.apply`; `up` is whether the call of the script gets through, `none` an error.
  unfoldable pub apply : Bool → Uuid → Uuid → Op → Bytes → Store → Option State × Store
  apply up user video op ts s =
      if up
      then (let r =
            like_script R (user_liked_set_key T user) (video_likes_count_key T video) stream_key
              (T.to_string video) (T.to_string user) (op_text op) ts stream_max_len s in
          (decode r.0, r.1))
      else (none, s)

  unfoldable pub do_like : Bool → Uuid → Uuid → Bytes → Store → Option State × Store
  do_like up user video ts s = apply up user video like ts s

  unfoldable pub do_unlike : Bool → Uuid → Uuid → Bytes → Store → Option State × Store
  do_unlike up user video ts s = apply up user video unlike ts s

  unfoldable pub is_liked_by : Bool → Uuid → Uuid → Store → Option Bool
  is_liked_by up user video s =
      if up then some (is_member (user_liked_set_key T user) (T.to_string video) s) else none

  -- SET NX with an expiry, whose error is dropped.
  set_nx_number : Bool → Bytes → ℤ → ℕ → Store → Store
  set_nx_number up k n ttl s = elim (number k s) [
    | none ↦ if up then exec (set_number k n ttl) s else s
    | some _ ↦ s
  ]

  -- `Count` after a miss: `repo` is `none` if it is nil, and answers `none` on an error.
  count_missing : Bool → Option (Uuid → Option ℤ) → Uuid → Store → Option ℤ × Store
  unfolding set_nx_number
  count_missing set_up none video s = (some (pos 0), s)
  count_missing set_up (some repo) video s = elim (repo video) [
    | none ↦ (none, s)
    | some n ↦ (some n, set_nx_number set_up (video_likes_count_key T video) n 86_400 s)
  ]

  -- `Service.Count`: `up` and `set_up` are whether GET and SETNX get through.
  unfoldable pub count : Bool → Bool → Option (Uuid → Option ℤ) → Uuid → Store → Option ℤ × Store
  unfolding count_missing
  count up set_up repo video s =
      if up
      then elim (number (video_likes_count_key T video) s) [
        | some n ↦ (some n, s)
        | none ↦ count_missing set_up repo video s
      ]
      else (none, s)
