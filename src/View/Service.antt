-- ===== src/View/Service.antt =====
-- internal/view/service.go, duration.go and unique.go: the API's side of the view path. The clock's
-- reading in milliseconds is an argument, and so is whether each call of Redis gets through.
pub mod Emission
use vidmerce.Prelude.{
  ℕ, ◌+◌, Bool, true, false, List, [], ◌∷◌, ◌++◌, Option, none, some, Bytes, text, if◌then◌else◌,
}
use vidmerce.Prelude.Int.{ℤ, pos, leb_ℤ}
use vidmerce.Prelude.Decimal.{format_int, parse_int}
use vidmerce.Uuid.{Uuid, UuidText}
use vidmerce.Redis.{Redis, set, x_add}
use vidmerce.View.{Input, Result, subject_key, stream_key, stream_max_len}
use vidmerce.View.Filters.{Filter, Verdict, apply}

module _ (T : UuidText) where
  unfoldable pub duration_key : Uuid → Bytes
  duration_key video = text "video:" ++ (T.to_string video ++ text ":dur")

  unfoldable pub unique_key : Input → Bytes
  unique_key i = text "view:unique:" ++ (subject_key T i ++ (text ":" ++ T.to_string i.video_id))

-- A cached length must be a positive number.
unfoldable pub positive : Option ℤ → Option ℤ
positive none = none
positive (some n) = if leb_ℤ n (pos 0) then none else some n

unfoldable pub parse_duration : Option Bytes → Option ℤ
unfolding positive
parse_duration none = none
parse_duration (some raw) = positive (parse_int raw)

module _ (T : UuidText) (R : Redis) where
  open R use {Store, exec, get}

  -- `RedisDurationStore.Get`
  unfoldable pub duration_get : Bool → Uuid → Store → Option ℤ
  unfolding parse_duration
  duration_get up video s = if up then parse_duration (get (duration_key T video) s) else none

  -- `RedisDurationStore.Set`; false is an error.
  unfoldable pub duration_set : Bool → ℕ → Uuid → ℤ → Store → Bool × Store
  duration_set up ttl video sec s =
      if leb_ℤ sec (pos 0)
      then (false, s)
      else if up
      then (true, exec (set (duration_key T video) (format_int sec) ttl) s)
      else (false, s)

  -- SETNX
  unfoldable pub set_nx : Bytes → Bytes → ℕ → Store → Bool × Store
  set_nx k v ttl s = elim (get k s) [ none ↦ (true, exec (set k v ttl) s) | some _ ↦ (false, s) ]

  -- `TryMark`; `none` is an error.
  unfoldable pub try_mark : Bool → ℕ → Input → Store → Option Bool × Store
  unfolding set_nx
  try_mark up ttl i s =
      let r = set_nx (unique_key T i) (text "1") ttl s in if up then (some r.0, r.1) else (none, s)

-- `uFlag`
abbrev pub flag : Bool → Bytes
flag true = text "1"
flag false = text "0"

unfoldable pub viewer_field : UuidText → Option Uuid → List (Bytes × Bytes)
viewer_field T none = []
viewer_field T (some viewer) = (text "uid", T.to_string viewer) ∷ []

-- The fields of the stream entry.
unfoldable pub view_fields : UuidText → Input → Bool → ℤ → List (Bytes × Bytes)
unfolding viewer_field
view_fields T i unique ts =
    (text "vid", T.to_string i.video_id)
    ∷ (text "ip", i.ip_hash)
    ∷ (text "ua", i.ua_hash)
    ∷ (text "c", i.country)
    ∷ (text "u", flag unique)
    ∷ (text "t", format_int ts)
    ∷ viewer_field T i.viewer_id

-- Which of the calls get through, and the window of the marker; no window where there is no marker.
pub record Calls : Type 0 where
  pub duration_up : Bool
  pub unique_ttl : Option ℕ
  pub unique_up : Bool
  pub add_up : Bool
  pub clock : ℤ

unfoldable pub with_duration : Input → Option ℤ → Input
with_duration i none = i
with_duration i (some sec) = record i { duration_sec = sec }

-- An error of the marker counts as not unique.
unfoldable pub or_replay : Option Bool → Bool
or_replay none = false
or_replay (some marked) = marked

module _ (T : UuidText) (R : Redis) where
  open R use {Store, exec}

  -- Whether the view is the first of its window.
  unfoldable pub mark : Bool → Option ℕ → Input → Store → Bool × Store
  unfolding or_replay
  mark up none i s = (true, s)
  mark up (some ttl) i s = let r = try_mark T R up ttl i s in (or_replay r.0, r.1)

  -- XADD; `none` is the error that `Track` returns.
  unfoldable pub emit : Calls → Input → Bool × Store → Option Result × Store
  emit c i (unique, s) =
      if c.add_up
      then (
        some (record { accepted = true; rejected_by = []; is_unique = unique }),
        exec (x_add stream_key stream_max_len (view_fields T i unique c.clock)) s,
      )
      else (none, s)

  -- The input with the cached length.
  unfoldable pub prepare : Calls → Input → Store → Input
  unfolding with_duration
  prepare c i s = with_duration i (duration_get T R c.duration_up i.video_id s)

  -- `Track`
  unfoldable pub track : Calls → List (Filter Store) → Input → Store → Option Result × Store
  track c chain input s =
      let i = prepare c input s in
      let v = apply chain i s in
      if v.0.allowed
      then emit c i (mark c.unique_up c.unique_ttl i v.1)
      else (some (record { accepted = false; rejected_by = v.0.reason; is_unique = false }), v.1)
