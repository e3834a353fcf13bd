-- ===== src/View/Worker/Parsing.antt =====
-- The worker reads what the API's service writes.
use vidmerce.Prelude.{
  ℕ, ◌<◌, ◌^◌, ◌≡◌, refl, Bool, true, false, [], ◌∷◌, some, Bytes, text, beq, length, Option-cases,
  inl, inr, ◌∙◌, ◌≢◌,
}
use vidmerce.Prelude.Int.{pos}
use vidmerce.Prelude.Decimal.{parse_int-format_int}
use vidmerce.Uuid.{Uuid, UuidText}
use vidmerce.Redis.{field, value_of}
use vidmerce.View.{Input, Event}
use vidmerce.View.Service.{flag, view_fields, viewer_field}
use vidmerce.View.Worker.{parse_event, checked, viewer_of}

module _ (T : UuidText) where
  -- The event for an input.
  abbrev pub event_for : Bytes → Input → Bool → ℕ → Event
  event_for id i unique ts = record {
    stream_id = id;
    video_id = i.video_id;
    viewer_id = i.viewer_id;
    ip_hash = i.ip_hash;
    ua_hash = i.ua_hash;
    country = i.country;
    is_unique = unique;
    event_time = pos ts;
  }

  viewer_of-parse : (t : Bytes) → t ≢ [] → viewer_of T t ≡ T.parse t
  unfolding viewer_of
  viewer_of-parse [] h = absurd (h refl)
  viewer_of-parse (c ∷ cs) h = refl

  viewer_of-to_string : (u : Uuid) → viewer_of T (T.to_string u) ≡ some u
  viewer_of-to_string u =
      viewer_of-parse (T.to_string u) (T.to_string-ne-nil u) ∙ T.parse-to_string u

  beq-flag : (b : Bool) → beq (flag b) (text "1") ≡ b
  unfolding beq
  beq-flag true = refl
  beq-flag false = refl

  -- The entry that `Track` adds is read back as the event it stands for, when the hashes have their
  -- lengths of 32 and 16 and the time fits in 63 bits.
  pub parse_event-view_fields :
      (id : Bytes) (i : Input) (unique : Bool) (ts : ℕ)
      → length i.ip_hash ≡ 32
      → length i.ua_hash ≡ 16
      → ts < 2 ^ 63
      → parse_event T (record { id = id; values = view_fields T i unique (pos ts) })
        ≡ some (event_for id i unique ts)
  unfolding parse_event checked viewer_of field value_of view_fields viewer_field beq
  parse_event-view_fields id i unique ts ip ua t = elim (Option-cases i.viewer_id) [
    | inl anonymous ↦ rw (
      anonymous,
      T.parse-to_string i.video_id,
      parse_int-format_int ts t,
      ip,
      ua,
      beq-flag unique,
    )
    | inr (u, known) ↦ rw (
      known,
      T.parse-to_string i.video_id,
      parse_int-format_int ts t,
      ip,
      ua,
      beq-flag unique,
      viewer_of-to_string u,
    )
  ]
