-- ===== src/View/Service/Emission.antt =====
-- What `Track` leaves on the stream, and how the worker reads it.
use vidmerce.Prelude.{
  ℕ, ◌<◌, ◌^◌, ◌≡◌, refl, ◌∙◌, Bool, true, false, List, [], ◌∷◌, ◌++◌, Option, none, some, text,
  beq, length, if◌then◌else◌, Bool-cases, Option-cases, inl, inr, arith, All,
}
use vidmerce.Prelude.Int.{pos}
use vidmerce.Uuid.{UuidText}
use vidmerce.Redis.{Redis, Message, set, hm_set, expire}
use vidmerce.RateLimit.{Policy, leaky_bucket_script}
use vidmerce.RateLimit
use vidmerce.View.{Input, Result, stream_key, stream_max_len}
use vidmerce.View.Policy.{ViewPolicyConfig, rate_policy}
use vidmerce.View.Filters.{
  Filter, apply, watch_threshold, duration_rate, duration_rate_allow, limited, bucket_key,
}
use vidmerce.View.Service.{
  Calls, duration_get, unique_key, set_nx, try_mark, mark, emit, prepare, with_duration, track,
  view_fields,
}
use vidmerce.View.Worker.{parse_event}
use vidmerce.View.Worker.Parsing.{event_for, parse_event-view_fields}

module _ (T : UuidText) (R : Redis) where
  open R use {Store, exec, entries, next_id}

  -- A filter that leaves the stream of views alone.
  abbrev pub IsQuiet : Filter Store → Type 0
  IsQuiet f = (i : Input) (s : Store) → entries stream_key (f.allow i s).1 ≡ entries stream_key s

  pub watch_threshold-IsQuiet : (cfg : ViewPolicyConfig) → IsQuiet (watch_threshold cfg)
  watch_threshold-IsQuiet cfg i s = refl

  script-entries :
      (i : Input) (capacity leak now cost ttl : ℕ) (s : Store)
      → entries stream_key (leaky_bucket_script R (bucket_key T R i) capacity leak now cost ttl s).1
        ≡ entries stream_key s
  unfolding leaky_bucket_script bucket_key beq
  script-entries i capacity leak now cost ttl s =
      let d =
        RateLimit.decide capacity leak cost
          (RateLimit.leaked_level leak now (R.hm_get (bucket_key T R i) s)) in
      R.entries-frame (expire (bucket_key T R i) ttl) stream_key
        (exec (hm_set (bucket_key T R i) d.1 now) s) refl
      ∙ R.entries-frame (hm_set (bucket_key T R i) d.1 now) stream_key s refl

  pub duration_rate-IsQuiet :
      (cfg : ViewPolicyConfig) (fail_open up : Bool) (now : ℕ)
      → IsQuiet (duration_rate T R cfg fail_open up now)
  unfolding duration_rate_allow limited RateLimit.allow
  duration_rate-IsQuiet cfg fail_open up now i s =
      elim (Option-cases (rate_policy i.duration_sec cfg)) [
        | inl free ↦ rw free
        | inr (p, limit) ↦ ground (
          arith,
          limit,
          script-entries i p.capacity p.leak_per_minute now 1 (RateLimit.lifetime p) s,
        )
      ]

  -- A chain of such filters leaves the stream alone.
  apply-entries :
      (fs : List (Filter Store)) (i : Input) (s : Store)
      → All IsQuiet fs
      → entries stream_key (apply fs i s).1 ≡ entries stream_key s
  unfolding apply
  apply-entries [] i s q = refl
  apply-entries (f ∷ fs) i s q = elim (Bool-cases (f.allow i s).0.allowed) [
    | inl on ↦ rw on (apply-entries fs i (f.allow i s).1 q.1 ∙ q.0 i s)
    | inr off ↦ rw off (q.0 i s)
  ]

  mark-entries :
      (up : Bool) (ttl : Option ℕ) (i : Input) (s : Store)
      → entries stream_key (mark T R up ttl i s).1 ≡ entries stream_key s
  unfolding mark try_mark set_nx unique_key beq
  mark-entries up none i s = refl
  mark-entries up (some ttl) i s =
      ground (arith, R.entries-frame (set (unique_key T i) (text "1") ttl) stream_key s refl)

  -- The stream after a call: an accepted view is one more entry, which the worker reads as the
  -- view with the answer's flag; any other call adds nothing.
  unfoldable pub IsEmitted : Input → ℕ → List Message → Option Result → List Message → Type 0
  IsEmitted i ts before none after = after ≡ before
  IsEmitted i ts before (some r) after = elim r.accepted [
    | false ↦ after ≡ before
    | true ↦
        (m : Message) × (after ≡ before ++ m ∷ [])
        × (parse_event T m ≡ some (event_for T m.id i r.is_unique ts))
  ]

  emit-IsEmitted :
      (c : Calls) (i : Input) (ts : ℕ) (s : Store) (m : Bool × Store)
      → c.clock ≡ pos ts
      → length i.ip_hash ≡ 32
      → length i.ua_hash ≡ 16
      → ts < 2 ^ 63
      → length (entries stream_key s) < stream_max_len
      → entries stream_key m.1 ≡ entries stream_key s
      → IsEmitted i ts
          (entries stream_key s)
          (emit T R c i m).0
          (entries stream_key (emit T R c i m).1)
  unfolding emit IsEmitted
  emit-IsEmitted c i ts s (unique, t) clock ip ua small room same = elim (Bool-cases c.add_up) [
    | inr down ↦ rw down same
    | inl up ↦
        rw (up, clock)
          (
            record { id = next_id stream_key t; values = view_fields T i unique (pos ts) },
            R.entries-x_add stream_key stream_max_len (view_fields T i unique (pos ts)) t
                  (rw same room)
                ∙ rw same,
            parse_event-view_fields T (next_id stream_key t) i unique ts ip ua small,
          )
  ]

  prepared-IsEmitted :
      (c : Calls) (fs : List (Filter Store)) (i : Input) (ts : ℕ) (s : Store)
      → All IsQuiet fs
      → c.clock ≡ pos ts
      → length i.ip_hash ≡ 32
      → length i.ua_hash ≡ 16
      → ts < 2 ^ 63
      → length (entries stream_key s) < stream_max_len
      → (let v = apply fs i s in
          let r = if v.0.allowed then emit T R c i (mark T R c.unique_up c.unique_ttl i v.1) else (
            some (record { accepted = false; rejected_by = v.0.reason; is_unique = false }),
            v.1,
          ) in
          IsEmitted i ts (entries stream_key s) r.0 (entries stream_key r.1))
  unfolding IsEmitted
  prepared-IsEmitted c fs i ts s q clock ip ua small room =
      elim (Bool-cases (apply fs i s).0.allowed) [
        | inr off ↦ rw off (apply-entries fs i s q)
        | inl on ↦ rw on (
            emit-IsEmitted c i ts s (mark T R c.unique_up c.unique_ttl i (apply fs i s).1) clock ip
              ua small room
              (mark-entries c.unique_up c.unique_ttl i (apply fs i s).1 ∙ apply-entries fs i s q))
      ]

  -- With filters that leave the stream alone, an accepted view is exactly one more entry, and the
  -- worker reads that entry as the view with the answer's flag; a rejected view, or an error, adds
  -- nothing. The stream has room, the hashes have their lengths and the time fits in 63 bits.
  pub track-IsEmitted :
      (c : Calls) (fs : List (Filter Store)) (i : Input) (ts : ℕ) (s : Store)
      → All IsQuiet fs
      → c.clock ≡ pos ts
      → length i.ip_hash ≡ 32
      → length i.ua_hash ≡ 16
      → ts < 2 ^ 63
      → length (entries stream_key s) < stream_max_len
      → IsEmitted i ts
          (entries stream_key s)
          (track T R c fs i s).0
          (entries stream_key (track T R c fs i s).1)
  unfolding track prepare with_duration IsEmitted
  track-IsEmitted c fs i ts s q clock ip ua small room =
      elim (Option-cases (duration_get T R c.duration_up i.video_id s)) [
        | inl unknown ↦ rw unknown (prepared-IsEmitted c fs i ts s q clock ip ua small room)
        | inr (sec, cached) ↦ rw cached (
            prepared-IsEmitted c fs (record i { duration_sec = sec }) ts s q clock ip ua small room)
      ]
