-- ===== src/Like/Worker/Outcomes.antt =====
-- What the worker makes of the events on the stream.
use vidmerce.Prelude.{
  ◌≡◌, ◌∙◌, ap, refl, Bool, true, ◌&&◌, List, [], ◌∷◌, ◌++◌, none, some, Bytes, beq, if◌then◌else◌,
  ◌==◌, Option-cases, inl, inr, All,
}
use vidmerce.Uuid.{Uuid, UuidText}
use vidmerce.Redis.{Message}
use vidmerce.Like.Service.{Op, like, unlike}
use vidmerce.Like.Service.Effects.{wanted, event_of}
use vidmerce.Like.Repository.{Db, has_edge, apply}
use vidmerce.Like.Repository.Counts.{
  IsKnown, IsSound, after, apply-has_edge, apply-IsKnown, apply-IsSound,
}
use vidmerce.Like.Worker.{
  Event, World, Delivery, parse_event, process, process_all, run, Poll, delivered, nothing,
  canceled, failed,
}

module _ (T : UuidText) where
  -- The script's entry for a request reads back as the request.
  pub parse_event-event_of :
      (i : Bytes) (u v : Uuid) (op : Op) (ts : Bytes)
      → parse_event T (record { id = i; values = event_of T u v op ts })
        ≡ some (record { user_id = u; video_id = v; op = op; stream_id = i })
  unfolding parse_event beq
  parse_event-event_of i u v like ts = rw (T.parse-to_string u, T.parse-to_string v)
  parse_event-event_of i u v unlike ts = rw (T.parse-to_string u, T.parse-to_string v)

  -- What an entry asks of the edge from `u` to `v`.
  unfoldable pub effect : Uuid → Uuid → Message → Bool → Bool
  effect u v m b = elim (parse_event T m) [
    | none ↦ b
    | some e ↦ if e.user_id == u && e.video_id == v then wanted e.op else b
  ]

  -- What a list of entries asks of it, in order.
  unfoldable pub outcome : Uuid → Uuid → List Message → Bool → Bool
  outcome u v [] b = b
  outcome u v (m ∷ ms) b = outcome u v ms (effect u v m b)

  pub outcome-append :
      (u v : Uuid) (xs ys : List Message) (b : Bool)
      → outcome u v (xs ++ ys) b ≡ outcome u v ys (outcome u v xs b)
  unfolding outcome
  outcome-append u v [] ys b = refl
  outcome-append u v (x ∷ xs) ys b = outcome-append u v xs ys (effect u v x b)

  -- The user and the video of an event exist.
  unfoldable pub IsKnownMessage : Db → Message → Type 0
  IsKnownMessage d m = elim (parse_event T m) [
    | none ↦ Unit {0}
    | some e ↦ IsKnown e.user_id e.video_id d
  ]

  -- An entry that is no event leaves the tables alone; an event is applied.
  pub process-malformed :
      (dl : Delivery) (w : World) → parse_event T dl.message ≡ none → (process T dl w).db ≡ w.db
  unfolding process
  process-malformed dl w e = rw (e, process)

  pub process-event :
      (dl : Delivery) (w : World) (e : Event)
      → parse_event T dl.message ≡ some e
      → (process T dl w).db ≡ after w.db (apply dl.up e.user_id e.video_id e.op dl.now w.db)
  unfolding process
  process-event dl w e h = elim (Option-cases (apply dl.up e.user_id e.video_id e.op dl.now w.db)) [
    | inl r ↦ rw (h, process, r)
    | inr (x, r) ↦ rw (h, process, r)
  ]

  pub process-has_edge :
      (dl : Delivery) (w : World) (u v : Uuid)
      → dl.up ≡ true
      → IsKnownMessage w.db dl.message
      → has_edge u v (process T dl w).db.likes ≡ effect u v dl.message (has_edge u v w.db.likes)
  unfolding effect IsKnownMessage
  process-has_edge dl w u v up known = elim (Option-cases (parse_event T dl.message)) [
    | inl e ↦ rw (process-malformed dl w e, e, effect)
    | inr (ev, e) ↦
        rw (process-event dl w ev e, e, effect, up)
          (apply-has_edge ev.user_id ev.video_id ev.op dl.now w.db u v
            (rw (e, IsKnownMessage) at known))
  ]

  pub process-IsKnownMessage :
      (dl : Delivery) (w : World) (m : Message)
      → IsKnownMessage w.db m
      → IsKnownMessage (process T dl w).db m
  unfolding IsKnownMessage
  process-IsKnownMessage dl w m known = elim (Option-cases (parse_event T dl.message)) [
    | inl e ↦ rw (process-malformed dl w e) known
    | inr (ev, e) ↦ rw (process-event dl w ev e) (elim (Option-cases (parse_event T m)) [
      | inl f ↦ rw (f, IsKnownMessage) tt
      | inr (x, f) ↦
          rw (f, IsKnownMessage)
            (apply-IsKnown dl.up ev.user_id ev.video_id ev.op dl.now w.db x.user_id x.video_id
              (rw (f, IsKnownMessage) at known))
    ])
  ]

  process-IsSound : (dl : Delivery) (w : World) → IsSound w.db → IsSound (process T dl w).db
  process-IsSound dl w s = elim (Option-cases (parse_event T dl.message)) [
    | inl e ↦ rw (process-malformed dl w e) s
    | inr (ev, e) ↦
        rw (process-event dl w ev e)
          (apply-IsSound dl.up ev.user_id ev.video_id ev.op dl.now w.db s)
  ]

  pub process_all-IsSound :
      (dls : List Delivery) (w : World) → IsSound w.db → IsSound (process_all T dls w).db
  unfolding process_all
  process_all-IsSound [] w s = s
  process_all-IsSound (dl ∷ dls) w s =
      process_all-IsSound dls (process T dl w) (process-IsSound dl w s)

  -- If no edge stands twice and every counter is exact, then so it is after the worker has run,
  -- whatever is delivered and whichever calls fail.
  pub run-IsSound : (ps : List Poll) (w : World) → IsSound w.db → IsSound (run T ps w).db
  unfolding run
  run-IsSound [] w s = s
  run-IsSound (delivered dls ∷ ps) w s =
      run-IsSound ps (process_all T dls w) (process_all-IsSound dls w s)
  run-IsSound (nothing ∷ ps) w s = run-IsSound ps w s
  run-IsSound (canceled ∷ ps) w s = s
  run-IsSound (failed ∷ ps) w s = run-IsSound ps w s

  -- A delivery that gets through, of an event whose user and video exist.
  abbrev pub IsDeliverable : Db → Delivery → Type 0
  IsDeliverable d dl = (dl.up ≡ true) × IsKnownMessage d dl.message

  abbrev pub messages : List Delivery → List Message
  messages [] = []
  messages (dl ∷ dls) = dl.message ∷ messages dls

  IsDeliverable-process :
      (dl : Delivery) (w : World) (dls : List Delivery)
      → All (IsDeliverable w.db) dls
      → All (IsDeliverable (process T dl w).db) dls
  IsDeliverable-process dl w [] h = tt
  IsDeliverable-process dl w (x ∷ xs) h =
      ((h.0.0, process-IsKnownMessage dl w x.message h.0.1), IsDeliverable-process dl w xs h.1)

  pub process_all-has_edge :
      (dls : List Delivery) (w : World) (u v : Uuid)
      → All (IsDeliverable w.db) dls
      → has_edge u v (process_all T dls w).db.likes
        ≡ outcome u v (messages dls) (has_edge u v w.db.likes)
  unfolding process_all outcome
  process_all-has_edge [] w u v h = refl
  process_all-has_edge (dl ∷ dls) w u v h =
      process_all-has_edge dls (process T dl w) u v (IsDeliverable-process dl w dls h.1)
      ∙ ap (outcome u v (messages dls)) (process-has_edge dl w u v h.0.0 h.0.1)

  pub process_all-IsDeliverable :
      (dls xs : List Delivery) (w : World)
      → All (IsDeliverable w.db) xs
      → All (IsDeliverable (process_all T dls w).db) xs
  unfolding process_all
  process_all-IsDeliverable [] xs w h = h
  process_all-IsDeliverable (dl ∷ dls) xs w h =
      process_all-IsDeliverable dls xs (process T dl w) (IsDeliverable-process dl w xs h)
