-- ===== src/View/Worker/Acks.antt =====
-- What the view worker acknowledges.
use vidmerce.Prelude.{
  ◌≡◌, refl, sym, Bool, true, false, List, [], ◌∷◌, ◌++◌, Option, none, some, Bytes, map, All,
  All-append, All-append_left, All-append_right, Bool-cases, List-cases, inl, inr, arith, filter,
}
use mathlib.Core.Path.{subst}
use mathlib.Core.List.{map-append}
use vidmerce.Uuid.{Uuid, UuidText}
use vidmerce.Prelude.{text}
use vidmerce.Prelude.Int.{ℤ}
use vidmerce.Prelude.Decimal.{parse_int}
use vidmerce.Redis.{Message, field}
use vidmerce.View.{Event}
use vidmerce.View.Worker.{
  parse_event, WorkerConfig, State, x_ack, flush, collect, keep, Round, flush_if_due, Poll,
  delivered, nothing, canceled, failed, run, due, checked, Insertion, inserted, failed_after,
  settle,
}

-- The ids that the worker holds are those of the batch.
abbrev pub IsAligned : State → Type 0
IsAligned s = s.batch_ids ≡ map (λ e. e.stream_id) s.batch

checked-stream_id :
    (T : UuidText) (m : Message) (v : Option Uuid) (t : Option ℤ) (ev : Event)
    → checked T m v t ≡ some ev
    → ev.stream_id ≡ m.id
unfolding checked
checked-stream_id T m none t ev h = absurd (cc)
checked-stream_id T m (some v) none ev h = absurd (cc)
checked-stream_id T m (some v) (some t) ev h = ground arith

parse_event-stream_id :
    (T : UuidText) (m : Message) (ev : Event) → parse_event T m ≡ some ev → ev.stream_id ≡ m.id
unfolding parse_event
parse_event-stream_id T m ev h =
    checked-stream_id T m (T.parse (field (text "vid") m)) (parse_int (field (text "t") m)) ev h

module _ (P : Bytes → Type 0) where
  -- The ids of the events in the sink have the property.
  abbrev pub IsWritten : State → Type 0
  IsWritten s = All (λ e. P e.stream_id) s.sink

  -- The worker's ids are in step, and those that it has acknowledged have the property when all of
  -- the sink's have it.
  abbrev pub IsJustified : State → Type 0
  IsJustified s = IsAligned s × (IsWritten s → All P s.acked)

  abbrev pub IsMalformed : UuidText → List (Message × Bool) → Type 0
  IsMalformed T = All (λ m. parse_event T m.0 ≡ none → P m.0.id)

  -- The ids of the malformed entries that are read have the property.
  abbrev pub IsCovered : UuidText → List Poll → Type 0
  IsCovered T [] = Unit
  IsCovered T (delivered ms r ∷ ps) = IsMalformed T ms × IsCovered T ps
  IsCovered T (nothing r ∷ ps) = IsCovered T ps
  IsCovered T (canceled i a ∷ ps) = IsCovered T ps
  IsCovered T (failed ∷ ps) = IsCovered T ps

  All-map_ids : (es : List Event) → All (λ e. P e.stream_id) es → All P (map (λ e. e.stream_id) es)
  All-map_ids [] h = tt
  All-map_ids (e ∷ es) h = (h.0, All-map_ids es h.1)

  x_ack-All :
      (up : Bool) (ids acked : List Bytes) → All P ids → All P acked → All P (x_ack up ids acked)
  unfolding x_ack
  x_ack-All true ids acked p q = All-append P acked ids q p
  x_ack-All false ids acked p q = q

  flush-written :
      (a : Bool) (ids acked : List Bytes) (batch sink : List Event)
      → ids ≡ map (λ e. e.stream_id) batch
      → (All (λ e. P e.stream_id) sink → All P acked)
      → All (λ e. P e.stream_id) (sink ++ batch)
      → All P (x_ack a ids acked)
  flush-written a ids acked batch sink same j w =
      x_ack-All a ids acked
        (subst (All P) (sym same)
          (All-map_ids batch (All-append_right (λ e. P e.stream_id) sink batch w)))
        (j (All-append_left (λ e. P e.stream_id) sink batch w))

  settle-IsJustified :
      (i : Insertion) (a : Bool) (s : State) → IsJustified s → IsJustified (settle i a s)
  unfolding settle
  settle-IsJustified inserted a s j =
      (refl, flush-written a s.batch_ids s.acked s.batch s.sink j.0 j.1)
  settle-IsJustified (failed_after written) a s j =
      (j.0, λ w. j.1 (All-append_left (λ e. P e.stream_id) s.sink (filter written s.batch) w))

  flush-IsJustified :
      (i : Insertion) (a : Bool) (s : State) → IsJustified s → IsJustified (flush i a s)
  unfolding flush
  flush-IsJustified i a s j = elim (List-cases s.batch) [
    | inl none_held ↦
        let same : s ≡ flush i a s = ground (arith, none_held) in subst IsJustified same j
    | inr (e, es, held) ↦
        let same : settle i a s ≡ flush i a s = ground (arith, held) in
        subst IsJustified same (settle-IsJustified i a s j)
  ]

  map-id_batch :
      (batch : List Event) (ev : Event) (id : Bytes) {ids : List Bytes}
      → ids ≡ map (λ e. e.stream_id) batch
      → ev.stream_id ≡ id
      → ids ++ id ∷ [] ≡ map (λ e. e.stream_id) (batch ++ ev ∷ [])
  map-id_batch batch ev id same own =
      ground (arith, same, own, map-append (λ (e : Event). e.stream_id) batch (ev ∷ []))

  keep-IsJustified :
      (a : Bool) (m : Message) (o : Option Event) (T : UuidText) (s : State)
      → parse_event T m ≡ o
      → (parse_event T m ≡ none → P m.id)
      → IsJustified s
      → IsJustified (keep a m o s)
  unfolding keep
  keep-IsJustified a m none T s e h j =
      (j.0, (λ w. x_ack-All a (m.id ∷ []) s.acked (h e, tt) (j.1 w)))
  keep-IsJustified a m (some ev) T s e h j =
      (map-id_batch s.batch ev m.id j.0 (parse_event-stream_id T m ev e), j.1)

  collect-IsJustified :
      (T : UuidText) (ms : List (Message × Bool)) (s : State)
      → IsMalformed T ms
      → IsJustified s
      → IsJustified (collect T ms s)
  unfolding collect
  collect-IsJustified T [] s h j = j
  collect-IsJustified T ((m, a) ∷ ms) s h j =
      collect-IsJustified T ms (keep a m (parse_event T m) s) h.1
        (keep-IsJustified a m (parse_event T m) T s refl h.0 j)

  flush_if_due-IsJustified :
      (c : WorkerConfig) (r : Round) (s : State) → IsJustified s → IsJustified (flush_if_due c r s)
  unfolding flush_if_due
  flush_if_due-IsJustified c r s j = elim (Bool-cases (due c r.now s)) [
    | inr early ↦
        let same : s ≡ flush_if_due c r s = ground (arith, early) in subst IsJustified same j
    | inl late ↦
        let t : State = record (flush r.insertion r.ack_up s) { last_flush = r.flushed_at } in
        let same : t ≡ flush_if_due c r s = ground (arith, late) in
        let f = flush-IsJustified r.insertion r.ack_up s j in subst IsJustified same (f.0, f.1)
  ]

  -- The worker acknowledges an entry only if its event is in the sink or it is malformed: whatever
  -- holds of the ids in the sink, of the malformed entries read and of the ids acknowledged before
  -- holds of all that it has acknowledged, and the ids that it holds stay in step with its batch.
  pub run-IsJustified :
      (T : UuidText) (c : WorkerConfig) (ps : List Poll) (s : State)
      → IsCovered T ps
      → IsJustified s
      → IsJustified (run T c ps s)
  unfolding run
  run-IsJustified T c [] s h j = j
  run-IsJustified T c (delivered ms r ∷ ps) s h j =
      run-IsJustified T c ps (flush_if_due c r (collect T ms s)) h.1
        (flush_if_due-IsJustified c r (collect T ms s) (collect-IsJustified T ms s h.0 j))
  run-IsJustified T c (nothing r ∷ ps) s h j =
      run-IsJustified T c ps (flush_if_due c r s) h (flush_if_due-IsJustified c r s j)
  run-IsJustified T c (canceled i a ∷ ps) s h j = flush-IsJustified i a s j
  run-IsJustified T c (failed ∷ ps) s h j = run-IsJustified T c ps s h j
