-- ===== src/View/Worker/Batches.antt =====
-- What becomes of the events that the worker reads.
use mathlib.Core.List.Sublistᴰ
use mathlib.Core.List.{append-nil, append_assoc, Sublistᴰ}
use vidmerce.Prelude.{
  false, ◌≡◌, ◌∙◌, ap, sym, Bool, List, [], ◌∷◌, ◌++◌, none, some, Option-cases, List-cases,
  Bool-cases, inl, inr, arith, filter, filter-none,
}
use mathlib.Core.Path.{subst}
use vidmerce.Prelude.Sublists.{Sublist-after, Sublist-append_left, Sublist-append_right}
use vidmerce.Uuid.{UuidText}
use vidmerce.Redis.{Message}
use vidmerce.View.{Event}
use vidmerce.View.Worker.{
  parse_event, WorkerConfig, State, flush, collect, keep, Round, flush_if_due, Poll, delivered,
  nothing, canceled, failed, run, Insertion, inserted, failed_after, settle, due,
}

-- All events that the worker holds or has written, oldest first.
abbrev pub taken : State → List Event
taken s = s.sink ++ s.batch

-- An insert that fails has written nothing.
abbrev pub IsWhole : Insertion → Type 0
IsWhole inserted = Unit
IsWhole (failed_after written) = (e : Event) → written e ≡ false

flush-taken : (i : Insertion) (a : Bool) (s : State) → IsWhole i → taken (flush i a s) ≡ taken s
unfolding flush settle
flush-taken inserted a s h = ground (arith, append-nil s.sink, append-nil (s.sink ++ s.batch))
flush-taken (failed_after written) a s h =
    ground (arith, filter-none written s.batch h, append-nil s.sink, append-nil (s.sink ++ s.batch))

flush_if_due-taken :
    (c : WorkerConfig) (r : Round) (s : State)
    → IsWhole r.insertion
    → taken (flush_if_due c r s) ≡ taken s
unfolding flush_if_due
flush_if_due-taken c r s h = ground (arith, flush-taken r.insertion r.ack_up s h)

settle-kept : (i : Insertion) (a : Bool) (s : State) → Sublistᴰ (taken s) (taken (settle i a s))
unfolding settle
settle-kept inserted a s =
    subst (Sublistᴰ (taken s)) (sym (append-nil (taken s))) (Sublistᴰ.refl (taken s))
settle-kept (failed_after written) a s =
    subst (Sublistᴰ (taken s)) (sym (append_assoc s.sink (filter written s.batch) s.batch)) (
      Sublist-append_left s.sink s.batch (filter written s.batch ++ s.batch)
        (Sublist-after (filter written s.batch) s.batch s.batch (Sublistᴰ.refl s.batch)))

flush-kept : (i : Insertion) (a : Bool) (s : State) → Sublistᴰ (taken s) (taken (flush i a s))
unfolding flush
flush-kept i a s = elim (List-cases s.batch) [
  | inl none_held ↦
      let same : s ≡ flush i a s = ground (arith, none_held) in
      subst (λ t. Sublistᴰ (taken s) (taken t)) same (Sublistᴰ.refl (taken s))
  | inr (e, es, held) ↦
      let same : settle i a s ≡ flush i a s = ground (arith, held) in
      subst (λ t. Sublistᴰ (taken s) (taken t)) same (settle-kept i a s)
]

flush_if_due-kept :
    (c : WorkerConfig) (r : Round) (s : State) → Sublistᴰ (taken s) (taken (flush_if_due c r s))
unfolding flush_if_due
flush_if_due-kept c r s = elim (Bool-cases (due c r.now s)) [
  | inr early ↦ rw early (Sublistᴰ.refl (taken s))
  | inl late ↦ rw late (flush-kept r.insertion r.ack_up s)
]

-- The events among the messages of a read.
unfoldable pub events : UuidText → List (Message × Bool) → List Event
events T [] = []
events T ((m, ack_up) ∷ ms) = elim (parse_event T m) [
  | none ↦ events T ms
  | some e ↦ e ∷ events T ms
]

collect-taken :
    (T : UuidText) (ms : List (Message × Bool)) (s : State)
    → taken (collect T ms s) ≡ taken s ++ events T ms
unfolding collect keep events
collect-taken T [] s = sym (append-nil (taken s))
collect-taken T ((m, ack_up) ∷ ms) s = elim (Option-cases (parse_event T m)) [
  | inl bad ↦ rw (collect, events, bad) (collect-taken T ms (keep ack_up m none s))
  | inr (e, good) ↦
      rw (collect, events, good)
        (collect-taken T ms (keep ack_up m (some e) s)
          ∙ (ap (λ es. es ++ events T ms) (sym (append_assoc s.sink s.batch (e ∷ [])))
              ∙ append_assoc (taken s) (e ∷ []) (events T ms)))
]

-- What a poll delivers; nothing is read once the context is done.
unfoldable pub read : UuidText → List Poll → List Event
read T [] = []
read T (delivered ms r ∷ ps) = events T ms ++ read T ps
read T (nothing r ∷ ps) = read T ps
read T (canceled i ack_up ∷ ps) = []
read T (failed ∷ ps) = read T ps

-- No insert fails after it has written rows.
abbrev pub AreWhole : List Poll → Type 0
AreWhole [] = Unit
AreWhole (delivered ms r ∷ ps) = IsWhole r.insertion × AreWhole ps
AreWhole (nothing r ∷ ps) = IsWhole r.insertion × AreWhole ps
AreWhole (canceled i ack_up ∷ ps) = IsWhole i
AreWhole (failed ∷ ps) = AreWhole ps

-- When an insert that fails has written nothing, the rows that the sink has taken, followed by the
-- batch in memory, are the well-formed events read so far, in order: none is lost and none is
-- written twice, however many inserts and acknowledgements fail.
pub run-taken :
    (T : UuidText) (c : WorkerConfig) (ps : List Poll) (s : State)
    → AreWhole ps
    → taken (run T c ps s) ≡ taken s ++ read T ps
unfolding run read
run-taken T c [] s h = sym (append-nil (taken s))
run-taken T c (delivered ms r ∷ ps) s h =
    run-taken T c ps (flush_if_due c r (collect T ms s)) h.1
    ∙ (ap (λ es. es ++ read T ps)
          (flush_if_due-taken c r (collect T ms s) h.0 ∙ collect-taken T ms s)
        ∙ append_assoc (taken s) (events T ms) (read T ps))
run-taken T c (nothing r ∷ ps) s h =
    run-taken T c ps (flush_if_due c r s) h.1
    ∙ ap (λ es. es ++ read T ps) (flush_if_due-taken c r s h.0)
run-taken T c (canceled i a ∷ ps) s h = flush-taken i a s h ∙ sym (append-nil (taken s))
run-taken T c (failed ∷ ps) s h = run-taken T c ps s h

-- Whatever the sink and Redis do, also when an insert reports an error after it has written some of
-- its rows, every well-formed event that is read is among the rows that the sink has taken or in
-- the batch in memory, in the order of reading: none is lost.
pub run-kept :
    (T : UuidText) (c : WorkerConfig) (ps : List Poll) (s : State)
    → Sublistᴰ (taken s ++ read T ps) (taken (run T c ps s))
unfolding run read
run-kept T c [] s = rw (append-nil (taken s)) (Sublistᴰ.refl (taken s))
run-kept T c (delivered ms r ∷ ps) s =
    let t = collect T ms s in
    subst (λ es. Sublistᴰ es (taken (run T c ps (flush_if_due c r t))))
      (ap (λ es. es ++ read T ps) (collect-taken T ms s)
        ∙ append_assoc (taken s) (events T ms) (read T ps))
      (Sublistᴰ.trans
        (Sublist-append_right (taken t) (taken (flush_if_due c r t)) (read T ps)
          (flush_if_due-kept c r t))
        (run-kept T c ps (flush_if_due c r t)))
run-kept T c (nothing r ∷ ps) s =
    Sublistᴰ.trans
      (Sublist-append_right (taken s) (taken (flush_if_due c r s)) (read T ps)
        (flush_if_due-kept c r s))
      (run-kept T c ps (flush_if_due c r s))
run-kept T c (canceled i a ∷ ps) s = rw (append-nil (taken s)) (flush-kept i a s)
run-kept T c (failed ∷ ps) s = run-kept T c ps s
