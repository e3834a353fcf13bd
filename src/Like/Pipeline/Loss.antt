-- ===== src/Like/Pipeline/Loss.antt =====
-- An event whose statement fails. The group hands an entry over once, so the worker does not see it
-- again while it runs, and nothing else brings the edge back.
use vidmerce.Prelude.{
  ℕ, ◌<◌, ◌≤◌, ◌≡◌, ◌≢◌, ◌∙◌, ap, refl, sym, Bool, true, false, ◌&&◌, List, [], ◌∷◌, ◌++◌, some,
  Bytes, ◌==◌, arith, Option-cases, Bool-cases, inl, inr, All, length, drop, drop-append, drop-suc,
  All-append, length-append,
}
use vidmerce.Uuid.{Uuid, UuidText}
use vidmerce.Redis.{Redis, Message}
use vidmerce.Like.Service.{Op, stream_key, stream_max_len, user_liked_set_key, apply}
use vidmerce.Like.Service.Effects.{wanted, event_of}
use vidmerce.Like.Service.Replies.{apply-is_member}
use vidmerce.Like.Repository.{has_edge, reconcile_counter, apply as apply_sql}
use vidmerce.Like.Repository.Counts.{apply-other}
use vidmerce.Like.Worker.{World, Delivery, process, Event, parse_event}
use vidmerce.Like.Worker.Outcomes.{effect, process-malformed, process-event, outcome}
use vidmerce.Like.Pipeline.{
  System, Action, request, deliver, reconcile, unread, step, run, Throughout,
}
use vidmerce.Like.Pipeline.Agreement.{apply-entries, effect-event_of, Agrees}

module _ (T : UuidText) (R : Redis) (u v : Uuid) where
  -- The entry is no event for the edge.
  abbrev pub IsAside : Message → Type 0
  IsAside m = (b : Bool) → effect T u v m b ≡ b

  -- Redis and Postgres differ about the edge, and no unread entry speaks of it.
  pub record IsMissed (s : System R) : Type 0 where
    pub handed : s.cursor ≤ length (R.entries stream_key s.redis)
    pub aside : All IsAside (unread T R s)
    pub differ :
        has_edge u v s.world.db.likes ≢ R.is_member (user_liked_set_key T u) (T.to_string v) s.redis

  -- Requests for other edges, below the cap; deliveries and reconciliations are free.
  abbrev pub IsElsewhere : Action → System R → Type 0
  IsElsewhere (request up x y op ts) s =
      ((x == u && y == v) ≡ false) × (length (R.entries stream_key s.redis) < stream_max_len)
  IsElsewhere (deliver up ack_up now) s = Unit
  IsElsewhere (reconcile up x exact now) s = Unit

  -- An event that is aside is an event for another edge.
  aside-event :
      (m : Message) (e : Event)
      → parse_event T m ≡ some e
      → IsAside m
      → (e.user_id == u && e.video_id == v) ≡ false
  unfolding effect
  aside-event m e h a = elim (Bool-cases (e.user_id == u && e.video_id == v)) [
    | inr other ↦ other
    | inl same ↦
        let t : wanted e.op ≡ true = sym (rw (h, effect) (rw same refl)) ∙ a true in
        let f : wanted e.op ≡ false = sym (rw (h, effect) (rw same refl)) ∙ a false in cc (t, f)
  ]

  process-aside :
      (dl : Delivery) (w : World)
      → IsAside dl.message
      → has_edge u v (process T dl w).db.likes ≡ has_edge u v w.db.likes
  process-aside dl w a = elim (Option-cases (parse_event T dl.message)) [
    | inl n ↦ rw (process-malformed T dl w n)
    | inr (e, h) ↦
        rw (process-event T dl w e h) (
          apply-other dl.up e.user_id e.video_id e.op dl.now w.db u v
            (aside-event dl.message e h a))
  ]

  request-IsMissed :
      (up : Bool) (x y : Uuid) (op : Op) (ts : Bytes) (s : System R)
      → IsElsewhere (request up x y op ts) s
      → IsMissed s
      → IsMissed (step T R (request up x y op ts) s)
  unfolding step
  request-IsMissed false x y op ts s h m = unfold apply in m
  request-IsMissed true x y op ts s (other, room) m =
      let t = (apply T R true x y op ts s.redis).1 in
      let old = R.entries stream_key s.redis in
      let same : R.is_member (user_liked_set_key T u) (T.to_string v) t
          ≡ R.is_member (user_liked_set_key T u) (T.to_string v) s.redis =
        apply-is_member T R x y op ts s.redis u v ∙ rw other refl in
      elim (apply-entries T R x y op ts s.redis room) [
        | inl (e, _) ↦ rw e m
        | inr (i, e) ↦
            let new : Message = record { id = i; values = event_of T x y op ts } in
            let grown : drop s.cursor (R.entries stream_key t) ≡ drop s.cursor old ++ new ∷ [] =
              ap (drop s.cursor) e ∙ drop-append s.cursor old (new ∷ []) m.handed in
            record {
              handed = rw e (omega (arith, m.handed, length-append old (new ∷ [])));
              aside = rw grown (
                  All-append IsAside (drop s.cursor old) (new ∷ []) m.aside
                    ((λ b. effect-event_of T R i x y u v op ts b ∙ rw other refl), tt));
              differ = rw same m.differ;
            }
      ]

  deliver-IsMissed :
      (up ack_up : Bool) (now : ℕ) (s : System R) (ms : List Message)
      → unread T R s ≡ ms
      → IsMissed s
      → IsMissed (step T R (deliver up ack_up now) s)
  unfolding step
  deliver-IsMissed up ack_up now s [] e m = rw (e, step) m
  deliver-IsMissed up ack_up now s (x ∷ xs) e m =
      let dl : Delivery = record { message = x; up = up; ack_up = ack_up; now = now } in
      let (tail, le) = drop-suc s.cursor (R.entries stream_key s.redis) x xs e in
      let aside : All IsAside (x ∷ xs) = rw e at (m.aside) in
      rw (e, step)
        (record {
          handed = le;
          aside = rw tail aside.1;
          differ = rw (process-aside dl s.world aside.0) m.differ;
        })

  step-IsMissed :
      (a : Action) (s : System R) → IsElsewhere a s → IsMissed s → IsMissed (step T R a s)
  step-IsMissed (request up x y op ts) s h m = request-IsMissed up x y op ts s h m
  step-IsMissed (deliver up ack_up now) s h m =
      deliver-IsMissed up ack_up now s (unread T R s) refl m
  step-IsMissed (reconcile true x exact now) s h m =
      unfold step reconcile_counter in
      record { handed = m.handed; aside = m.aside; differ = m.differ }
  step-IsMissed (reconcile false x exact now) s h m = unfold step reconcile_counter in m

  run-IsMissed :
      (acts : List Action) (s : System R)
      → Throughout T R IsElsewhere acts s
      → IsMissed s
      → IsMissed (run T R acts s)
  unfolding run
  run-IsMissed [] s h m = m
  run-IsMissed (a ∷ acts) s h m = run-IsMissed acts (step T R a s) h.1 (step-IsMissed a s h.0 m)

  outcome-aside : (ms : List Message) (b : Bool) → All IsAside ms → outcome T u v ms b ≡ b
  unfolding outcome
  outcome-aside [] b h = refl
  outcome-aside (m ∷ ms) b h = outcome-aside ms (effect T u v m b) h.1 ∙ h.0 b

  outcome-cons :
      (m : Message) (ms : List Message) (b : Bool)
      → outcome T u v (m ∷ ms) b ≡ outcome T u v ms (effect T u v m b)
  unfolding outcome
  outcome-cons m ms b = refl

  -- A statement that fails changes nothing.
  process-down : (dl : Delivery) (w : World) → dl.up ≡ false → (process T dl w).db ≡ w.db
  process-down dl w down = elim (Option-cases (parse_event T dl.message)) [
    | inl n ↦ process-malformed T dl w n
    | inr (e, h) ↦ process-event T dl w e h ∙ rw down (unfold apply_sql in refl)
  ]

  failed-IsMissed :
      (ack_up : Bool) (now : ℕ) (s : System R) (m : Message) (ms : List Message)
      → Agrees T R s
      → unread T R s ≡ m ∷ ms
      → All IsAside ms
      → effect T u v m (has_edge u v s.world.db.likes) ≢ has_edge u v s.world.db.likes
      → IsMissed (step T R (deliver false ack_up now) s)
  unfolding step
  failed-IsMissed ack_up now s m ms a un aside ne =
      let dl : Delivery = record { message = m; up = false; ack_up = ack_up; now = now } in
      let (tail, le) = drop-suc s.cursor (R.entries stream_key s.redis) m ms un in
      let has = has_edge u v s.world.db.likes in
      let due : effect T u v m has ≡ R.is_member (user_liked_set_key T u) (T.to_string v) s.redis =
        sym (outcome-aside ms (effect T u v m has) aside)
        ∙ sym (outcome-cons m ms has)
        ∙ (rw un at (a.agree u v)) in
      rw (un, step)
        (record {
          handed = le;
          aside = rw tail aside;
          differ = rw (process-down dl s.world refl) (λ eq. ne (due ∙ sym eq));
        })

  -- Let Redis, Postgres and the unread entries agree. If the statement of the last unread event
  -- for an edge fails, and the event asks for a change, then, as long as requests are for other
  -- edges and the stream is below its cap, Postgres and Redis differ about the edge, whatever is
  -- delivered or reconciled later.
  pub failed_apply_is_lost :
      (ack_up : Bool) (now : ℕ) (s : System R) (m : Message) (ms : List Message)
      (acts : List Action)
      → Agrees T R s
      → unread T R s ≡ m ∷ ms
      → All IsAside ms
      → effect T u v m (has_edge u v s.world.db.likes) ≢ has_edge u v s.world.db.likes
      → let s₁ = step T R (deliver false ack_up now) s in
        Throughout T R IsElsewhere acts s₁
        → let s₂ = run T R acts s₁ in
          has_edge u v s₂.world.db.likes
          ≢ R.is_member (user_liked_set_key T u) (T.to_string v) s₂.redis
  failed_apply_is_lost ack_up now s m ms acts a un aside ne h =
      let s₁ = step T R (deliver false ack_up now) s in
      (run-IsMissed acts s₁ h (failed-IsMissed ack_up now s m ms a un aside ne)).differ
