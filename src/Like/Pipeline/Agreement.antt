-- ===== src/Like/Pipeline/Agreement.antt =====
-- Postgres catches up with Redis.
use vidmerce.Prelude.{
  ℕ, ◌<◌, ◌≤◌, ◌≡◌, ◌∙◌, ap, refl, sym, Bool, true, false, ◌&&◌, List, [], ◌∷◌, ◌++◌, Bytes,
  if◌then◌else◌, ◌==◌, arith, Bool-cases, inl, inr, All, ◌⊎◌, length, drop, drop-append, drop-suc,
  All-append, All-map, length-append,
}
use vidmerce.Uuid.{Uuid, UuidText}
use vidmerce.Redis.{Redis, Message}
use vidmerce.Like.Service.{Op, like, unlike, stream_key, stream_max_len, user_liked_set_key, apply}
use vidmerce.Like.Service.Effects.{
  wanted, event_of, apply-like, apply-unlike, like_store-entries, unlike_store-entries,
}
use vidmerce.Like.Service.Replies.{apply-is_member}
use vidmerce.Like.Repository.{Db, has_edge, reconcile_counter}
use vidmerce.Like.Repository.Counts.{IsKnown}
use vidmerce.Like.Worker.{Delivery}
use vidmerce.Like.Worker.Outcomes.{
  parse_event-event_of, effect, outcome, outcome-append, IsKnownMessage, process-has_edge,
  process-IsKnownMessage,
}
use vidmerce.Like.Pipeline.{
  System, Action, request, deliver, reconcile, unread, step, run, HasRoom, IsServed, Throughout,
}

module _ (T : UuidText) (R : Redis) where
  -- A request leaves the stream as it is where it changes no membership, and otherwise adds its event.
  pub apply-entries :
      (u v : Uuid) (op : Op) (ts : Bytes) (s : R.Store)
      → length (R.entries stream_key s) < stream_max_len
      → let s' = (apply T R true u v op ts s).1 in
        ((s' ≡ s) × (R.is_member (user_liked_set_key T u) (T.to_string v) s ≡ wanted op))
        ⊎ ((i : Bytes) × (R.entries stream_key s'
              ≡ R.entries stream_key s ++ record { id = i; values = event_of T u v op ts } ∷ []))
  apply-entries u v like ts s room =
      elim (Bool-cases (R.is_member (user_liked_set_key T u) (T.to_string v) s)) [
        | inl old ↦ inl (apply-like T R u v ts s ∙ rw old, old)
        | inr new ↦
            let (i, e) = like_store-entries T R u v ts s room in
            inr (i, ap (R.entries stream_key) (apply-like T R u v ts s ∙ rw new) ∙ e)
      ]
  apply-entries u v unlike ts s room =
      elim (Bool-cases (R.is_member (user_liked_set_key T u) (T.to_string v) s)) [
        | inr old ↦ inl (apply-unlike T R u v ts s ∙ rw old, old)
        | inl new ↦
            let (i, e) = unlike_store-entries T R u v ts s room in
            inr (i, ap (R.entries stream_key) (apply-unlike T R u v ts s ∙ rw new) ∙ e)
      ]

  -- What Postgres will hold once the unread entries are applied is what Redis holds.
  pub record Agrees (s : System R) : Type 0 where
    pub handed : s.cursor ≤ length (R.entries stream_key s.redis)
    pub known : All (IsKnownMessage T s.world.db) (unread T R s)
    pub agree :
        (u v : Uuid)
        → outcome T u v (unread T R s) (has_edge u v s.world.db.likes)
          ≡ R.is_member (user_liked_set_key T u) (T.to_string v) s.redis

  pub effect-event_of :
      (i : Bytes) (u v w x : Uuid) (op : Op) (ts : Bytes) (b : Bool)
      → effect T w x (record { id = i; values = event_of T u v op ts }) b
        ≡ (if u == w && v == x then wanted op else b)
  unfolding effect
  effect-event_of i u v w x op ts b = rw (parse_event-event_of T i u v op ts, effect)

  IsKnown-event_of :
      (i : Bytes) (u v : Uuid) (op : Op) (ts : Bytes) (d : Db)
      → IsKnown u v d
      → IsKnownMessage T d (record { id = i; values = event_of T u v op ts })
  unfolding IsKnownMessage
  IsKnown-event_of i u v op ts d k = rw (parse_event-event_of T i u v op ts, IsKnownMessage) k

  outcome-last : (m : Message) (w x : Uuid) (b : Bool) → outcome T w x (m ∷ []) b ≡ effect T w x m b
  unfolding outcome
  outcome-last m w x b = refl

  request-Agrees :
      (up : Bool) (u v : Uuid) (op : Op) (ts : Bytes) (s : System R)
      → HasRoom T R (request up u v op ts) s
      → Agrees s
      → Agrees (step T R (request up u v op ts) s)
  unfolding step
  request-Agrees false u v op ts s (known, room) a = unfold apply in a
  request-Agrees true u v op ts s (known, room) a = elim (apply-entries u v op ts s.redis room) [
    | inl (same, _) ↦ rw same a
    | inr (i, e) ↦
        let m : Message = record { id = i; values = event_of T u v op ts } in
        let old = R.entries stream_key s.redis in
        let grown : drop s.cursor (R.entries stream_key (apply T R true u v op ts s.redis).1)
            ≡ drop s.cursor old ++ m ∷ [] =
          ap (drop s.cursor) e ∙ drop-append s.cursor old (m ∷ []) a.handed in
        record {
          handed = rw e (omega (arith, a.handed, length-append old (m ∷ [])));
          known = rw grown (
              All-append (IsKnownMessage T s.world.db) (drop s.cursor old) (m ∷ []) a.known
                (IsKnown-event_of i u v op ts s.world.db known, tt));
          agree = λ w x. rw grown (
              outcome-append T w x (drop s.cursor old) (m ∷ []) (has_edge w x s.world.db.likes)
              ∙ outcome-last m w x
                  (outcome T w x (drop s.cursor old) (has_edge w x s.world.db.likes))
              ∙ effect-event_of i u v w x op ts _
              ∙ ap (λ b. if u == w && v == x then wanted op else b) (a.agree w x)
              ∙ sym (apply-is_member T R u v op ts s.redis w x));
        }
  ]

  outcome-nil : (u v : Uuid) (b : Bool) → b ≡ outcome T u v [] b
  unfolding outcome
  outcome-nil u v b = refl

  outcome-cons :
      (m : Message) (ms : List Message) (u v : Uuid) (b : Bool)
      → outcome T u v ms (effect T u v m b) ≡ outcome T u v (m ∷ ms) b
  unfolding outcome
  outcome-cons m ms u v b = refl

  deliver-Agrees :
      (ack_up : Bool) (now : ℕ) (s : System R)
      → (ms : List Message) → unread T R s ≡ ms
      → Agrees s
      → Agrees (step T R (deliver true ack_up now) s)
  unfolding step
  deliver-Agrees ack_up now s [] e a = rw (e, step) a
  deliver-Agrees ack_up now s (m ∷ ms) e a =
      let dl : Delivery = record { message = m; up = true; ack_up = ack_up; now = now } in
      let (tail, le) = drop-suc s.cursor (R.entries stream_key s.redis) m ms e in
      let known : All (IsKnownMessage T s.world.db) (m ∷ ms) = rw e at (a.known) in
      rw (e, step)
        (record {
          handed = le;
          known = rw tail (All-map _ _ ms (process-IsKnownMessage T dl s.world) known.1);
          agree = λ u v. rw tail (
              ap (outcome T u v ms) (process-has_edge T dl s.world u v refl known.0)
              ∙ outcome-cons m ms u v (has_edge u v s.world.db.likes)
              ∙ (rw e at (a.agree u v)));
        })

  reconcile-Agrees :
      (up : Bool) (v exact now : ℕ) (s : System R)
      → Agrees s
      → Agrees (step T R (reconcile up v exact now) s)
  unfolding step reconcile_counter IsKnownMessage
  reconcile-Agrees true v exact now s a = record {
    handed = a.handed;
    known = a.known;
    agree = a.agree;
  }
  reconcile-Agrees false v exact now s a = a

  pub step-Agrees :
      (a : Action) (s : System R) → IsServed T R a s → Agrees s → Agrees (step T R a s)
  step-Agrees (request up u v op ts) s h a = request-Agrees up u v op ts s h a
  step-Agrees (deliver true ack_up now) s h a = deliver-Agrees ack_up now s (unread T R s) refl a
  step-Agrees (deliver false ack_up now) s h a = cc
  step-Agrees (reconcile up v exact now) s h a = reconcile-Agrees up v exact now s a

  run-Agrees :
      (acts : List Action) (s : System R)
      → Throughout T R (IsServed T R) acts s
      → Agrees s
      → Agrees (run T R acts s)
  unfolding run
  run-Agrees [] s h a = a
  run-Agrees (act ∷ acts) s h a = run-Agrees acts (step T R act s) h.1 (step-Agrees act s h.0 a)

  -- Start where Redis, Postgres and the unread entries agree, with known users and videos and a
  -- stream below its cap at each request, and let all of the worker's statements get through.
  -- Then, whatever the order of requests, deliveries and reconciliations, once nothing is unread
  -- Postgres holds exactly the likes that Redis holds.
  pub caught_up :
      (acts : List Action) (s : System R)
      → Agrees s
      → Throughout T R (IsServed T R) acts s
      → unread T R (run T R acts s) ≡ []
      → (u v : Uuid)
      → has_edge u v (run T R acts s).world.db.likes
        ≡ R.is_member (user_liked_set_key T u) (T.to_string v) (run T R acts s).redis
  caught_up acts s a h done u v =
      outcome-nil u v _ ∙ (rw done at ((run-Agrees acts s h a).agree u v))
