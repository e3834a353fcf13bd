-- ===== src/Like/Pipeline.antt =====
-- The like path end to end: requests at the API, the stream in Redis, the worker and the reconciler,
-- in any order. The consumer group hands each entry to the worker once (XREADGROUP with ">").
pub mod Agreement
pub mod Loss
use vidmerce.Prelude.{ℕ, suc, ◌<◌, ◌≡◌, Bool, true, List, [], ◌∷◌, Bytes, drop, length}
use vidmerce.Uuid.{Uuid, UuidText}
use vidmerce.Redis.{Redis, Message}
use vidmerce.Like.Service.{Op, stream_key, stream_max_len, apply}
use vidmerce.Like.Repository.{reconcile_counter}
use vidmerce.Like.Repository.Counts.{IsKnown, after}
use vidmerce.Like.Worker.{World, process}

module _ (R : Redis) where
  -- `cursor` is the number of entries that the group has been handed.
  pub record System : Type 0 where
    pub redis : R.Store
    pub world : World
    pub cursor : ℕ

-- One thing that happens: a request, the delivery of the next entry, or a write of the reconciler
-- with whatever count it read. The flags say which calls get through.
pub data Action : Type 0 where
  request : Bool → Uuid → Uuid → Op → Bytes → Action
  deliver : Bool → Bool → ℕ → Action
  reconcile : Bool → Uuid → ℕ → ℕ → Action

module _ (T : UuidText) (R : Redis) where
  abbrev pub unread : System R → List Message
  unread s = drop s.cursor (R.entries stream_key s.redis)

  deliver_next : Bool → Bool → ℕ → List Message → System R → System R
  deliver_next up ack_up now [] s = s
  deliver_next up ack_up now (m ∷ ms) s = record s {
    world = process T (record { message = m; up = up; ack_up = ack_up; now = now }) s.world;
    cursor = suc s.cursor;
  }

  unfoldable pub step : Action → System R → System R
  unfolding deliver_next
  step (request up u v op ts) s = record s { redis = (apply T R up u v op ts s.redis).1 }
  step (deliver up ack_up now) s = deliver_next up ack_up now (unread s) s
  step (reconcile up v exact now) s = record s {
    world = record (s.world) {
      db = after s.world.db (reconcile_counter up v exact now s.world.db);
    };
  }

  unfoldable pub run : List Action → System R → System R
  run [] s = s
  run (a ∷ rest) s = run rest (step a s)

  -- Users and videos of requests exist and the stream is below its cap.
  abbrev pub HasRoom : Action → System R → Type 0
  HasRoom (request up u v op ts) s =
      IsKnown u v s.world.db × (length (R.entries stream_key s.redis) < stream_max_len)
  HasRoom (deliver up ack_up now) s = Unit
  HasRoom (reconcile up v exact now) s = Unit

  -- Also, the worker's statements get through.
  abbrev pub IsServed : Action → System R → Type 0
  IsServed (request up u v op ts) s = HasRoom (request up u v op ts) s
  IsServed (deliver up ack_up now) s = up ≡ true
  IsServed (reconcile up v exact now) s = Unit

  -- A condition on each action at the state in which it happens.
  abbrev pub Throughout : (Action → System R → Type 0) → List Action → System R → Type 0
  Throughout P [] s = Unit
  Throughout P (a ∷ rest) s = P a s × Throughout P rest (step a s)
