-- ===== src/Like/Worker.antt =====
-- internal/like/worker.go: the worker drains the stream of like events into Postgres.
pub mod Outcomes
pub mod Redelivery
use vidmerce.Prelude.{
  ℕ, Bool, true, false, ◌&&◌, ◌||◌, not, List, [], ◌∷◌, Option, none, some, Bytes, text, beq,
  if◌then◌else◌, ◌==◌, length,
}
use vidmerce.Prelude.Int.{ℤ, pos, leb_ℤ}
use vidmerce.Uuid.{Uuid, UuidText}
use vidmerce.Bloom.{has_prefix}
use vidmerce.Redis.{Message, field}
use vidmerce.Like.Service.{Op, like, unlike}
use vidmerce.Like.Repository.{Db, Result, apply}

pub record Event : Type 0 where
  pub user_id : Uuid
  pub video_id : Uuid
  pub op : Op
  pub stream_id : Bytes

-- The two constants of `Op`; any other text is refused.
parse_op : Bytes → Option Op
parse_op s =
    if beq s (text "like") then some like else if beq s (text "unlike") then some unlike else none

make_event : Bytes → Option Uuid → Option Uuid → Option Op → Option Event
make_event i (some u) (some v) (some op) =
    some (record { user_id = u; video_id = v; op = op; stream_id = i })
make_event i _ _ _ = none

module _ (T : UuidText) where
  unfoldable pub parse_event : Message → Option Event
  unfolding field parse_op make_event
  parse_event m =
      make_event m.id (T.parse (field (text "uid") m)) (T.parse (field (text "vid") m))
        (parse_op (field (text "op") m))

-- One delivery: whether Postgres and XACK get through, and the database's clock.
pub record Delivery : Type 0 where
  pub message : Message
  pub up : Bool
  pub ack_up : Bool
  pub now : ℕ

-- What the worker changes: the tables, and the ids it has acknowledged.
pub record World : Type 0 where
  pub db : Db
  pub acked : List Bytes

unfoldable pub x_ack : Bool → Bytes → List Bytes → List Bytes
x_ack up i acked = if up then i ∷ acked else acked

module _ (T : UuidText) where
  -- After `repo.Apply`: an error leaves the entry pending.
  applied : Delivery → World → Option (Result × Db) → World
  applied dl w none = w
  applied dl w (some (res, d)) = record { db = d; acked = x_ack dl.ack_up dl.message.id w.acked }

  process_event : Delivery → World → Option Event → World
  unfolding applied
  process_event dl w none = record w { acked = x_ack dl.ack_up dl.message.id w.acked }
  process_event dl w (some ev) = applied dl w (apply dl.up ev.user_id ev.video_id ev.op dl.now w.db)

  unfoldable pub process : Delivery → World → World
  unfolding process_event
  process dl w = process_event dl w (parse_event T dl.message)

  -- `for _, e := range entries`
  unfoldable pub process_all : List Delivery → World → World
  process_all [] w = w
  process_all (dl ∷ dls) w = process_all dls (process dl w)

-- What one XREADGROUP of new entries comes back with.
pub data Poll : Type 0 where
  delivered : List Delivery → Poll
  nothing : Poll  -- redis.Nil, after the block timeout
  canceled : Poll  -- the context is done
  failed : Poll

module _ (T : UuidText) where
  -- The loop of `Run`, over what each round reads; an error backs off and goes on.
  unfoldable pub run : List Poll → World → World
  run [] w = w
  run (delivered dls ∷ ps) w = run ps (process_all T dls w)
  run (nothing ∷ ps) w = run ps w
  run (canceled ∷ ps) w = w
  run (failed ∷ ps) w = run ps w

pub record WorkerConfig : Type 0 where
  pub group : Bytes
  pub consumer : Bytes
  pub batch_size : ℤ
  pub block_timeout : ℤ  -- in milliseconds

-- The defaults of `NewWorker`.
unfoldable pub with_defaults : WorkerConfig → WorkerConfig
with_defaults c = record {
  group = if length c.group == 0 then text "vidmerce-workers" else c.group;
  consumer = if length c.consumer == 0 then text "worker-1" else c.consumer;
  batch_size = if leb_ℤ c.batch_size (pos 0) then pos 100 else c.batch_size;
  block_timeout = if leb_ℤ c.block_timeout (pos 0) then pos 5000 else c.block_timeout;
}

-- `ensureGroup`, by what XGROUP CREATE answers: none, or the text of an error. A new group starts after
-- the entries that the stream holds, and one that is there keeps its position; `none` is an error.
unfoldable pub ensure_group : Option Bytes → ℕ → ℕ → Option ℕ
ensure_group none entries position = some entries
ensure_group (some e) entries position =
    if has_prefix (text "BUSYGROUP") e then some position else none

module _ (T : UuidText) where
  -- `Run`, of the group's position and what is read.
  unfoldable pub start : Option ℕ → List Poll → World → Bool × World
  start none ps w = (false, w)
  start (some position) ps w = (true, run T ps w)
