-- ===== src/View/Worker.antt =====
-- internal/view/worker.go: the worker drains the stream of views into the sink in batches.
pub mod Parsing
pub mod Batches
pub mod Acks
use vidmerce.Prelude.{
  ℕ, zero, suc, ◌+◌, ◌-◌, Bool, true, false, ◌&&◌, ◌||◌, List, [], ◌∷◌, ◌++◌, Option, none, some,
  Bytes, text, beq, if◌then◌else◌, ◌==◌, leb, length, filter,
}
use vidmerce.Prelude.Int.{ℤ, pos, leb_ℤ}
use vidmerce.Prelude.Decimal.{parse_int}
use vidmerce.Uuid.{Uuid, UuidText}
use vidmerce.Redis.{Message, field}
use vidmerce.Bloom.{has_prefix}
use vidmerce.View.{Event}

-- An empty or unreadable `uid` is an anonymous viewer.
unfoldable pub viewer_of : UuidText → Bytes → Option Uuid
viewer_of T [] = none
viewer_of T (c ∷ cs) = T.parse (c ∷ cs)

unfoldable pub checked : UuidText → Message → Option Uuid → Option ℤ → Option Event
unfolding viewer_of field
checked T m none t = none
checked T m (some video) none = none
checked T m (some video) (some t) =
    if length (field (text "ip") m) == 32 && length (field (text "ua") m) == 16
    then some (record {
      stream_id = m.id;
      video_id = video;
      viewer_id = viewer_of T (field (text "uid") m);
      ip_hash = field (text "ip") m;
      ua_hash = field (text "ua") m;
      country = field (text "c") m;
      is_unique = beq (field (text "u") m) (text "1");
      event_time = t;
    })
    else none

-- `parseEvent`
unfoldable pub parse_event : UuidText → Message → Option Event
unfolding checked
parse_event T m = checked T m (T.parse (field (text "vid") m)) (parse_int (field (text "t") m))

pub record WorkerConfig : Type 0 where
  pub group : Bytes
  pub consumer : Bytes
  pub flush_size : ℤ
  pub flush_interval : ℤ  -- in milliseconds
  pub read_batch : ℤ

-- `NewWorker`'s defaults.
unfoldable pub with_defaults : WorkerConfig → WorkerConfig
with_defaults c = record {
  group = if length c.group == 0 then text "vidmerce-workers" else c.group;
  consumer = if length c.consumer == 0 then text "worker-1" else c.consumer;
  flush_size = if leb_ℤ c.flush_size (pos 0) then pos 500 else c.flush_size;
  flush_interval = if leb_ℤ c.flush_interval (pos 0) then pos 1000 else c.flush_interval;
  read_batch = if leb_ℤ c.read_batch (pos 0) then pos 200 else c.read_batch;
}

-- The variables of `Run`, and what it has written: to the sink, and as acknowledgements.
pub record State : Type 0 where
  pub batch : List Event
  pub batch_ids : List Bytes
  pub last_flush : ℕ
  pub sink : List Event
  pub acked : List Bytes

x_ack : Bool → List Bytes → List Bytes → List Bytes
x_ack up ids acked = if up then acked ++ ids else acked

-- How `Insert` ends: an error may come after some of the rows have been written, those that a test
-- picks.
pub data Insertion : Type 0 where
  inserted : Insertion
  failed_after : (Event → Bool) → Insertion

unfoldable pub settle : Insertion → Bool → State → State
unfolding x_ack
settle inserted ack_up s = record s {
  batch = [];
  batch_ids = [];
  sink = s.sink ++ s.batch;
  acked = x_ack ack_up s.batch_ids s.acked;
}
settle (failed_after written) ack_up s = record s { sink = s.sink ++ filter written s.batch }

-- `flush`: an insert that fails keeps the batch, to be tried again.
unfoldable pub flush : Insertion → Bool → State → State
unfolding settle
flush i ack_up s = elim s.batch [ [] ↦ s | e ∷ es ↦ settle i ack_up s ]

unfoldable pub keep : Bool → Message → Option Event → State → State
unfolding x_ack
keep ack_up m none s = record s { acked = x_ack ack_up (m.id ∷ []) s.acked }
keep ack_up m (some ev) s = record s {
  batch = s.batch ++ ev ∷ [];
  batch_ids = s.batch_ids ++ m.id ∷ [];
}

-- The loop over the messages of one read; each comes with whether its XACK would get through.
unfoldable pub collect : UuidText → List (Message × Bool) → State → State
unfolding keep
collect T [] s = s
collect T ((m, ack_up) ∷ ms) s = collect T ms (keep ack_up m (parse_event T m) s)

-- What one round meets: the clock before and after a flush, and which calls get through.
pub record Round : Type 0 where
  pub now : ℕ
  pub flushed_at : ℕ
  pub insertion : Insertion
  pub ack_up : Bool

unfoldable pub due : WorkerConfig → ℕ → State → Bool
due c now s =
    leb_ℤ c.flush_size (pos (length s.batch))
    || (leb 1 (length s.batch) && leb_ℤ c.flush_interval (pos (now - s.last_flush)))

unfoldable pub flush_if_due : WorkerConfig → Round → State → State
unfolding due
flush_if_due c r s =
    if due c r.now s then record (flush r.insertion r.ack_up s) { last_flush = r.flushed_at } else s

-- What one read comes back with.
pub data Poll : Type 0 where
  delivered : List (Message × Bool) → Round → Poll
  nothing : Round → Poll  -- no new messages in time
  canceled : Insertion → Bool → Poll  -- the context is done: one last flush
  failed : Poll

-- The loop of `Run`.
unfoldable pub run : UuidText → WorkerConfig → List Poll → State → State
run T c [] s = s
run T c (delivered ms r ∷ ps) s = run T c ps (flush_if_due c r (collect T ms s))
run T c (nothing r ∷ ps) s = run T c ps (flush_if_due c r s)
run T c (canceled i ack_up ∷ ps) s = flush i ack_up s
run T c (failed ∷ ps) s = run T c ps s

-- `ensureGroup`, by what XGROUP CREATE answers: none, or the text of an error. A new group starts after
-- the entries that the stream holds, and one that is there keeps its position; `none` is an error.
unfoldable pub ensure_group : Option Bytes → ℕ → ℕ → Option ℕ
ensure_group none entries position = some entries
ensure_group (some e) entries position =
    if has_prefix (text "BUSYGROUP") e then some position else none

-- `Run`, of the group's position and what is read.
unfoldable pub start : UuidText → WorkerConfig → Option ℕ → List Poll → State → Bool × State
start T c none ps s = (false, s)
start T c (some position) ps s = (true, run T c ps s)
