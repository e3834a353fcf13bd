-- ===== src/View.antt =====
-- internal/view: views are filtered at the API, put on a stream, and written to ClickHouse in batches.
-- This file has domain.go.
pub mod Policy
pub mod Hash
pub mod Filters
pub mod Service
pub mod Sink
pub mod Worker
use vidmerce.Prelude.{ℕ, Bool, Option, none, some, ◌++◌, Bytes, text}
use vidmerce.Prelude.Int.{ℤ}
use vidmerce.Uuid.{Uuid, UuidText}

abbrev pub stream_key : Bytes
stream_key = text "stream:views"

abbrev pub stream_max_len : ℕ
stream_max_len = 5_000_000

pub record Input : Type 0 where
  pub video_id : Uuid
  pub viewer_id : Option Uuid
  pub ip_hash : Bytes
  pub ua_hash : Bytes
  pub country : Bytes
  pub watch_ms : ℤ
  pub duration_sec : ℤ

subject : UuidText → Option Uuid → Bytes → Bytes → Bytes
subject T (some viewer) ip ua = text "u:" ++ T.to_string viewer
subject T none ip ua = text "a:" ++ (ip ++ (text ":" ++ ua))

-- `SubjectKey`
unfoldable pub subject_key : UuidText → Input → Bytes
unfolding subject
subject_key T i = subject T i.viewer_id i.ip_hash i.ua_hash

pub record Result : Type 0 where
  pub accepted : Bool
  pub rejected_by : Bytes
  pub is_unique : Bool

-- `EventTime` is in milliseconds since 1970.
pub record Event : Type 0 where
  pub stream_id : Bytes
  pub video_id : Uuid
  pub viewer_id : Option Uuid
  pub ip_hash : Bytes
  pub ua_hash : Bytes
  pub country : Bytes
  pub is_unique : Bool
  pub event_time : ℤ
