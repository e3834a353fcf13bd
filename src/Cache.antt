-- ===== src/Cache.antt =====
-- internal/platform/cache/jsoncache.go, and the read path that internal/video and internal/product
-- build on it. A service without a cache is one whose cache never answers.
pub mod Coherence
pub mod Apart
use vidmerce.Prelude.{ℕ, ◌≡◌, Bool, true, false, Option, none, some, Bytes, if◌then◌else◌}
use vidmerce.Prelude.Results.{Result, ok, err}
use vidmerce.Uuid.{Uuid, UuidText}
use vidmerce.Redis.{Redis, set, del}

-- A cache, with encoding/json for its values; to marshal one of them does not fail.
pub record JsonCache (V : Type 0) : Type 0 where
  pub key_fn : Bytes → Bytes
  pub ttl : ℕ
  pub marshal : V → Bytes
  pub unmarshal : Bytes → Option V
  pub unmarshal-marshal : (v : V) → unmarshal (marshal v) ≡ some v

pub data Cached (V : Type 0) : Type 0 where
  hit : V → Cached V
  miss : Cached V
  unavailable : Cached V

-- Which calls of Redis get through on a read.
pub record Calls : Type 0 where
  pub get_up : Bool
  pub del_up : Bool
  pub set_up : Bool

module _ {V : Type 0} (C : JsonCache V) (R : Redis) where
  open R use {Store, exec}

  -- `Del`; false is an error.
  unfoldable pub cache_del : Bool → Bytes → Store → Bool × Store
  cache_del up id s = if up then (true, exec (del (C.key_fn id)) s) else (false, s)

  -- `Set`; false is an error.
  unfoldable pub cache_set : Bool → Bytes → V → Store → Bool × Store
  cache_set up id v s =
      if up then (true, exec (set (C.key_fn id) (C.marshal v) C.ttl) s) else (false, s)

  -- A bad entry is deleted.
  unfoldable pub read_value : Bool → Bytes → Option V → Store → Cached V × Store
  unfolding cache_del
  read_value del_up id none s = (miss, (cache_del del_up id s).1)
  read_value del_up id (some v) s = (hit v, s)

  unfoldable pub read_raw : Bool → Bytes → Option Bytes → Store → Cached V × Store
  unfolding read_value
  read_raw del_up id none s = (miss, s)
  read_raw del_up id (some raw) s = read_value del_up id (C.unmarshal raw) s

  -- `Get`
  unfoldable pub cache_get : Calls → Bytes → Store → Cached V × Store
  unfolding read_raw
  cache_get c id s =
      if c.get_up then read_raw c.del_up id (R.get (C.key_fn id) s) s else (unavailable, s)

  module _ (T : UuidText) {E : Type 0} where
    -- What the database returned is cached under its key.
    unfoldable pub fill : Bool → (V → Uuid) → Result E V → Store → Result E V × Store
    unfolding cache_set
    fill up key_of (ok v) s = (ok v, (cache_set up (T.to_string (key_of v)) v s).1)
    fill up key_of (err e) s = (err e, s)

    unfoldable pub or_fill : Bool → (V → Uuid) → Result E V → Cached V × Store → Result E V × Store
    unfolding fill
    or_fill up key_of found (hit v, s) = (ok v, s)
    or_fill up key_of found (miss, s) = fill up key_of found s
    or_fill up key_of found (unavailable, s) = fill up key_of found s

    -- The cache first, and what the database returns where it does not hit.
    unfoldable pub read_through :
        Calls → (V → Uuid) → Uuid → Result E V → Store → Result E V × Store
    unfolding or_fill cache_get
    read_through c key_of id found s =
        or_fill c.set_up key_of found (cache_get c (T.to_string id) s)
