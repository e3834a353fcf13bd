-- ===== src/Stats.antt =====
-- internal/stats/service.go and domain.go: a request for the statistics of a video. What other
-- replicas do to Redis while it waits or computes is a function on the store; a request that joins
-- another of its process is handed that one's result.
pub mod Locking
pub mod Flights
use vidmerce.Prelude.{
  ℕ, ◌≡◌, Bool, true, false, List, [], ◌∷◌, ◌++◌, Option, none, some, Bytes, text, beq,
  if◌then◌else◌,
}
use vidmerce.Prelude.Int.{ℤ, pos, leb_ℤ}
use vidmerce.Uuid.{Uuid, UuidText}
use vidmerce.Redis.{Redis, set, del}
use vidmerce.View.Service.{set_nx}

-- The engagement rate is kept as a quotient: the division is a float's.
pub record Stats : Type 0 where
  pub video_id : Uuid
  pub views : ℤ
  pub unique_views : ℤ
  pub likes : ℤ
  pub engagement_rate : ℤ × ℤ
  pub computed_at : ℕ

-- `engagementRate`
unfoldable pub engagement_rate : ℤ → ℤ → ℤ × ℤ
engagement_rate likes unique_views =
    if leb_ℤ unique_views (pos 0) then (pos 0, pos 1) else (likes, unique_views)

-- encoding/json for `Stats`.
pub record Codec : Type 0 where
  pub marshal : Stats → Bytes
  pub unmarshal : Bytes → Option Stats
  pub unmarshal-marshal : (v : Stats) → unmarshal (marshal v) ≡ some v

-- What a request meets: which calls get through, and what the others do meanwhile.
pub record Calls {ℓ} (Store : Type ℓ) : Type ℓ where
  pub read_up : Bool
  pub exists : Option Bool  -- `Exists`; none for an error
  pub lock_up : Bool
  pub token : Uuid  -- a fresh one
  pub while_waiting : Store → Store
  pub canceled : Bool  -- while waiting
  pub reread_up : Bool
  pub while_computing : Store → Store
  pub views : Option (ℤ × ℤ)  -- `Counts`; none for an error
  pub likes : Option ℤ  -- `Count`; none for an error
  pub write_up : Bool
  pub release_up : Bool
  pub clock : ℕ

-- golang.org/x/sync/singleflight lets one request of a process at a time run `fetch` for a video: what
-- a request finds after its own read of the cache is that nobody does, or a leader, by its calls and
-- the store that it met, and what becomes of the store until that one has its result.
pub data Flight {ℓ} (Store : Type ℓ) : Type ℓ where
  leads : Flight Store
  joins : Calls Store → Store → (Store → Store) → Flight Store

pub data Answer : Type 0 where
  stats : Stats → Answer
  not_found : Answer
  failure : Answer

module _ (T : UuidText) where
  unfoldable pub cache_key : Uuid → Bytes
  cache_key v = text "stats:" ++ T.to_string v

  unfoldable pub lock_key : Uuid → Bytes
  lock_key v = text "lock:stats:" ++ T.to_string v

module _ (K : Codec) (T : UuidText) (R : Redis) where
  open R use {Store, exec, get}

  unfoldable pub decoded : Option Bytes → Option Stats
  decoded none = none
  decoded (some raw) = K.unmarshal raw

  -- `readCache`
  unfoldable pub read_cache : Bool → Uuid → Store → Option Stats
  unfolding decoded
  read_cache up v s = if up then decoded (get (cache_key T v) s) else none

  -- `writeCache`
  unfoldable pub write_cache : Bool → ℕ → Stats → Store → Store
  write_cache up ttl v s = if up then exec (set (cache_key T v.video_id) (K.marshal v) ttl) s else s

  -- `acquireLock`, with an error as no lock.
  unfoldable pub acquire_lock : Bool → Uuid → ℕ → Uuid → Store → Bool × Store
  acquire_lock up token ttl v s =
      let r = set_nx T R (lock_key T v) (T.to_string token) ttl s in if up then r else (false, s)

  unfoldable pub release_held : Bytes → Option Bytes → Uuid → Store → Store
  release_held token none v s = s
  release_held token (some held) v s = if beq held token then exec (del (lock_key T v)) s else s

  -- `releaseLock`
  unfoldable pub release_lock : Bool → Uuid → Uuid → Store → Store
  unfolding release_held
  release_lock up token v s =
      if up then release_held (T.to_string token) (get (lock_key T v) s) v s else s

  -- `compute`; `none` is an error of either source.
  unfoldable pub compute : Calls Store → Uuid → Option Stats
  compute c v = elim c.views [
    | none ↦ none
    | some w ↦ elim c.likes [
      | none ↦ none
      | some l ↦ some (record {
        video_id = v;
        views = w.0;
        unique_views = w.1;
        likes = l;
        engagement_rate = engagement_rate l w.1;
        computed_at = c.clock;
      })
    ]
  ]

  -- Computing, after the others' steps, with the lock or without.
  unfoldable pub finish : Calls Store → ℕ → Bool → Uuid → Store → Answer × Store
  finish c ttl got_lock v s =
      let t = c.while_computing s in
      elim (compute c v) [
        | none ↦ (failure, if got_lock then release_lock c.release_up c.token v t else t)
        | some w ↦ (
          stats w,
          if got_lock
              then release_lock c.release_up c.token v (write_cache c.write_up ttl w t)
              else write_cache c.write_up ttl w t,
        )
      ]

  unfoldable pub reread : Calls Store → ℕ → Option Stats → Uuid → Store → Answer × Store
  reread c ttl none v s = finish c ttl false v s
  reread c ttl (some w) v s = (stats w, s)

  -- Without the lock: wait, read the cache again, and compute all the same.
  unfoldable pub contended : Calls Store → ℕ → Uuid → Store → Answer × Store
  unfolding reread
  contended c ttl v s =
      let t = c.while_waiting s in
      if c.canceled then (failure, t) else reread c ttl (read_cache c.reread_up v t) v t

  unfoldable pub with_lock : Calls Store → ℕ → Uuid → Bool × Store → Answer × Store
  with_lock c ttl v (true, s) = finish c ttl true v s
  with_lock c ttl v (false, s) = contended c ttl v s

  unfoldable pub checked : Calls Store → ℕ → ℕ → Option Bool → Uuid → Store → Answer × Store
  unfolding with_lock
  checked c ttl lock_ttl none v s = (failure, s)
  checked c ttl lock_ttl (some false) v s = (not_found, s)
  checked c ttl lock_ttl (some true) v s =
      with_lock c ttl v (acquire_lock c.lock_up c.token lock_ttl v s)

  -- `fetch`
  unfoldable pub fetch : Calls Store → ℕ → ℕ → Uuid → Store → Answer × Store
  unfolding checked
  fetch c ttl lock_ttl v s = checked c ttl lock_ttl c.exists v s

  -- `s.sf.Do`: who joins is handed the leader's result, and runs nothing.
  unfoldable pub do_shared : Flight Store → Calls Store → ℕ → ℕ → Uuid → Store → Answer × Store
  do_shared leads c ttl lock_ttl v s = fetch c ttl lock_ttl v s
  do_shared (joins leader met meanwhile) c ttl lock_ttl v s =
      ((fetch leader ttl lock_ttl v met).0, meanwhile s)

  unfoldable pub cached_or :
      Flight Store → Calls Store → ℕ → ℕ → Option Stats → Uuid → Store → Answer × Store
  unfolding do_shared
  cached_or f c ttl lock_ttl none v s = do_shared f c ttl lock_ttl v s
  cached_or f c ttl lock_ttl (some w) v s = (stats w, s)

  -- `Get`
  unfoldable pub get_stats : Flight Store → Calls Store → ℕ → ℕ → Uuid → Store → Answer × Store
  unfolding cached_or
  get_stats f c ttl lock_ttl v s = cached_or f c ttl lock_ttl (read_cache c.read_up v s) v s
