-- ===== src/Stats/Locking.antt =====
-- The lock, and what a request leaves behind.
use mathlib.Core.Path.{subst}
use vidmerce.Prelude.{
  ℕ, ◌≡◌, ◌≢◌, refl, ◌∙◌, ap, sym, Bool, true, false, none, some, beq, beq_refl, beq_iff, ◌⊎◌,
  arith, Bool-cases, Option-cases, inl, inr,
}
use vidmerce.Uuid.{Uuid, UuidText, to_string_injective}
use vidmerce.Redis.{Redis, set, del}
use vidmerce.View.Service.{set_nx}
use vidmerce.Stats.{
  Stats, Codec, Calls, stats, cache_key, lock_key, read_cache, write_cache, acquire_lock,
  release_held, release_lock, compute, finish, with_lock, checked, fetch, decoded,
}

module _ (K : Codec) (T : UuidText) (R : Redis) where
  open R use {Store, exec, get}

  abbrev pub IsHeldBy : Uuid → Uuid → Store → Type 0
  IsHeldBy token v s = get (lock_key T v) s ≡ some (T.to_string token)

  release_lock-other :
      (up : Bool) (token other v : Uuid) (s : Store)
      → token ≢ other
      → IsHeldBy other v s
      → release_lock K T R up token v s ≡ s
  unfolding release_lock release_held
  release_lock-other up token other v s p h = ground (
    arith,
    h,
    beq_iff (T.to_string other) (T.to_string token),
    λ (e : T.to_string other ≡ T.to_string token). p (sym (to_string_injective T other token e)),
  )

  release_lock-own :
      (token v : Uuid) (s : Store)
      → IsHeldBy token v s
      → get (lock_key T v) (release_lock K T R true token v s) ≡ none
  unfolding release_lock release_held
  release_lock-own token v s h =
      ground (arith, h, beq_refl (T.to_string token), R.get-del (lock_key T v) s)

  write_cache-lock :
      (up : Bool) (ttl : ℕ) (w : Stats) (v : Uuid) (s : Store)
      → get (lock_key T v) (write_cache K T R up ttl w s) ≡ get (lock_key T v) s
  unfolding write_cache lock_key cache_key beq
  write_cache-lock up ttl w v s =
      ground
        (arith, R.get-frame (set (cache_key T w.video_id) (K.marshal w) ttl) (lock_key T v) s refl)

  -- If the lock is held by another token when the numbers are there, then the request leaves it
  -- held, also when it had taken the lock itself and lost it meanwhile.
  pub finish_keeps_lock :
      (c : Calls Store) (ttl : ℕ) (got_lock : Bool) (v other : Uuid) (s : Store)
      → c.token ≢ other
      → IsHeldBy other v (c.while_computing s)
      → IsHeldBy other v (finish K T R c ttl got_lock v s).1
  unfolding finish
  finish_keeps_lock c ttl got_lock v other s p h = elim (Option-cases (compute K T R c v)) [
    | inl failed ↦
        ground
          (arith, failed, release_lock-other c.release_up c.token other v (c.while_computing s) p h)
    | inr (w, e) ↦
        let kept : IsHeldBy other v (write_cache K T R c.write_up ttl w (c.while_computing s)) =
          write_cache-lock c.write_up ttl w v (c.while_computing s) ∙ h in
        ground (
          arith,
          e,
          kept,
          release_lock-other c.release_up c.token other v
              (write_cache K T R c.write_up ttl w (c.while_computing s)) p kept,
        )
  ]

  finish_releases :
      (c : Calls Store) (ttl : ℕ) (v : Uuid) (s : Store)
      → c.release_up ≡ true
      → IsHeldBy c.token v (c.while_computing s)
      → get (lock_key T v) (finish K T R c ttl true v s).1 ≡ none
  unfolding finish
  finish_releases c ttl v s up h = elim (Option-cases (compute K T R c v)) [
    | inl failed ↦ ground (arith, failed, up, release_lock-own c.token v (c.while_computing s) h)
    | inr (w, e) ↦ ground (
      arith,
      e,
      up,
      release_lock-own c.token v (write_cache K T R c.write_up ttl w (c.while_computing s))
          (write_cache-lock c.write_up ttl w v (c.while_computing s) ∙ h),
    )
  ]

  acquire_lock-free :
      (token : Uuid) (ttl : ℕ) (v : Uuid) (s : Store)
      → get (lock_key T v) s ≡ none
      → acquire_lock K T R true token ttl v s
        ≡ (true, exec (set (lock_key T v) (T.to_string token) ttl) s)
  unfolding acquire_lock set_nx
  acquire_lock-free token ttl v s h = ground (arith, h)

  pub acquire_lock-cases :
      (up : Bool) (token : Uuid) (ttl : ℕ) (v : Uuid) (s : Store)
      → (acquire_lock K T R up token ttl v s ≡ (false, s))
        ⊎ ((t : Store) × (acquire_lock K T R up token ttl v s ≡ (true, t)))
  unfolding acquire_lock set_nx
  acquire_lock-cases false token ttl v s = inl refl
  acquire_lock-cases true token ttl v s = elim (Option-cases (get (lock_key T v) s)) [
    | inl free ↦
        inr (
          exec (set (lock_key T v) (T.to_string token) ttl) s,
          acquire_lock-free token ttl v s free,
        )
    | inr (held, e) ↦ inl (ground (arith, e))
  ]

  -- A request that takes the free lock has given it back when it returns, whether it computed the
  -- numbers or failed, if the release gets through and the lock did not expire before.
  pub fetch_releases :
      (c : Calls Store) (ttl lock_ttl : ℕ) (v : Uuid) (s : Store)
      → c.lock_up ≡ true
      → c.release_up ≡ true
      → get (lock_key T v) s ≡ none
      → ((t : Store) → IsHeldBy c.token v t → IsHeldBy c.token v (c.while_computing t))
      → get (lock_key T v) (fetch K T R c ttl lock_ttl v s).1 ≡ none
  unfolding fetch checked with_lock
  fetch_releases c ttl lock_ttl v s lock_up up free env =
      let t = exec (set (lock_key T v) (T.to_string c.token) lock_ttl) s in
      let held : IsHeldBy c.token v t = R.get-set (lock_key T v) (T.to_string c.token) lock_ttl s in
      elim (Option-cases c.exists) [
        | inl unknown ↦ ground (arith, unknown, free)
        | inr (b, known) ↦ elim (Bool-cases b) [
          | inl there ↦ ground (
            arith,
            known,
            there,
            lock_up,
            acquire_lock-free c.token lock_ttl v s free,
            finish_releases c ttl v t up (env t held),
          )
          | inr gone ↦ ground (arith, known, gone, free)
        ]
      ]

  compute-video_id :
      (c : Calls Store) (v : Uuid) (w : Stats) → compute K T R c v ≡ some w → w.video_id ≡ v
  unfolding compute
  compute-video_id c v w h = ground (arith, Option-cases c.views, Option-cases c.likes, h)

  read_cache-release_lock :
      (up : Bool) (token v : Uuid) (s : Store)
      → read_cache K T R true v (release_lock K T R up token v s) ≡ read_cache K T R true v s
  unfolding read_cache release_lock release_held lock_key cache_key beq
  read_cache-release_lock up token v s = ground (
    arith,
    Option-cases (get (lock_key T v) s),
    R.get-frame (del (lock_key T v)) (cache_key T v) s refl,
  )

  read_cache-write_cache :
      (ttl : ℕ) (v : Uuid) (w : Stats) (s : Store)
      → w.video_id ≡ v
      → read_cache K T R true v (write_cache K T R true ttl w s) ≡ some w
  unfolding read_cache decoded write_cache
  read_cache-write_cache ttl v w s h =
      subst
        (λ i.
          decoded K T R
            (get (cache_key T i) (exec (set (cache_key T w.video_id) (K.marshal w) ttl) s))
          ≡ some w)
        h (rw (R.get-set (cache_key T w.video_id) (K.marshal w) ttl s) (K.unmarshal-marshal w))

  -- If the request has computed an answer and written it, then a read of the cache that gets
  -- through gives that answer.
  pub finish_cached :
      (c : Calls Store) (ttl : ℕ) (got_lock : Bool) (v : Uuid) (w : Stats) (s : Store)
      → (finish K T R c ttl got_lock v s).0 ≡ stats w
      → c.write_up ≡ true
      → read_cache K T R true v (finish K T R c ttl got_lock v s).1 ≡ some w
  unfolding finish
  finish_cached c ttl got_lock v w s h up = elim (Option-cases (compute K T R c v)) [
    | inl failed ↦ absurd (cc (rw (finish, failed) at h))
    | inr (x, e) ↦
        let same : x ≡ w = cc (rw (finish, e) at h) in
        ground (
          arith,
          e,
          same,
          up,
          read_cache-release_lock c.release_up c.token v
              (write_cache K T R true ttl w (c.while_computing s)),
          read_cache-write_cache ttl v w (c.while_computing s)
              (compute-video_id c v w (e ∙ ap some same)),
        )
  ]
