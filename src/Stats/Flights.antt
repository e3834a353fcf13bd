-- ===== src/Stats/Flights.antt =====
-- What requests are answered, alone or coalesced.
use vidmerce.Prelude.{ℕ, ◌≡◌, refl, true, false, some, ◌⊎◌, arith, Option-cases, inl, inr}
use vidmerce.Uuid.{Uuid, UuidText}
use vidmerce.Redis.{Redis}
use vidmerce.Stats.{
  Stats, Codec, Calls, Flight, leads, joins, stats, read_cache, compute, finish, reread, contended,
  with_lock, checked, fetch, cached_or, do_shared, get_stats,
}
use vidmerce.Stats.Locking.{acquire_lock-cases}

module _ (K : Codec) (T : UuidText) (R : Redis) where
  open R use {Store}

  -- Who runs `fetch` for a request, and the store that it meets.
  abbrev pub runner : Flight Store → Calls Store → Calls Store
  runner leads c = c
  runner (joins leader met meanwhile) c = leader

  abbrev pub met_by : Flight Store → Store → Store
  met_by leads s = s
  met_by (joins leader met meanwhile) s = met

  fetch_answers :
      (c : Calls Store) (ttl lock_ttl : ℕ) (v : Uuid) (w : Stats) (s : Store)
      → c.exists ≡ some true
      → compute K T R c v ≡ some w
      → c.canceled ≡ false
      → (x : Stats) × ((fetch K T R c ttl lock_ttl v s).0 ≡ stats x)
        × ((x ≡ w) ⊎ (read_cache K T R c.reread_up v (c.while_waiting s) ≡ some x))
  unfolding fetch checked with_lock contended reread finish
  fetch_answers c ttl lock_ttl v w s there counts going =
      elim (acquire_lock-cases K T R c.lock_up c.token lock_ttl v s) [
        | inr (t, got) ↦ (w, ground (arith, there, got, counts), inl refl)
        | inl lost ↦ elim (Option-cases (read_cache K T R c.reread_up v (c.while_waiting s))) [
          | inl still ↦ (w, ground (arith, there, lost, going, still, counts), inl refl)
          | inr (x, landed) ↦ (x, ground (arith, there, lost, going, landed), inr landed)
        ]
      ]

  do_shared-runner :
      (f : Flight Store) (c : Calls Store) (ttl lock_ttl : ℕ) (v : Uuid) (s : Store)
      → (do_shared K T R f c ttl lock_ttl v s).0
        ≡ (fetch K T R (runner f c) ttl lock_ttl v (met_by f s)).0
  unfolding do_shared
  do_shared-runner leads c ttl lock_ttl v s = refl
  do_shared-runner (joins leader met meanwhile) c ttl lock_ttl v s = refl

  -- A request is answered with numbers if whoever runs the recomputation for it, itself or the
  -- request of its process that it joins, finds the video, has both sources answer, and is not
  -- canceled while waiting: those that the cache had when the request came, those that the runner
  -- computed, or those that the runner found in the cache after waiting. Neither a lock that is
  -- held nor an error of Redis stops it.
  pub get_answers :
      (f : Flight Store) (c : Calls Store) (ttl lock_ttl : ℕ) (v : Uuid) (w : Stats) (s : Store)
      → (runner f c).exists ≡ some true
      → compute K T R (runner f c) v ≡ some w
      → (runner f c).canceled ≡ false
      → (x : Stats) × ((get_stats K T R f c ttl lock_ttl v s).0 ≡ stats x)
        × ((x ≡ w)
            ⊎ ((read_cache K T R c.read_up v s ≡ some x)
                ⊎ (read_cache K T R
                      (runner f c).reread_up
                      v
                      ((runner f c).while_waiting (met_by f s))
                    ≡ some x)))
  unfolding get_stats cached_or
  get_answers f c ttl lock_ttl v w s there counts going =
      elim (Option-cases (read_cache K T R c.read_up v s)) [
        | inr (x, hit) ↦ (x, ground (arith, hit), inr (inl hit))
        | inl miss ↦
            let (x, answer, source) =
              fetch_answers (runner f c) ttl lock_ttl v w (met_by f s) there counts going in
            (
              x,
              ground (arith, miss, answer, do_shared-runner f c ttl lock_ttl v s),
              elim source [ inl own ↦ inl own | inr landed ↦ inr (inr landed) ],
            )
      ]
