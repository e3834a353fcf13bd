-- ===== src/Examples/Reads.antt =====
-- The statistics of a video.
use vidmerce.Prelude.{
  ℕ, zero, suc, ◌≡◌, refl, true, false, [], ◌∷◌, Option, none, some, Bytes, arith, ◌⊎◌,
}
use vidmerce.Prelude.Int.{ℤ, pos, negsuc}
use vidmerce.Uuid.{letters}
use vidmerce.Redis.{set}
use vidmerce.Redis.Memory.{Memory, empty, exec, in_memory}
use vidmerce.Stats.{
  Stats, Codec, Calls, stats, Flight, joins, lock_key, engagement_rate, read_cache, compute, finish,
  get_stats,
}
use vidmerce.Stats.Locking.{IsHeldBy, finish_keeps_lock}
use vidmerce.Stats.Flights.{get_answers}

abbrev numbers : Stats
numbers = record {
  video_id = 7;
  views = pos 12;
  unique_views = pos 9;
  likes = pos 3;
  engagement_rate = (pos 3, pos 9);
  computed_at = 500;
}

abbrev sign : ℤ → ℕ
sign (pos n) = 0
sign (negsuc n) = 1

abbrev magnitude : ℤ → ℕ
magnitude (pos n) = n
magnitude (negsuc n) = n

abbrev signed : ℕ → ℕ → ℤ
signed zero n = pos n
signed (suc s) n = negsuc n

signed-sign : (z : ℤ) → signed (sign z) (magnitude z) ≡ z
signed-sign (pos n) = refl
signed-sign (negsuc n) = refl

abbrev flat : Stats → Bytes
flat v =
    v.video_id
    ∷ sign v.views
    ∷ magnitude v.views
    ∷ sign v.unique_views
    ∷ magnitude v.unique_views
    ∷ sign v.likes
    ∷ magnitude v.likes
    ∷ sign v.engagement_rate.0
    ∷ magnitude v.engagement_rate.0
    ∷ sign v.engagement_rate.1
    ∷ magnitude v.engagement_rate.1
    ∷ v.computed_at
    ∷ []

unfoldable unflat : Bytes → Option Stats
unflat (i ∷ a ∷ b ∷ c ∷ d ∷ e ∷ f ∷ g ∷ h ∷ j ∷ k ∷ l ∷ []) = some (record {
  video_id = i;
  views = signed a b;
  unique_views = signed c d;
  likes = signed e f;
  engagement_rate = (signed g h, signed j k);
  computed_at = l;
})
unflat _ = none

unflat-flat : (v : Stats) → unflat (flat v) ≡ some v
unfolding unflat
unflat-flat v = simp (
  signed-sign v.views,
  signed-sign v.unique_views,
  signed-sign v.likes,
  signed-sign v.engagement_rate.0,
  signed-sign v.engagement_rate.1,
)

abbrev json : Codec
json = record { marshal = flat; unmarshal = unflat; unmarshal-marshal = unflat-flat }

abbrev calls : Calls Memory
calls = record {
  read_up = true;
  exists = some true;
  lock_up = true;
  token = 1;
  while_waiting = λ s. s;
  canceled = false;
  reread_up = true;
  while_computing = λ s. s;
  views = some (pos 12, pos 9);
  likes = some (pos 3);
  write_up = true;
  release_up = true;
  clock = 500;
}

-- Another replica took the lock while this one computed.
abbrev stalled : Calls Memory
stalled = record calls { while_computing = exec (set (lock_key letters 7) (letters.to_string 2) 5) }

stolen :
    IsHeldBy json letters in_memory 2 7
      (exec (set (lock_key letters 7) (letters.to_string 2) 5) empty)
stolen = in_memory.get-set (lock_key letters 7) (letters.to_string 2) 5 empty

finish_keeps_lock_example :
    IsHeldBy json letters in_memory 2 7 (finish json letters in_memory stalled 30 true 7 empty).1
finish_keeps_lock_example =
    finish_keeps_lock json letters in_memory stalled 30 true 7 2 empty (omega arith) stolen

counted : compute json letters in_memory calls 7 ≡ some numbers
unfolding compute engagement_rate
counted = refl

finished : (finish json letters in_memory calls 30 true 7 empty).0 ≡ stats numbers
unfolding finish compute engagement_rate
finished = refl

-- The leader of a flight for the same video, which met the same store.
abbrev flight : Flight Memory
flight = joins calls empty (λ s. s)

get_answers_example :
    (x : Stats) × ((get_stats json letters in_memory flight calls 30 5 7 empty).0 ≡ stats x)
    × ((x ≡ numbers)
        ⊎ ((read_cache json letters in_memory true 7 empty ≡ some x)
            ⊎ (read_cache json letters in_memory true 7 empty ≡ some x)))
get_answers_example =
    get_answers json letters in_memory flight calls 30 5 7 numbers empty refl counted refl

-- The client of the leader has gone, while the lock could not be had.
abbrev gone : Calls Memory
gone = record calls { canceled = true; lock_up = false }
