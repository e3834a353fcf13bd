-- ===== src/Redis/Memory.antt =====
-- A store in memory, which shows that what is assumed of Redis can be met, and on which tests run.
use vidmerce.Prelude.{
  ℕ, ◌≡◌, refl, Bool, false, ◌||◌, not, ◌&&◌, List, [], ◌∷◌, ◌++◌, Option, none, some, Bytes, beq,
  beq_refl, length, if◌then◌else◌,
}
use vidmerce.Prelude.Int.{ℤ, pos, negsuc, ◌+ℤ◌}
use vidmerce.Redis.{
  Message, Command, set, set_number, del, incr, decr, s_add, s_rem, x_add, hm_set, expire, key,
  or_zero, Redis,
}

pub record Memory : Type 0 where
  strings : Bytes → Option Bytes
  numbers : Bytes → Option ℤ
  sets : Bytes → Bytes → Bool
  streams : Bytes → List Message
  hashes : Bytes → Option (ℕ × ℕ)

abbrev pub empty : Memory
empty = record {
  strings = λ k. none;
  numbers = λ k. none;
  sets = λ k m. false;
  streams = λ k. [];
  hashes = λ k. none;
}

abbrev update {ℓ} : {A : Type ℓ} → (Bytes → A) → Bytes → A → Bytes → A
update f k a j = if beq k j then a else f j

-- Entries are never evicted, and their ids are their positions.
abbrev pub exec : Command → Memory → Memory
exec (set k v ttl) m = record m { strings = update m.strings k (some v) }
exec (set_number k n ttl) m = record m { numbers = update m.numbers k (some n) }
exec (del k) m = record m {
  strings = update m.strings k none;
  numbers = update m.numbers k none;
  sets = update m.sets k (λ x. false);
  streams = update m.streams k [];
  hashes = update m.hashes k none;
}
exec (incr k) m = record m { numbers = update m.numbers k (some (or_zero (m.numbers k) +ℤ pos 1)) }
exec (decr k) m = record m {
  numbers = update m.numbers k (some (or_zero (m.numbers k) +ℤ negsuc 0));
}
exec (s_add k x) m = record m { sets = update m.sets k (λ y. beq x y || m.sets k y) }
exec (s_rem k x) m = record m { sets = update m.sets k (λ y. not (beq x y) && m.sets k y) }
exec (x_add k n fields) m = record m {
  streams =
      update m.streams k
        (m.streams k ++ record { id = length (m.streams k) ∷ []; values = fields } ∷ []);
}
exec (hm_set k l t) m = record m { hashes = update m.hashes k (some (l, t)) }
exec (expire k ttl) m = m

pub get-frame :
    (c : Command) (k : Bytes) (m : Memory)
    → beq (key c) k ≡ false
    → (exec c m).strings k ≡ m.strings k
get-frame (set j v ttl) k m h = rw h
get-frame (set_number j n ttl) k m h = refl
get-frame (del j) k m h = rw h
get-frame (incr j) k m h = refl
get-frame (decr j) k m h = refl
get-frame (s_add j x) k m h = refl
get-frame (s_rem j x) k m h = refl
get-frame (x_add j n f) k m h = refl
get-frame (hm_set j l t) k m h = refl
get-frame (expire j ttl) k m h = refl

pub number-frame :
    (c : Command) (k : Bytes) (m : Memory)
    → beq (key c) k ≡ false
    → (exec c m).numbers k ≡ m.numbers k
number-frame (set j v ttl) k m h = refl
number-frame (set_number j n ttl) k m h = rw h
number-frame (del j) k m h = rw h
number-frame (incr j) k m h = rw h
number-frame (decr j) k m h = rw h
number-frame (s_add j x) k m h = refl
number-frame (s_rem j x) k m h = refl
number-frame (x_add j n f) k m h = refl
number-frame (hm_set j l t) k m h = refl
number-frame (expire j ttl) k m h = refl

pub is_member-frame :
    (c : Command) (k n : Bytes) (m : Memory)
    → beq (key c) k ≡ false
    → (exec c m).sets k n ≡ m.sets k n
is_member-frame (set j v ttl) k n m h = refl
is_member-frame (set_number j i ttl) k n m h = refl
is_member-frame (del j) k n m h = rw h
is_member-frame (incr j) k n m h = refl
is_member-frame (decr j) k n m h = refl
is_member-frame (s_add j x) k n m h = rw h
is_member-frame (s_rem j x) k n m h = rw h
is_member-frame (x_add j i f) k n m h = refl
is_member-frame (hm_set j l t) k n m h = refl
is_member-frame (expire j ttl) k n m h = refl

pub entries-frame :
    (c : Command) (k : Bytes) (m : Memory)
    → beq (key c) k ≡ false
    → (exec c m).streams k ≡ m.streams k
entries-frame (set j v ttl) k m h = refl
entries-frame (set_number j n ttl) k m h = refl
entries-frame (del j) k m h = rw h
entries-frame (incr j) k m h = refl
entries-frame (decr j) k m h = refl
entries-frame (s_add j x) k m h = refl
entries-frame (s_rem j x) k m h = refl
entries-frame (x_add j n f) k m h = rw h
entries-frame (hm_set j l t) k m h = refl
entries-frame (expire j ttl) k m h = refl

pub hm_get-frame :
    (c : Command) (k : Bytes) (m : Memory)
    → beq (key c) k ≡ false
    → (exec c m).hashes k ≡ m.hashes k
hm_get-frame (set j v ttl) k m h = refl
hm_get-frame (set_number j n ttl) k m h = refl
hm_get-frame (del j) k m h = rw h
hm_get-frame (incr j) k m h = refl
hm_get-frame (decr j) k m h = refl
hm_get-frame (s_add j x) k m h = refl
hm_get-frame (s_rem j x) k m h = refl
hm_get-frame (x_add j n f) k m h = refl
hm_get-frame (hm_set j l t) k m h = rw h
hm_get-frame (expire j ttl) k m h = refl

abbrev pub in_memory : Redis
in_memory = record {
  Store = Memory;
  exec = exec;
  get = λ k m. m.strings k;
  number = λ k m. m.numbers k;
  is_member = λ k x m. m.sets k x;
  entries = λ k m. m.streams k;
  next_id = λ k m. length (m.streams k) ∷ [];
  hm_get = λ k m. m.hashes k;
  get-set = λ k v ttl m. rw (beq_refl k);
  get-del = λ k m. rw (beq_refl k);
  get-frame = get-frame;
  number-incr = λ k m. rw (beq_refl k);
  number-decr = λ k m. rw (beq_refl k);
  number-set_number = λ k n ttl m. rw (beq_refl k);
  number-frame = number-frame;
  is_member-s_add = λ k x y m. rw (beq_refl k);
  is_member-s_rem = λ k x y m. rw (beq_refl k);
  is_member-del = λ k n m. rw (beq_refl k);
  is_member-frame = is_member-frame;
  entries-x_add = λ k cap f m h. rw (beq_refl k);
  entries-frame = entries-frame;
  hm_get-hm_set = λ k l t m. rw (beq_refl k);
  hm_get-expire = λ k j ttl m. refl;
  hm_get-del = λ k m. rw (beq_refl k);
  hm_get-frame = hm_get-frame;
}
