-- ===== src/Redis.antt =====
-- The Redis commands that the program sends, with the behaviour that it relies on as documented at
-- redis.io. A command that fails leaves the store as it was, and is modelled where it is sent. Keys
-- that expire are deleted by the environment. The program gives each key one type of value.
pub mod Memory
pub mod Sorted
use vidmerce.Prelude.{
  ℕ, ◌+◌, ◌<◌, ◌≡◌, Bool, true, false, ◌||◌, not, ◌&&◌, List, [], ◌∷◌, ◌++◌, Option, none, some,
  Bytes, beq, length, if◌then◌else◌,
}
use vidmerce.Prelude.Int.{ℤ, pos, negsuc, ◌+ℤ◌}

-- An entry of a stream: the fields that XADD was given, under the id that Redis assigned.
pub record Message : Type 0 where
  pub id : Bytes
  pub values : List (Bytes × Bytes)

-- `m.Values[k].(string)` of a stream message; the client keeps the last value of a field, "" stands for a missing one.
unfoldable pub value_of : Bytes → List (Bytes × Bytes) → Option Bytes
value_of k [] = none
value_of k ((j, v) ∷ fs) = elim (value_of k fs) [
  | some w ↦ some w
  | none ↦ if beq j k then some v else none
]

unfoldable pub field : Bytes → Message → Bytes
unfolding value_of
field k m = elim (value_of k m.values) [ some v ↦ v | none ↦ [] ]

-- The commands that write. A level in a bucket is a number of the limiter's units.
pub data Command : Type 0 where
  set : Bytes → Bytes → ℕ → Command  -- SET key value EX ttl; 0 for no expiry
  set_number : Bytes → ℤ → ℕ → Command  -- SET key number EX ttl; 0 for no expiry
  del : Bytes → Command
  incr : Bytes → Command
  decr : Bytes → Command
  s_add : Bytes → Bytes → Command
  s_rem : Bytes → Bytes → Command
  x_add : Bytes → ℕ → List (Bytes × Bytes) → Command  -- XADD key MAXLEN ~ n * fields
  hm_set : Bytes → ℕ → ℕ → Command  -- HMSET key level l last_ms t
  expire : Bytes → ℕ → Command

abbrev pub key : Command → Bytes
key (set k v ttl) = k
key (set_number k n ttl) = k
key (del k) = k
key (incr k) = k
key (decr k) = k
key (s_add k m) = k
key (s_rem k m) = k
key (x_add k n fields) = k
key (hm_set k l t) = k
key (expire k ttl) = k

abbrev pub or_zero : Option ℤ → ℤ
or_zero none = pos 0
or_zero (some n) = n

pub record Redis : Type 1 where
  pub Store : Type 0
  pub exec : Command → Store → Store
  pub get : Bytes → Store → Option Bytes  -- GET
  pub number : Bytes → Store → Option ℤ  -- GET, read as an integer
  pub is_member : Bytes → Bytes → Store → Bool  -- SISMEMBER
  pub entries : Bytes → Store → List Message  -- XRANGE - +
  pub next_id : Bytes → Store → Bytes  -- the id that XADD assigns
  pub hm_get : Bytes → Store → Option (ℕ × ℕ)  -- HMGET key level last_ms
  pub get-set : (k v : Bytes) (ttl : ℕ) (s : Store) → get k (exec (set k v ttl) s) ≡ some v
  pub get-del : (k : Bytes) (s : Store) → get k (exec (del k) s) ≡ none
  pub get-frame :
      (c : Command) (k : Bytes) (s : Store) → beq (key c) k ≡ false → get k (exec c s) ≡ get k s
  pub number-incr :
      (k : Bytes) (s : Store) → number k (exec (incr k) s) ≡ some (or_zero (number k s) +ℤ pos 1)
  pub number-decr :
      (k : Bytes) (s : Store) → number k (exec (decr k) s) ≡ some (or_zero (number k s) +ℤ negsuc 0)
  pub number-set_number :
      (k : Bytes) (n : ℤ) (ttl : ℕ) (s : Store) → number k (exec (set_number k n ttl) s) ≡ some n
  pub number-frame :
      (c : Command) (k : Bytes) (s : Store)
      → beq (key c) k ≡ false
      → number k (exec c s) ≡ number k s
  pub is_member-s_add :
      (k m n : Bytes) (s : Store)
      → is_member k n (exec (s_add k m) s) ≡ (beq m n || is_member k n s)
  pub is_member-s_rem :
      (k m n : Bytes) (s : Store)
      → is_member k n (exec (s_rem k m) s) ≡ (not (beq m n) && is_member k n s)
  pub is_member-del : (k n : Bytes) (s : Store) → is_member k n (exec (del k) s) ≡ false
  pub is_member-frame :
      (c : Command) (k n : Bytes) (s : Store)
      → beq (key c) k ≡ false
      → is_member k n (exec c s) ≡ is_member k n s
  -- Below its cap a stream loses nothing.
  pub entries-x_add :
      (k : Bytes) (cap : ℕ) (fields : List (Bytes × Bytes)) (s : Store)
      → length (entries k s) < cap
      → entries k (exec (x_add k cap fields) s)
        ≡ entries k s ++ record { id = next_id k s; values = fields } ∷ []
  pub entries-frame :
      (c : Command) (k : Bytes) (s : Store)
      → beq (key c) k ≡ false
      → entries k (exec c s) ≡ entries k s
  pub hm_get-hm_set :
      (k : Bytes) (l t : ℕ) (s : Store) → hm_get k (exec (hm_set k l t) s) ≡ some (l, t)
  pub hm_get-expire :
      (k j : Bytes) (ttl : ℕ) (s : Store) → hm_get k (exec (expire j ttl) s) ≡ hm_get k s
  pub hm_get-del : (k : Bytes) (s : Store) → hm_get k (exec (del k) s) ≡ none
  pub hm_get-frame :
      (c : Command) (k : Bytes) (s : Store)
      → beq (key c) k ≡ false
      → hm_get k (exec c s) ≡ hm_get k s
