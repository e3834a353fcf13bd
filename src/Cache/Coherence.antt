-- ===== src/Cache/Coherence.antt =====
-- A cache in front of a table.
use vidmerce.Prelude.{
  ◌≡◌, refl, sym, ap, ◌∙◌, Bool, true, false, Option, none, some, Bytes, beq, ◌==◌, ==_iff, inl,
  inr, Bool-cases, if◌then◌else◌,
}
use vidmerce.Prelude.Results.{Result, ok, err}
use vidmerce.Uuid.{Uuid, UuidText}
use vidmerce.Redis.{Redis, Command, set, del, key}
use vidmerce.Cache.{
  JsonCache, Cached, hit, miss, unavailable, Calls, cache_del, cache_set, read_value, read_raw,
  cache_get, fill, or_fill, read_through,
}

module _ {V : Type 0} (C : JsonCache V) (R : Redis) (T : UuidText) where
  open R use {Store, exec}

  abbrev pub key_of_id : Uuid → Bytes
  key_of_id id = C.key_fn (T.to_string id)

  -- Different identifiers have different keys.
  abbrev pub IsKeyed : Type 0
  IsKeyed = (a b : Uuid) → beq (key_of_id a) (key_of_id b) ≡ (a == b)

  unfoldable pub decoded : Option Bytes → Option V
  decoded none = none
  decoded (some raw) = C.unmarshal raw

  -- What a read would find.
  unfoldable pub peek : Uuid → Store → Option V
  unfolding decoded
  peek id s = decoded (R.get (key_of_id id) s)

  -- What is cached is what the table says.
  abbrev pub IsCoherent : (Uuid → Option V) → Store → Type 0
  IsCoherent find s = (id : Uuid) (v : V) → peek id s ≡ some v → find id ≡ some v

  pub peek-frame :
      (c : Command) (id : Uuid) (s : Store)
      → beq (key c) (key_of_id id) ≡ false
      → peek id (exec c s) ≡ peek id s
  unfolding peek
  peek-frame c id s h = ap decoded (R.get-frame c (key_of_id id) s h)

  pub peek-set :
      (a b : Uuid) (v : V) (s : Store)
      → IsKeyed
      → peek b (exec (set (key_of_id a) (C.marshal v) C.ttl) s)
        ≡ (if a == b then some v else peek b s)
  unfolding peek decoded
  peek-set a b v s k = elim (Bool-cases (a == b)) [
    | inl same ↦
        let e : a ≡ b = (==_iff a b).0 same in
        rw (same, sym e, R.get-set (key_of_id a) (C.marshal v) C.ttl s) (C.unmarshal-marshal v)
    | inr other ↦ rw other (
        ap decoded
          (R.get-frame (set (key_of_id a) (C.marshal v) C.ttl) (key_of_id b) s (k a b ∙ other)))
  ]

  pub peek-del :
      (a b : Uuid) (s : Store)
      → IsKeyed
      → peek b (exec (del (key_of_id a)) s) ≡ (if a == b then none else peek b s)
  unfolding peek decoded
  peek-del a b s k = elim (Bool-cases (a == b)) [
    | inl same ↦
        let e : a ≡ b = (==_iff a b).0 same in rw (same, sym e, R.get-del (key_of_id a) s) refl
    | inr other ↦
        rw other (ap decoded (R.get-frame (del (key_of_id a)) (key_of_id b) s (k a b ∙ other)))
  ]

  IsCoherent-del :
      (find : Uuid → Option V) (up : Bool) (a : Uuid) (s : Store)
      → IsKeyed
      → IsCoherent find s
      → IsCoherent find (cache_del C R up (T.to_string a) s).1
  unfolding cache_del
  IsCoherent-del find false a s k h id v p = h id v p
  IsCoherent-del find true a s k h id v p = elim (Bool-cases (a == id)) [
    | inl same ↦ absurd (cc (p, peek-del a id s k, same))
    | inr other ↦ h id v (sym (rw other at (peek-del a id s k)) ∙ p)
  ]

  pub IsCoherent-set :
      (find : Uuid → Option V) (up : Bool) (a : Uuid) (v : V) (s : Store)
      → IsKeyed
      → find a ≡ some v
      → IsCoherent find s
      → IsCoherent find (cache_set C R up (T.to_string a) v s).1
  unfolding cache_set
  IsCoherent-set find false a v s k f h id w p = h id w p
  IsCoherent-set find true a v s k f h id w p = elim (Bool-cases (a == id)) [
    | inl same ↦
        ap find (sym ((==_iff a id).0 same)) ∙ (f ∙ (sym (rw same at (peek-set a id v s k)) ∙ p))
    | inr other ↦ h id w (sym (rw other at (peek-set a id v s k)) ∙ p)
  ]

  -- A hit is what is cached; whatever is found, the cache stays coherent.
  abbrev IsRead : (Uuid → Option V) → Uuid → Store → Cached V × Store → Type 0
  IsRead find id s r = ((v : V) → r.0 ≡ hit v → peek id s ≡ some v) × IsCoherent find r.1

  read_value-IsRead :
      (find : Uuid → Option V) (up : Bool) (id : Uuid) (o : Option V) (s : Store)
      → IsKeyed
      → peek id s ≡ o
      → IsCoherent find s
      → IsRead find id s (read_value C R up (T.to_string id) o s)
  unfolding read_value
  read_value-IsRead find up id none s k e h = (λ v q. absurd (cc), IsCoherent-del find up id s k h)
  read_value-IsRead find up id (some w) s k e h = (λ v q. cc (e, q), h)

  read_raw-IsRead :
      (find : Uuid → Option V) (up : Bool) (id : Uuid) (o : Option Bytes) (s : Store)
      → IsKeyed
      → R.get (key_of_id id) s ≡ o
      → IsCoherent find s
      → IsRead find id s (read_raw C R up (T.to_string id) o s)
  unfolding read_raw peek decoded
  read_raw-IsRead find up id none s k e h = (λ v q. absurd (cc), h)
  read_raw-IsRead find up id (some raw) s k e h =
      read_value-IsRead find up id (C.unmarshal raw) s k (ap decoded e) h

  cache_get-IsRead :
      (find : Uuid → Option V) (c : Calls) (id : Uuid) (s : Store)
      → IsKeyed
      → IsCoherent find s
      → IsRead find id s (cache_get C R c (T.to_string id) s)
  unfolding cache_get
  cache_get-IsRead find c id s k h = elim (Bool-cases c.get_up) [
    | inl up ↦ rw up (read_raw-IsRead find c.del_up id (R.get (key_of_id id) s) s k refl h)
    | inr down ↦ rw down (λ v q. absurd (cc), h)
  ]

  module _ {E : Type 0} (missing : E) where
    unfoldable pub answer : Option V → Result E V
    answer none = err missing
    answer (some v) = ok v

    -- What is answered, and what is cached afterwards.
    abbrev pub IsAnswered : (Uuid → Option V) → Uuid → Result E V × Store → Type 0
    IsAnswered find id r = (r.0 ≡ answer (find id)) × IsCoherent find r.1

    fill-IsAnswered :
        (find : Uuid → Option V) (up : Bool) (key_of : V → Uuid) (id : Uuid) (o : Option V)
        (s : Store)
        → IsKeyed
        → find id ≡ o
        → ((v : V) → find id ≡ some v → key_of v ≡ id)
        → IsCoherent find s
        → IsAnswered find id (fill C R T up key_of (answer o) s)
    unfolding fill answer
    fill-IsAnswered find up key_of id none s k f own h = rw f (refl, h)
    fill-IsAnswered find up key_of id (some v) s k f own h =
        (ap answer (sym f), rw (own v f) (IsCoherent-set find up id v s k f h))

    or_fill-IsAnswered :
        (find : Uuid → Option V) (up : Bool) (key_of : V → Uuid) (id : Uuid) (s : Store)
        (r : Cached V × Store)
        → IsKeyed
        → ((v : V) → find id ≡ some v → key_of v ≡ id)
        → IsCoherent find s
        → IsRead find id s r
        → IsAnswered find id (or_fill C R T up key_of (answer (find id)) r)
    unfolding or_fill answer
    or_fill-IsAnswered find up key_of id s (hit v, t) k own h (p, q) =
        (ap answer (sym (h id v (p v refl))), q)
    or_fill-IsAnswered find up key_of id s (miss, t) k own h (p, q) =
        fill-IsAnswered find up key_of id (find id) t k refl own q
    or_fill-IsAnswered find up key_of id s (unavailable, t) k own h (p, q) =
        fill-IsAnswered find up key_of id (find id) t k refl own q

    -- Over a coherent cache a read answers what the table says, whichever calls of the cache get
    -- through, and leaves the cache coherent.
    pub read_through-IsAnswered :
        (find : Uuid → Option V) (c : Calls) (key_of : V → Uuid) (id : Uuid) (s : Store)
        → IsKeyed
        → ((v : V) → find id ≡ some v → key_of v ≡ id)
        → IsCoherent find s
        → IsAnswered find id (read_through C R T c key_of id (answer (find id)) s)
    unfolding read_through
    read_through-IsAnswered find c key_of id s k own h =
        or_fill-IsAnswered find c.set_up key_of id s (cache_get C R c (T.to_string id) s) k own h
          (cache_get-IsRead find c id s k h)

  module _ {E : Type 0} where
    -- A value that is answered is the table's, and what is cached agrees with it.
    abbrev pub IsFaithful : (Uuid → Option V) → Uuid → Result E V × Store → Type 0
    IsFaithful find id r = ((v : V) → r.0 ≡ ok v → find id ≡ some v) × IsCoherent find r.1

    fill-IsFaithful :
        (find : Uuid → Option V) (up : Bool) (key_of : V → Uuid) (id : Uuid) (r : Result E V)
        (s : Store)
        → IsKeyed
        → ((v : V) → r ≡ ok v → find id ≡ some v)
        → ((v : V) → find id ≡ some v → key_of v ≡ id)
        → IsCoherent find s
        → IsFaithful find id (fill C R T up key_of r s)
    unfolding fill
    fill-IsFaithful find up key_of id (err e) s k f own h = (f, h)
    fill-IsFaithful find up key_of id (ok v) s k f own h =
        (f, rw (own v (f v refl)) (IsCoherent-set find up id v s k (f v refl) h))

    or_fill-IsFaithful :
        (find : Uuid → Option V) (up : Bool) (key_of : V → Uuid) (id : Uuid) (r : Result E V)
        (s : Store) (q : Cached V × Store)
        → IsKeyed
        → ((v : V) → r ≡ ok v → find id ≡ some v)
        → ((v : V) → find id ≡ some v → key_of v ≡ id)
        → IsCoherent find s
        → IsRead find id s q
        → IsFaithful find id (or_fill C R T up key_of r q)
    unfolding or_fill
    or_fill-IsFaithful find up key_of id r s (hit w, t) k f own h (p, g) =
        (λ v e. h id v (p v (cc (e))), g)
    or_fill-IsFaithful find up key_of id r s (miss, t) k f own h (p, g) =
        fill-IsFaithful find up key_of id r t k f own g
    or_fill-IsFaithful find up key_of id r s (unavailable, t) k f own h (p, g) =
        fill-IsFaithful find up key_of id r t k f own g

    pub read_through-IsFaithful :
        (find : Uuid → Option V) (c : Calls) (key_of : V → Uuid) (id : Uuid) (r : Result E V)
        (s : Store)
        → IsKeyed
        → ((v : V) → r ≡ ok v → find id ≡ some v)
        → ((v : V) → find id ≡ some v → key_of v ≡ id)
        → IsCoherent find s
        → IsFaithful find id (read_through C R T c key_of id r s)
    unfolding read_through
    read_through-IsFaithful find c key_of id r s k f own h =
        or_fill-IsFaithful find c.set_up key_of id r s (cache_get C R c (T.to_string id) s) k f own
          h (cache_get-IsRead find c id s k h)
