-- ===== src/Cache/Apart.antt =====
-- Two caches of one store.
use vidmerce.Prelude.{
  ◌≡◌, sym, ◌∙◌, Bool, true, false, Option, none, some, Bytes, beq, inl, inr, Bool-cases,
}
use vidmerce.Prelude.Results.{Result, ok, err}
use vidmerce.Uuid.{Uuid, UuidText}
use vidmerce.Redis.{Redis, set, del}
use vidmerce.Cache.{
  JsonCache, Cached, hit, miss, unavailable, Calls, cache_del, cache_set, read_value, read_raw,
  cache_get, fill, or_fill, read_through,
}
use vidmerce.Cache.Coherence.{IsCoherent, peek-frame}

module _ {V W : Type 0} (C : JsonCache V) (D : JsonCache W) (R : Redis) (T : UuidText) where
  open R use {Store}

  -- No key is one of both.
  abbrev pub IsDisjoint : Type 0
  IsDisjoint = (a b : Uuid) → beq (D.key_fn (T.to_string a)) (C.key_fn (T.to_string b)) ≡ false

  module _ (d : IsDisjoint) (find : Uuid → Option V) where
    pub disjoint-set :
        (up : Bool) (a : Uuid) (w : W) (s : Store)
        → IsCoherent C R T find s
        → IsCoherent C R T find (cache_set D R up (T.to_string a) w s).1
    unfolding cache_set
    disjoint-set false a w s h id v p = h id v p
    disjoint-set true a w s h id v p = h id v (
        sym (peek-frame C R T (set (D.key_fn (T.to_string a)) (D.marshal w) D.ttl) id s (d a id))
        ∙ p)

    disjoint-del :
        (up : Bool) (a : Uuid) (s : Store)
        → IsCoherent C R T find s
        → IsCoherent C R T find (cache_del D R up (T.to_string a) s).1
    unfolding cache_del
    disjoint-del false a s h id v p = h id v p
    disjoint-del true a s h id v p =
        h id v (sym (peek-frame C R T (del (D.key_fn (T.to_string a))) id s (d a id)) ∙ p)

    disjoint-read_value :
        (up : Bool) (a : Uuid) (o : Option W) (s : Store)
        → IsCoherent C R T find s
        → IsCoherent C R T find (read_value D R up (T.to_string a) o s).1
    unfolding read_value
    disjoint-read_value up a none s h = disjoint-del up a s h
    disjoint-read_value up a (some w) s h = h

    disjoint-read_raw :
        (up : Bool) (a : Uuid) (o : Option Bytes) (s : Store)
        → IsCoherent C R T find s
        → IsCoherent C R T find (read_raw D R up (T.to_string a) o s).1
    unfolding read_raw
    disjoint-read_raw up a none s h = h
    disjoint-read_raw up a (some raw) s h = disjoint-read_value up a (D.unmarshal raw) s h

    disjoint-cache_get :
        (c : Calls) (a : Uuid) (s : Store)
        → IsCoherent C R T find s
        → IsCoherent C R T find (cache_get D R c (T.to_string a) s).1
    unfolding cache_get
    disjoint-cache_get c a s h = elim (Bool-cases c.get_up) [
      | inl up ↦ rw up (disjoint-read_raw c.del_up a (R.get (D.key_fn (T.to_string a)) s) s h)
      | inr down ↦ rw down h
    ]

    module _ {E : Type 0} where
      disjoint-fill :
          (up : Bool) (key_of : W → Uuid) (r : Result E W) (s : Store)
          → IsCoherent C R T find s
          → IsCoherent C R T find (fill D R T up key_of r s).1
      unfolding fill
      disjoint-fill up key_of (ok w) s h = disjoint-set up (key_of w) w s h
      disjoint-fill up key_of (err e) s h = h

      disjoint-or_fill :
          (up : Bool) (key_of : W → Uuid) (r : Result E W) (q : Cached W × Store)
          → IsCoherent C R T find q.1
          → IsCoherent C R T find (or_fill D R T up key_of r q).1
      unfolding or_fill
      disjoint-or_fill up key_of r (hit w, s) h = h
      disjoint-or_fill up key_of r (miss, s) h = disjoint-fill up key_of r s h
      disjoint-or_fill up key_of r (unavailable, s) h = disjoint-fill up key_of r s h

      -- Reads through one cache leave the other coherent.
      pub disjoint-read_through :
          (c : Calls) (key_of : W → Uuid) (id : Uuid) (r : Result E W) (s : Store)
          → IsCoherent C R T find s
          → IsCoherent C R T find (read_through D R T c key_of id r s).1
      unfolding read_through
      disjoint-read_through c key_of id r s h =
          disjoint-or_fill c.set_up key_of r (cache_get D R c (T.to_string id) s)
            (disjoint-cache_get c id s h)
