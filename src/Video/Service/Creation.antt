-- ===== src/Video/Service/Creation.antt =====
-- What a new video changes.
use vidmerce.Prelude.{
  ℕ, ◌≡◌, ◌≢◌, refl, sym, ◌∙◌, Bool, true, false, ◌==◌, List, [], ◌∷◌, ◌++◌, Option, none, some,
  Bytes, text, arith, inl, inr, Bool-cases, Option-cases, if◌then◌else◌, All, beq, beq_prefix,
  beq_marked_sym,
}
use vidmerce.Prelude.Int.{ℤ, pos, leb_ℤ}
use vidmerce.Prelude.Decimal.{format_int}
use vidmerce.Prelude.Results.{ok}
use vidmerce.Uuid.{Uuid, UuidText, beq-to_string}
use vidmerce.Redis.{Redis, set}
use vidmerce.Cache.{JsonCache, cache_set}
use vidmerce.Cache.Coherence.{IsKeyed, IsCoherent, peek-frame, IsCoherent-set}
use vidmerce.View.Service.{duration_key, duration_set}
use vidmerce.Feed.{Video, is_before, cursor_of}
use vidmerce.Feed.Traversal.{IsOrdered}
use vidmerce.Video.{CreateInput, UrlParse, validate}
use vidmerce.Video.Repository.{insert_row, create, lookup}
use vidmerce.Video.Service.{Creating, State, announce, unless, create_video}
use vidmerce.Video.Service.Reads.{row}

-- The cache's keys are "video:" and the identifier.
abbrev pub IsVideoCache : JsonCache Video → Type 0
IsVideoCache C = (id : Bytes) → C.key_fn id ≡ text "video:" ++ id

lookup-insert_row :
    (id : Uuid) (v : Video) (table : List Video)
    → lookup v.id table ≡ none
    → lookup id (insert_row v table) ≡ (if v.id == id then some v else lookup id table)
unfolding lookup insert_row
lookup-insert_row id v [] h = refl
lookup-insert_row id v (w ∷ ws) h = ground (arith, h, lookup-insert_row id v ws)

insert_row-All :
    (P : Video → Type 0) (v : Video) (table : List Video)
    → P v
    → All P table
    → All P (insert_row v table)
unfolding insert_row
insert_row-All P v [] p h = (p, tt)
insert_row-All P v (w ∷ ws) p h = elim (Bool-cases (is_before (cursor_of v) w)) [
  | inl b ↦ rw b (p, h)
  | inr b ↦ rw b (h.0, insert_row-All P v ws p h.1)
]

is_before-total :
    (v w : Video)
    → v.id ≢ w.id
    → is_before (cursor_of v) w ≡ false
    → is_before (cursor_of w) v ≡ true
unfolding is_before
is_before-total v w d h = ground (arith, d, h)

is_before_trans :
    (u v w : Video)
    → is_before (cursor_of u) v ≡ true
    → is_before (cursor_of v) w ≡ true
    → is_before (cursor_of u) w ≡ true
unfolding is_before
is_before_trans u v w p q = ground (arith, p, q)

All-trans :
    (u v : Video) (vs : List Video)
    → is_before (cursor_of u) v ≡ true
    → All (λ w. is_before (cursor_of v) w ≡ true) vs
    → All (λ w. is_before (cursor_of u) w ≡ true) vs
All-trans u v [] p h = tt
All-trans u v (w ∷ ws) p h = (is_before_trans u v w p h.0, All-trans u v ws p h.1)

insert_row-IsOrdered :
    (v : Video) (table : List Video)
    → lookup v.id table ≡ none
    → IsOrdered table
    → IsOrdered (insert_row v table)
unfolding insert_row lookup
insert_row-IsOrdered v [] h o = (tt, tt)
insert_row-IsOrdered v (w ∷ ws) h o =
    let apart : v.id ≢ w.id = λ e. ground (arith, h, e) in
    let fresh : lookup v.id ws ≡ none = ground (arith, h, apart) in
    elim (Bool-cases (is_before (cursor_of v) w)) [
      | inl b ↦ rw b ((b, All-trans v w ws b o.0), o)
      | inr b ↦ rw b (
        insert_row-All (λ x. is_before (cursor_of w) x ≡ true) v ws (is_before-total v w apart b)
            o.0,
        insert_row-IsOrdered v ws fresh o.1,
      )
    ]

module _ (C : JsonCache Video) (T : UuidText) (R : Redis) where
  pub IsVideoCache-IsKeyed : IsVideoCache C → IsKeyed C R T
  IsVideoCache-IsKeyed k a b =
      rw (k (T.to_string a), k (T.to_string b))
        (beq_prefix (text "video:") (T.to_string a) (T.to_string b) ∙ beq-to_string T a b)

  duration_key-apart :
      (a b : Uuid) → IsVideoCache C → beq (duration_key T a) (C.key_fn (T.to_string b)) ≡ false
  unfolding duration_key
  duration_key-apart a b k = rw (k (T.to_string b)) (
      beq_prefix (text "video:") (T.to_string a ++ text ":dur") (T.to_string b)
      ∙ beq_marked_sym b':' (T.to_string b) (T.to_string a) (text "dur") (T.to_string_no_colon b))

  IsCoherent-duration_set :
      (find : Uuid → Option Video) (up : Bool) (ttl : ℕ) (a : Uuid) (sec : ℤ) (s : R.Store)
      → IsVideoCache C
      → IsCoherent C R T find s
      → IsCoherent C R T find (duration_set T R up ttl a sec s).1
  unfolding duration_set
  IsCoherent-duration_set find up ttl a sec s k h id v p =
      h id v (elim (Bool-cases (leb_ℤ sec (pos 0))) [
        | inl z ↦ rw z at p
        | inr n ↦ elim (Bool-cases up) [
          | inr down ↦ rw (n, down) at p
          | inl on ↦
              sym (
                peek-frame C R T (set (duration_key T a) (format_int sec) ttl) id s
                  (duration_key-apart a id k))
              ∙ (rw (n, on) at p)
        ]
      ])

  -- An entry of the old table is one of the new.
  IsCoherent-insert_row :
      (v : Video) (table : List Video) (s : R.Store)
      → lookup v.id table ≡ none
      → IsCoherent C R T (row table) s
      → IsCoherent C R T (row (insert_row v table)) s
  IsCoherent-insert_row v table s f h id w p =
      ground (arith, lookup-insert_row id v table f, h id w p, f)

  lookup-inserted :
      (v : Video) (table : List Video)
      → lookup v.id table ≡ none
      → lookup v.id (insert_row v table) ≡ some v
  lookup-inserted v table f = ground (arith, lookup-insert_row v.id v table f)

  module _ {H : Type 0} where
    -- The table is in the order of its index, and what is cached agrees with it.
    pub record IsConsistent (s : State R.Store H) : Type 0 where
      pub ordered : IsOrdered s.table
      pub coherent : IsCoherent C R T (row s.table) s.store

    announced :
        (c : Creating) (hook : Option (Video → H → H)) (v : Video) (s : State R.Store H)
        → IsVideoCache C
        → lookup v.id s.table ≡ none
        → IsConsistent s
        → IsConsistent (announce C T R c hook (ok v, insert_row v s.table) s).1
    unfolding announce
    announced c hook v s k f g = record {
      ordered = insert_row-IsOrdered v s.table f g.ordered;
      coherent =
          IsCoherent-duration_set (row (insert_row v s.table)) c.duration_up c.duration_ttl v.id
            v.duration_sec (cache_set C R c.cache_up (T.to_string v.id) v s.store).1 k
            (IsCoherent-set C R T (row (insert_row v s.table)) c.cache_up v.id v s.store
              (IsVideoCache-IsKeyed k) (lookup-inserted v s.table f)
              (IsCoherent-insert_row v s.table s.store f g.coherent));
    }

    -- Creating a video keeps the table in the order of its index and the cache in agreement with
    -- it, whatever the answer and whichever calls get through, if the database assigns an
    -- identifier that no row has.
    pub create_video-IsConsistent :
        (url_parse : UrlParse) (c : Creating) (hook : Option (Video → H → H)) (user : Uuid)
        (i : CreateInput) (s : State R.Store H)
        → IsVideoCache C
        → lookup c.id s.table ≡ none
        → IsConsistent s
        → IsConsistent (create_video C T R url_parse c hook user i s).1
    unfolding create_video unless create
    create_video-IsConsistent url_parse c hook user i s k f g =
        elim (Option-cases (validate url_parse i)) [
          | inr (e, bad) ↦ rw bad g
          | inl good ↦ elim (Bool-cases c.insert_up) [
            | inr down ↦ rw (good, down) (unfold announce in g)
            | inl up ↦ rw (good, up) (announced c hook _ s k f g)
          ]
        ]
