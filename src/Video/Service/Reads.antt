-- ===== src/Video/Service/Reads.antt =====
-- Reading a video through the cache.
use vidmerce.Prelude.{
  ◌≡◌, refl, ap, ◌∙◌, Bool, true, false, ◌==◌, List, [], ◌∷◌, Option, none, some, arith, inl, inr,
  Option-cases, if◌then◌else◌,
}
use vidmerce.Prelude.Results.{Result, ok, err}
use vidmerce.Uuid.{Uuid, UuidText}
use vidmerce.Redis.{Redis}
use vidmerce.Cache.{JsonCache, Calls}
use vidmerce.Cache.Coherence.{
  IsKeyed, IsCoherent, answer, read_through-IsAnswered, read_through-IsFaithful,
}
use vidmerce.Feed.{Video}
use vidmerce.Video.{Error, video_not_found, forbidden}
use vidmerce.Video.Repository.{lookup, found, find_by_id}
use vidmerce.Video.Service.{get_video, ownership, assert_owner, existence, exists}

-- The table as a partial function.
abbrev pub row : List Video → Uuid → Option Video
row table id = lookup id table

pub lookup-id : (table : List Video) (id : Uuid) (v : Video) → lookup id table ≡ some v → v.id ≡ id
unfolding lookup
lookup-id [] id v h = absurd (cc)
lookup-id (w ∷ ws) id v h = ground (arith, h, lookup-id ws id v)

-- What a row of the table, or none, makes of a user.
unfoldable pub standing : Uuid → Option Video → Option Error
standing user none = some video_not_found
standing user (some v) = if v.user_id == user then none else some forbidden

unfoldable pub is_some : Option Video → Bool
is_some none = false
is_some (some v) = true

module _ (C : JsonCache Video) (T : UuidText) (R : Redis) where
  find_by_id-answer :
      (id : Uuid) (table : List Video)
      → find_by_id true id table ≡ answer C R T video_not_found (lookup id table)
  unfolding find_by_id found answer
  find_by_id-answer id table = ground arith

  -- While what is cached agrees with the table and the database answers, a read through the
  -- cache gives what a read of the table gives, whichever calls of Redis get through, and what is
  -- cached afterwards agrees with the table too.
  pub get_video-find_by_id :
      (c : Calls) (id : Uuid) (table : List Video) (s : R.Store)
      → IsKeyed C R T
      → IsCoherent C R T (row table) s
      → ((get_video C T R c true id table s).0 ≡ find_by_id true id table)
        × IsCoherent C R T (row table) (get_video C T R c true id table s).1
  unfolding get_video
  get_video-find_by_id c id table s k h =
      let r =
        read_through-IsAnswered C R T video_not_found (row table) c (λ (v : Video). v.id) id s k
          (lookup-id table id) h in
      rw (find_by_id-answer id table) r

  existence-found : (o : Option Video) → existence (found o) ≡ ok (is_some o)
  unfolding existence found is_some
  existence-found none = refl
  existence-found (some v) = refl

  ownership-found : (user : Uuid) (o : Option Video) → ownership user (found o) ≡ standing user o
  unfolding ownership found standing
  ownership-found user none = refl
  ownership-found user (some v) = ground arith

  -- While what is cached agrees with the table and the database answers, whichever calls of Redis
  -- get through: the owner of a video, and nobody else, is accepted as its owner, another user is
  -- forbidden, a video that is not in the table is not found; the check of existence says whether
  -- it is in the table; and what is cached after either still agrees with the table.
  pub assert_owner-standing :
      (c : Calls) (id user : Uuid) (table : List Video) (s : R.Store)
      → IsKeyed C R T
      → IsCoherent C R T (row table) s
      → ((assert_owner C T R c true id user table s).0 ≡ standing user (lookup id table))
        × IsCoherent C R T (row table) (assert_owner C T R c true id user table s).1
        × ((exists C T R c true id table s).0 ≡ ok (is_some (lookup id table)))
        × IsCoherent C R T (row table) (exists C T R c true id table s).1
  unfolding assert_owner exists find_by_id
  assert_owner-standing c id user table s k h =
      let r = get_video-find_by_id c id table s k h in
      (
        ap (ownership user) r.0 ∙ ownership-found user (lookup id table),
        r.1,
        ap existence r.0 ∙ existence-found (lookup id table),
        r.1,
      )

  find_by_id-row :
      (up : Bool) (id : Uuid) (table : List Video) (v : Video)
      → find_by_id up id table ≡ ok v
      → lookup id table ≡ some v
  unfolding find_by_id found
  find_by_id-row up id table v h = elim (Option-cases (lookup id table)) [
    | inl absent ↦ ground (arith, h, absent)
    | inr (w, present) ↦ ground (arith, h, present)
  ]

  owned_by :
      (user id : Uuid) (table : List Video) (r : Result Error Video)
      → ((v : Video) → r ≡ ok v → lookup id table ≡ some v)
      → ownership user r ≡ none
      → (v : Video) × (lookup id table ≡ some v) × (v.user_id ≡ user)
  unfolding ownership
  owned_by user id table (err e) f h = absurd (cc)
  owned_by user id table (ok v) f h = (v, f v refl, ground (arith, h))

  -- Whoever is accepted as an owner is one, also while the database does not answer.
  pub assert_owner_sound :
      (c : Calls) (up : Bool) (id user : Uuid) (table : List Video) (s : R.Store)
      → IsKeyed C R T
      → IsCoherent C R T (row table) s
      → ((assert_owner C T R c up id user table s).0 ≡ none
          → (v : Video) × (lookup id table ≡ some v) × (v.user_id ≡ user))
        × IsCoherent C R T (row table) (assert_owner C T R c up id user table s).1
  unfolding assert_owner get_video
  assert_owner_sound c up id user table s k h =
      let r =
        read_through-IsFaithful C R T (row table) c (λ (v : Video). v.id) id
          (find_by_id up id table) s k (find_by_id-row up id table) (lookup-id table id) h in
      (owned_by user id table _ r.0, r.1)
