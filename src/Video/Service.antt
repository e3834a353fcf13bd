-- ===== src/Video/Service.antt =====
-- internal/video/service.go. The hook that `WithOnCreate` registers is a parameter, with a state of
-- its own; which calls get through is an argument.
pub mod Reads
pub mod Creation
pub mod Durations
pub mod Fanout
use vidmerce.Prelude.{
  ℕ, Bool, true, false, not, ◌==◌, List, Option, none, some, Bytes, if◌then◌else◌,
}
use vidmerce.Prelude.Results.{Result, ok, err}
use vidmerce.Uuid.{Uuid, UuidText}
use vidmerce.Redis.{Redis}
use vidmerce.Cache.{JsonCache, Calls, cache_set, read_through}
use vidmerce.View.Service.{duration_set}
use vidmerce.Feed.{Video}
use vidmerce.Video.{
  Error, invalid, video_not_found, forbidden, failure, CreateInput, UrlParse, validate,
}
use vidmerce.Video.Repository.{create, find_by_id}

-- What a request to create meets: which calls get through, and what the database assigns.
pub record Creating : Type 0 where
  pub insert_up : Bool
  pub cache_up : Bool
  pub duration_up : Bool
  pub duration_ttl : ℕ
  pub id : Uuid
  pub clock : ℕ

-- The table, Redis, and what the hook changes.
pub record State {ℓ} (Store : Type ℓ) (Hooked : Type 0) : Type ℓ where
  pub table : List Video
  pub store : Store
  pub hooked : Hooked

module _ (C : JsonCache Video) (T : UuidText) (R : Redis) {H : Type 0} where
  open R use {Store}

  -- What follows a successful insert.
  unfoldable pub announce :
      Creating
      → Option (Video → H → H)
      → Result Error Video × List Video
      → State Store H
      → Result Error Video × State Store H
  announce c hook (err e, table) s = (err e, record s { table = table })
  announce c hook (ok v, table) s =
      let cached = (cache_set C R c.cache_up (T.to_string v.id) v s.store).1 in
      let timed = (duration_set T R c.duration_up c.duration_ttl v.id v.duration_sec cached).1 in
      (
        ok v,
        record {
          table = table;
          store = timed;
          hooked = elim hook [ none ↦ s.hooked | some f ↦ f v s.hooked ];
        },
      )

  unfoldable pub unless :
      Option Error
      → Result Error Video × State Store H
      → State Store H
      → Result Error Video × State Store H
  unless none r s = r
  unless (some e) r s = (err e, s)

  -- `Create`
  unfoldable pub create_video :
      UrlParse
      → Creating
      → Option (Video → H → H)
      → Uuid
      → CreateInput
      → State Store H
      → Result Error Video × State Store H
  unfolding announce unless
  create_video url_parse c hook user i s =
      unless (validate url_parse i)
        (announce c hook (create c.insert_up c.id c.clock user i s.table) s) s

unfoldable pub existence : Result Error Video → Result Error Bool
existence (ok v) = ok true
existence (err video_not_found) = ok false
existence (err e) = err e

unfoldable pub ownership : Uuid → Result Error Video → Option Error
ownership user (ok v) = if v.user_id == user then none else some forbidden
ownership user (err e) = some e

module _ (C : JsonCache Video) (T : UuidText) (R : Redis) where
  open R use {Store}

  -- `Get`
  unfoldable pub get_video : Calls → Bool → Uuid → List Video → Store → Result Error Video × Store
  get_video c db_up id table s = read_through C R T c (λ v. v.id) id (find_by_id db_up id table) s

  -- `Exists`
  unfoldable pub exists : Calls → Bool → Uuid → List Video → Store → Result Error Bool × Store
  unfolding existence get_video
  exists c db_up id table s = let r = get_video c db_up id table s in (existence r.0, r.1)

  -- `AssertOwner`; `none` where the user owns the video.
  unfoldable pub assert_owner :
      Calls → Bool → Uuid → Uuid → List Video → Store → Option Error × Store
  unfolding ownership get_video
  assert_owner c db_up id user table s =
      let r = get_video c db_up id table s in (ownership user r.0, r.1)
