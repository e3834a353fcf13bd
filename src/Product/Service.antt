-- ===== src/Product/Service.antt =====
-- internal/product/service.go. A service without a filter is one whose filter never answers. Which
-- calls get through is an argument.
pub mod Keys
pub mod Reads
pub mod Creation
pub mod Ownership
pub mod Filtering
use vidmerce.Prelude.{ℕ, Bool, true, false, List, Option, none, some, Bytes, if◌then◌else◌}
use vidmerce.Prelude.Results.{Result, ok, err}
use vidmerce.Uuid.{Uuid, UuidText}
use vidmerce.Redis.{Redis}
use vidmerce.Bloom.{Blooms, key_product_videos, may_contain, add}
use vidmerce.Cache.{JsonCache, Calls, cache_set, read_through}
use vidmerce.Feed.{Video}
use vidmerce.Video.{UrlParse}
use vidmerce.Video as Video
use vidmerce.Video.Service.{assert_owner}
use vidmerce.Product.{Error, video_already_taken, of_video, Product, CreateInput, validate}
use vidmerce.Product.Repository.{create, find_by_id, find_by_video_id}

-- What a request to create meets: which calls get through, and what the database assigns.
pub record Creating : Type 0 where
  pub owner_calls : Calls
  pub videos_up : Bool
  pub check_up : Bool
  pub insert_up : Bool
  pub record_up : Bool
  pub cache_up : Bool
  pub by_video_up : Bool
  pub id : Uuid
  pub clock : ℕ

-- The caches of the video service and of this one.
pub record Caches : Type 0 where
  pub of_videos : JsonCache Video
  pub by_id : JsonCache Product
  pub by_video : JsonCache Product

-- The two tables, Redis and its filters.
pub record State {ℓ κ} (Store : Type ℓ) (Filters : Type κ) : Type (ℓ ⊔ κ) where
  pub videos : List Video
  pub products : List Product
  pub store : Store
  pub filters : Filters

-- `videoMaybeTaken`, of the filter's answer.
unfoldable pub video_maybe_taken : Option Bool → Bool
video_maybe_taken none = false
video_maybe_taken (some maybe) = maybe

module _ (C : Caches) (T : UuidText) (R : Redis) (B : Blooms) where
  -- `recordVideo`
  unfoldable pub record_video : Bool → Uuid → B.Store → B.Store
  record_video up video f = (add B up key_product_videos (T.to_string video) f).1

  -- What follows the insert.
  unfoldable pub recorded :
      Creating
      → Uuid
      → Result Error Product × List Product
      → State R.Store B.Store
      → Result Error Product × State R.Store B.Store
  unfolding record_video
  recorded c video (ok p, products) s =
      let cached = (cache_set C.by_id R c.cache_up (T.to_string p.id) p s.store).1 in
      (
        ok p,
        record {
          videos = s.videos;
          products = products;
          store = (cache_set C.by_video R c.by_video_up (T.to_string p.video_id) p cached).1;
          filters = record_video c.record_up video s.filters;
        },
      )
  recorded c video (err video_already_taken, products) s =
      (err video_already_taken, record s { filters = record_video c.record_up video s.filters })
  recorded c video (err e, products) s = (err e, s)

  -- What follows the check of the owner.
  unfoldable pub owned :
      Creating
      → CreateInput
      → Option Video.Error
      → State R.Store B.Store
      → Result Error Product × State R.Store B.Store
  unfolding recorded video_maybe_taken
  owned c i (some e) s = (err (of_video e), s)
  owned c i none s =
      let maybe = may_contain B c.check_up key_product_videos (T.to_string i.video_id) s.filters in
      if video_maybe_taken maybe
      then (err video_already_taken, s)
      else recorded c i.video_id (create c.insert_up c.id c.clock i s.videos s.products) s

  unfoldable pub unless :
      Option Error
      → Result Error Product × State R.Store B.Store
      → State R.Store B.Store
      → Result Error Product × State R.Store B.Store
  unless none r s = r
  unless (some e) r s = (err e, s)

  -- `Create`
  unfoldable pub create_product :
      UrlParse
      → Creating
      → Uuid
      → CreateInput
      → State R.Store B.Store
      → Result Error Product × State R.Store B.Store
  unfolding owned unless
  create_product url_parse c user i s =
      let checked =
        assert_owner C.of_videos T R c.owner_calls c.videos_up i.video_id user s.videos s.store in
      unless (validate url_parse i) (owned c i checked.0 (record s { store = checked.1 })) s

module _ (C : Caches) (T : UuidText) (R : Redis) where
  open R use {Store}

  -- `GetByID`
  unfoldable pub get_by_id :
      Calls → Bool → Uuid → List Product → Store → Result Error Product × Store
  get_by_id c up id products s =
      read_through C.by_id R T c (λ p. p.id) id (find_by_id up id products) s

  -- `GetByVideoID`
  unfoldable pub get_by_video_id :
      Calls → Bool → Uuid → List Product → Store → Result Error Product × Store
  get_by_video_id c up video products s =
      read_through C.by_video R T c (λ p. video) video (find_by_video_id up video products) s
