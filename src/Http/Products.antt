-- ===== src/Http/Products.antt =====
-- internal/product/handler.go, and its route behind the middleware of internal/platform/jwt.
pub mod Access
use vidmerce.Prelude.{ℕ, Bool, Option, none, some, Bytes, text, List}
use vidmerce.Prelude.Results.{Result, ok, err}
use vidmerce.Uuid.{Uuid, UuidText}
use vidmerce.Redis.{Redis}
use vidmerce.Bloom.{Blooms}
use vidmerce.Cache.{Calls}
use vidmerce.Http as Http
use vidmerce.Http.{
  Reply, created, error, code_validation_failed, code_forbidden, code_not_found, code_conflict,
  code_internal,
}
use vidmerce.Jwt.{Signer, require_auth}
use vidmerce.Video as Video
use vidmerce.Video.{UrlParse}
use vidmerce.Product.{
  Error, invalid, product_not_found, video_already_taken, of_video, failure, Product, CreateInput,
}
use vidmerce.Product.Service.{Creating, Caches, State, create_product, get_by_id, get_by_video_id}

unfoldable pub created_reply : Result Error Product → Reply Product
created_reply (ok p) = created p
created_reply (err (invalid m)) = error 400 code_validation_failed m
created_reply (err (of_video Video.video_not_found)) =
    error 404 code_not_found (text "video not found")
created_reply (err (of_video Video.forbidden)) =
    error 403 code_forbidden (text "you do not own the linked video")
created_reply (err video_already_taken) =
    error 409 code_conflict (text "a product already exists for this video")
created_reply (err (of_video (Video.invalid m))) =
    error 500 code_internal (text "create product failed")
created_reply (err (of_video Video.failure)) =
    error 500 code_internal (text "create product failed")
created_reply (err product_not_found) = error 500 code_internal (text "create product failed")
created_reply (err failure) = error 500 code_internal (text "create product failed")

unfoldable pub read_reply : Bytes → Result Error Product → Reply Product
read_reply absent (ok p) = Http.ok p
read_reply absent (err product_not_found) = error 404 code_not_found absent
read_reply absent (err e) = error 500 code_internal (text "get product failed")

module _ (C : Caches) (T : UuidText) (R : Redis) (B : Blooms) where
  -- `Create`; the body is none where gin refuses to bind it.
  unfoldable pub post_product :
      UrlParse
      → Creating
      → Option CreateInput
      → Uuid
      → State R.Store B.Store
      → Reply Product × State R.Store B.Store
  unfolding created_reply
  post_product url_parse c none user s =
      (error 400 code_validation_failed (text "invalid request body"), s)
  post_product url_parse c (some i) user s =
      let r = create_product C T R B url_parse c user i s in (created_reply r.0, r.1)

  -- POST /products
  unfoldable pub post_products :
      Signer
      → ℕ
      → Bytes
      → UrlParse
      → Creating
      → Option CreateInput
      → State R.Store B.Store
      → Reply Product × State R.Store B.Store
  unfolding post_product
  post_products S now header url_parse c body s =
      require_auth S now header (post_product url_parse c body) s

module _ (C : Caches) (T : UuidText) (R : Redis) where
  unfoldable pub by_id_for :
      Calls → Bool → Option Uuid → List Product → R.Store → Reply Product × R.Store
  unfolding read_reply
  by_id_for c up none products s = (error 400 code_validation_failed (text "invalid product id"), s)
  by_id_for c up (some id) products s =
      let r = get_by_id C T R c up id products s in (read_reply (text "product not found") r.0, r.1)

  -- `Get`
  unfoldable pub get_product :
      Calls → Bool → Bytes → List Product → R.Store → Reply Product × R.Store
  unfolding by_id_for
  get_product c up param products s = by_id_for c up (T.parse param) products s

  unfoldable pub by_video_id_for :
      Calls → Bool → Option Uuid → List Product → R.Store → Reply Product × R.Store
  unfolding read_reply
  by_video_id_for c up none products s =
      (error 400 code_validation_failed (text "invalid video id"), s)
  by_video_id_for c up (some video) products s =
      let r = get_by_video_id C T R c up video products s in
      (read_reply (text "no product attached to this video") r.0, r.1)

  -- `GetByVideoID`
  unfoldable pub get_product_of_video :
      Calls → Bool → Bytes → List Product → R.Store → Reply Product × R.Store
  unfolding by_video_id_for
  get_product_of_video c up param products s = by_video_id_for c up (T.parse param) products s
