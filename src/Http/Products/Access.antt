-- ===== src/Http/Products/Access.antt =====
-- Who may create a product.
use vidmerce.Prelude.{
  ℕ, ◌≡◌, refl, ap, Option, none, some, Bytes, text, [], ◌∷◌, ◌++◌, ◌⊎◌, inl, inr,
}
use vidmerce.Prelude.Results.{err}
use vidmerce.Uuid.{Uuid, UuidText}
use vidmerce.Redis.{Redis}
use vidmerce.Bloom.{Blooms}
use vidmerce.Http.{
  Reply, created, error, code_validation_failed, code_forbidden, code_not_found, code_conflict,
  code_internal, code_unauthenticated,
}
use vidmerce.Http.Products.{created_reply, post_product, post_products}
use vidmerce.Jwt.{Signer}
use vidmerce.Jwt.Tokens.{IsBearer, require_auth-optional_auth}
use vidmerce.Video as Video
use vidmerce.Video.{UrlParse}
use vidmerce.Product.{
  Error, invalid, product_not_found, video_already_taken, of_video, failure, Product, CreateInput,
}
use vidmerce.Product.Repository.{new_product}
use vidmerce.Product.Service.{Creating, Caches, State}
use vidmerce.Product.Service.Keys.{HasKeys}
use vidmerce.Product.Service.Creation.{IsSound}
use vidmerce.Product.Service.Ownership.{IsOwner, create_product-IsOwner}

-- An error of the service is an error of the response.
abbrev IsError : Reply Product → Type 0
IsError r = (status : ℕ) × (code : Bytes) × (message : Bytes) × (r ≡ error status code message)

created_reply-IsError : (e : Error) → IsError (created_reply (err e))
unfolding created_reply
created_reply-IsError (invalid m) = (400, code_validation_failed, m, refl)
created_reply-IsError (of_video Video.video_not_found) =
    (404, code_not_found, text "video not found", refl)
created_reply-IsError (of_video Video.forbidden) =
    (403, code_forbidden, text "you do not own the linked video", refl)
created_reply-IsError video_already_taken =
    (409, code_conflict, text "a product already exists for this video", refl)
created_reply-IsError (of_video (Video.invalid m)) =
    (500, code_internal, text "create product failed", refl)
created_reply-IsError (of_video Video.failure) =
    (500, code_internal, text "create product failed", refl)
created_reply-IsError product_not_found = (500, code_internal, text "create product failed", refl)
created_reply-IsError failure = (500, code_internal, text "create product failed", refl)

module _ (C : Caches) (T : UuidText) (R : Redis) (B : Blooms) where
  -- What a response says of the table of products.
  abbrev pub IsPosted :
      (Uuid → Type 0)
      → Creating
      → Option CreateInput
      → State R.Store B.Store
      → Reply Product × State R.Store B.Store
      → Type 0
  IsPosted Caller c body s r =
      ((user : Uuid) × (i : CreateInput) × Caller user
        × (body ≡ some i)
        × IsOwner C T R B user i.video_id s.videos
        × (r.0 ≡ created (new_product c.id c.clock i))
        × (r.1.products ≡ s.products ++ new_product c.id c.clock i ∷ []))
      ⊎ (IsError r.0 × (r.1.products ≡ s.products))

  post_product-IsPosted :
      (Caller : Uuid → Type 0) (url_parse : UrlParse) (c : Creating) (body : Option CreateInput)
      (user : Uuid) (s : State R.Store B.Store)
      → Caller user
      → HasKeys C
      → IsSound C T R B s
      → IsPosted Caller c body s (post_product C T R B url_parse c body user s)
  unfolding post_product
  post_product-IsPosted Caller url_parse c none user s a k h =
      inr ((400, code_validation_failed, text "invalid request body", refl), refl)
  post_product-IsPosted Caller url_parse c (some i) user s a k h =
      elim (create_product-IsOwner C T R B url_parse c user i s k h) [
        | inl (e, f, g) ↦ inr (rw f (created_reply-IsError e), g)
        | inr (valid, owner, fresh, f, g) ↦
            inl (user, i, a, refl, owner, unfold created_reply in (ap created_reply f), g)
      ]

  -- A request to create a product either carries a bearer token, not expired, of the user who owns
  -- the video that its body names, and is answered 201 with the product that was added; or is
  -- answered with an error and adds no product: while the caches, under the keys they are built
  -- with, agree with the tables and no two products have one video, and whichever calls get
  -- through.
  pub post_products-IsPosted :
      (S : Signer) (now : ℕ) (header : Bytes) (url_parse : UrlParse) (c : Creating)
      (body : Option CreateInput) (s : State R.Store B.Store)
      → HasKeys C
      → IsSound C T R B s
      → IsPosted
          (IsBearer S now header)
          c
          body
          s
          (post_products C T R B S now header url_parse c body s)
  unfolding post_products
  post_products-IsPosted S now header url_parse c body s k h =
      elim (require_auth-optional_auth S now header (post_product C T R B url_parse c body) s) [
        | inl (user, bearer, seen, through) ↦
            rw through
              (post_product-IsPosted (IsBearer S now header) url_parse c body user s bearer k h)
        | inr (message, anonymous, stopped) ↦
            rw stopped (inr ((401, code_unauthenticated, message, refl), refl))
      ]
