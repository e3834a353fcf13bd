-- ===== src/Product/Repository.antt =====
-- internal/product/repository.go. The table of products is a list; `video_id` is UNIQUE and refers to
-- the table of videos. The constraints on the other columns are met by what the service inserts.
use vidmerce.Prelude.{ℕ, Bool, ◌==◌, List, [], ◌∷◌, ◌++◌, Option, none, some, if◌then◌else◌}
use vidmerce.Prelude.Results.{Result, ok, err}
use vidmerce.Uuid.{Uuid}
use vidmerce.Auth.Email.{trim_space}
use vidmerce.Feed.{Video}
use vidmerce.Video.Repository as Videos
use vidmerce.Product.{
  Error, product_not_found, video_already_taken, failure, Product, CreateInput, to_upper,
}

-- SELECT ... WHERE id = $1
unfoldable pub lookup : Uuid → List Product → Option Product
lookup id [] = none
lookup id (p ∷ ps) = let rest = lookup id ps in if p.id == id then some p else rest

-- SELECT ... WHERE video_id = $1
unfoldable pub lookup_video : Uuid → List Product → Option Product
lookup_video video [] = none
lookup_video video (p ∷ ps) =
    let rest = lookup_video video ps in if p.video_id == video then some p else rest

unfoldable pub found : Option Product → Result Error Product
found none = err product_not_found
found (some p) = ok p

-- `FindByID`
unfoldable pub find_by_id : Bool → Uuid → List Product → Result Error Product
unfolding found
find_by_id up id products = if up then found (lookup id products) else err failure

-- `FindByVideoID`
unfoldable pub find_by_video_id : Bool → Uuid → List Product → Result Error Product
unfolding found
find_by_video_id up video products = if up then found (lookup_video video products) else err failure

-- The product of the video, if there is one, and the video that the row refers to.
unfoldable pub insert_product :
    Option Product → Option Video → Product → List Product → Result Error Product × List Product
insert_product (some q) video p products = (err video_already_taken, products)
insert_product none none p products = (err failure, products)
insert_product none (some v) p products = (ok p, products ++ p ∷ [])

-- The row, with the id and the time that the database assigns.
abbrev pub new_product : Uuid → ℕ → CreateInput → Product
new_product id now i = record {
  id = id;
  video_id = i.video_id;
  name = trim_space i.name;
  price_cents = i.price_cents;
  currency = to_upper (trim_space i.currency);
  image_url = trim_space i.image_url;
  created_at = now;
}

-- `Create`
unfoldable pub create :
    Bool → Uuid → ℕ → CreateInput → List Video → List Product → Result Error Product × List Product
unfolding insert_product
create up id now i videos products =
    if up
    then insert_product (lookup_video i.video_id products) (Videos.lookup i.video_id videos)
        (new_product id now i) products
    else (err failure, products)
