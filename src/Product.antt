-- ===== src/Product.antt =====
-- internal/product/domain.go. Texts are read as ASCII where they are trimmed or raised to upper case.
pub mod Repository
pub mod Service
use vidmerce.Prelude.{
  ℕ, Bool, true, false, ◌&&◌, ◌||◌, not, [], ◌∷◌, ◌-◌, Option, none, some, Bytes, text, ◌==◌, ltb,
  leb, length, if◌then◌else◌,
}
use vidmerce.Prelude.Int.{ℤ, pos, ltb_ℤ}
use vidmerce.Uuid.{Uuid, uuid_nil}
use vidmerce.Auth.Email.{trim_space}
use vidmerce.Video.{UrlParse, is_web}
use vidmerce.Video as Video

-- The errors of the package; `failure` is any other.
pub data Error : Type 0 where
  invalid : Bytes → Error
  product_not_found : Error
  video_already_taken : Error
  of_video : Video.Error → Error
  failure : Error

pub record Product : Type 0 where
  pub id : Uuid
  pub video_id : Uuid
  pub name : Bytes
  pub price_cents : ℤ
  pub currency : Bytes
  pub image_url : Bytes
  pub created_at : ℕ

pub record CreateInput : Type 0 where
  pub video_id : Uuid
  pub name : Bytes
  pub price_cents : ℤ
  pub currency : Bytes
  pub image_url : Bytes

upper : ℕ → ℕ
upper c = if leb 97 c && leb c 122 then c - 32 else c

-- `strings.ToUpper`, on ASCII.
unfoldable pub to_upper : Bytes → Bytes
unfolding upper
to_upper [] = []
to_upper (c ∷ cs) = upper c ∷ to_upper cs

-- `Validate`; `none` where the input is accepted.
unfoldable pub validate : UrlParse → CreateInput → Option Error
validate url_parse i =
    let name = trim_space i.name in
    if i.video_id == uuid_nil
    then some (invalid (text "video_id is required"))
    else if length name == 0
    then some (invalid (text "name is required"))
    else if ltb 200 (length name)
    then some (invalid (text "name must be at most 200 characters"))
    else if ltb_ℤ i.price_cents (pos 0)
    then some (invalid (text "price_cents must be non-negative"))
    else if ltb_ℤ (pos 1000000000) i.price_cents
    then some (invalid (text "price_cents exceeds maximum"))
    else if not (length (to_upper (trim_space i.currency)) == 3)
    then some (invalid (text "currency must be a 3-letter ISO 4217 code"))
    else if length (trim_space i.image_url) == 0
    then some (invalid (text "image_url is required"))
    else if not (is_web (url_parse i.image_url))
    then some (invalid (text "image_url must be a valid http(s) URL"))
    else if ltb 2048 (length i.image_url)
    then some (invalid (text "image_url must be at most 2048 characters"))
    else none
