-- ===== src/Video.antt =====
-- internal/video/domain.go. Texts are read as ASCII where they are trimmed; net/url is a parameter.
pub mod Repository
pub mod Service
use vidmerce.Prelude.{
  ℕ, Bool, true, false, ◌&&◌, ◌||◌, not, Option, none, some, Bytes, text, beq, ◌==◌, ltb, length,
  if◌then◌else◌,
}
use vidmerce.Prelude.Int.{ℤ, pos, leb_ℤ, ltb_ℤ}
use vidmerce.Auth.Email.{trim_space}

-- The errors of the package; `failure` is any other.
pub data Error : Type 0 where
  invalid : Bytes → Error
  video_not_found : Error
  forbidden : Error
  failure : Error

pub record CreateInput : Type 0 where
  pub title : Bytes
  pub description : Bytes
  pub video_url : Bytes
  pub duration_sec : ℤ

-- What `url.Parse` finds: the scheme and the host; `none` is an error.
abbrev pub UrlParse : Type 0
UrlParse = Bytes → Option (Bytes × Bytes)

unfoldable pub is_web : Option (Bytes × Bytes) → Bool
is_web none = false
is_web (some (scheme, host)) =
    (beq scheme (text "http") || beq scheme (text "https")) && not (length host == 0)

-- `Validate`; `none` where the input is accepted.
unfoldable pub validate : UrlParse → CreateInput → Option Error
unfolding is_web
validate url_parse i =
    let title = trim_space i.title in
    if length title == 0
    then some (invalid (text "title is required"))
    else if ltb 200 (length title)
    then some (invalid (text "title must be at most 200 characters"))
    else if ltb 5000 (length i.description)
    then some (invalid (text "description must be at most 5000 characters"))
    else if length (trim_space i.video_url) == 0
    then some (invalid (text "video_url is required"))
    else if not (is_web (url_parse i.video_url))
    then some (invalid (text "video_url must be a valid http(s) URL"))
    else if ltb 2048 (length i.video_url)
    then some (invalid (text "video_url must be at most 2048 characters"))
    else if leb_ℤ i.duration_sec (pos 0)
    then some (invalid (text "duration_sec is required"))
    else if ltb_ℤ (pos 3600) i.duration_sec
    then some (invalid (text "duration_sec must be at most 3600"))
    else none
