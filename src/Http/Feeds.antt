-- ===== src/Http/Feeds.antt =====
-- internal/feed/handler.go, over either fetcher.
pub mod Limits
use vidmerce.Prelude.{
  ℕ, Bool, true, false, ◌||◌, [], ◌∷◌, List, Option, none, some, Bytes, text, if◌then◌else◌,
}
use vidmerce.Prelude.Int.{ℤ, pos, leb_ℤ, ltb_ℤ, pos_part}
use vidmerce.Prelude.Decimal.{parse_int}
use vidmerce.Http as Http
use vidmerce.Http.{Reply, error, code_validation_failed, code_internal}
use vidmerce.Feed.{Video, Cursor, Codec, decode_cursor, Page}

-- `NewHandler`: the default size of a page and the largest.
unfoldable pub new_handler : ℤ → ℤ → ℤ × ℤ
new_handler page_default page_max =
    let chosen = if leb_ℤ page_default (pos 0) then pos 20 else page_default in
    (chosen, if leb_ℤ page_max (pos 0) || ltb_ℤ page_max chosen then pos 50 else page_max)

-- The items and the `Pagination`.
pub record Served : Type 0 where
  pub items : List Video
  pub next_cursor : Bytes
  pub limit : ℕ

unfoldable pub at_most : ℤ → Option ℤ → Option ℕ
at_most page_max none = none
at_most page_max (some n) =
    if leb_ℤ n (pos 0) then none else some (pos_part (if ltb_ℤ page_max n then page_max else n))

-- The query's limit; `none` is refused.
unfoldable pub limit_of : ℤ × ℤ → Bytes → Option ℕ
unfolding at_most
limit_of (page_default, page_max) [] = some (pos_part page_default)
limit_of (page_default, page_max) (c ∷ cs) = at_most page_max (parse_int (c ∷ cs))

unfoldable pub served : ℕ → Option Page → Reply Served
served limit none = error 500 code_internal (text "feed query failed")
served limit (some page) =
    Http.ok (record { items = page.items; next_cursor = page.next_cursor; limit = limit })

unfoldable pub limited : (Cursor → ℕ → Option Page) → Cursor → Option ℕ → Reply Served
unfolding served
limited fetcher c none = error 400 code_validation_failed (text "limit must be a positive integer")
limited fetcher c (some limit) = served limit (fetcher c limit)

unfoldable pub from_cursor :
    (Cursor → ℕ → Option Page) → ℤ × ℤ → Bytes → Option Cursor → Reply Served
unfolding limited limit_of
from_cursor fetcher sizes raw none = error 400 code_validation_failed (text "invalid cursor")
from_cursor fetcher sizes raw (some c) = limited fetcher c (limit_of sizes raw)

-- `Get`
unfoldable pub get_feed : Codec → (Cursor → ℕ → Option Page) → ℤ × ℤ → Bytes → Bytes → Reply Served
unfolding from_cursor
get_feed K fetcher sizes cursor raw = from_cursor fetcher sizes raw (decode_cursor K cursor)
