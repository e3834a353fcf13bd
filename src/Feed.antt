-- ===== src/Feed.antt =====
-- internal/feed/domain.go and pull.go, with the query of internal/video/repository.go. Times are in
-- microseconds since the zero time, so that 0 is the zero value of `time.Time`; a table of videos is
-- listed in the order of its index `videos_feed_idx`, newest first.
pub mod Traversal
pub mod Push
use vidmerce.Prelude.{
  ℕ, zero, suc, ◌+◌, ◌-◌, ◌≡◌, ◌≢◌, Bool, true, false, ◌&&◌, ◌||◌, List, [], ◌∷◌, ◌++◌, Option,
  none, some, Bytes, ◌==◌, ltb, length, take, get_elem?, if◌then◌else◌,
}
use vidmerce.Prelude.Int.{ℤ}
use vidmerce.Uuid.{Uuid, uuid_nil}

pub record Video : Type 0 where
  pub id : Uuid
  pub user_id : Uuid
  pub title : Bytes
  pub description : Bytes
  pub video_url : Bytes
  pub duration_sec : ℤ
  pub created_at : ℕ

pub record Cursor : Type 0 where
  pub created_at : ℕ
  pub id : Uuid

abbrev pub zero_cursor : Cursor
zero_cursor = record { created_at = 0; id = uuid_nil }

-- `IsZero`
unfoldable pub is_zero : Cursor → Bool
is_zero c = c.id == uuid_nil && c.created_at == 0

abbrev pub cursor_of : Video → Cursor
cursor_of v = record { created_at = v.created_at; id = v.id }

-- The JSON and base64 of `Encode` and `DecodeCursor`.
pub record Codec : Type 0 where
  pub encode : Cursor → Bytes
  pub parse : Bytes → Option Cursor
  pub parse-encode : (c : Cursor) → parse (encode c) ≡ some c
  pub encode-ne-nil : (c : Cursor) → encode c ≢ []

unfoldable pub checked : Option Cursor → Option Cursor
checked none = none
checked (some c) = if c.id == uuid_nil || c.created_at == 0 then none else some c

-- `DecodeCursor`; `none` is ErrInvalidCursor.
unfoldable pub decode_cursor : Codec → Bytes → Option Cursor
unfolding checked
decode_cursor K [] = some zero_cursor
decode_cursor K (b ∷ bs) = checked (K.parse (b ∷ bs))

-- (created_at, id) < ($1, $2)
unfoldable pub is_before : Cursor → Video → Bool
is_before c v = ltb v.created_at c.created_at || (v.created_at == c.created_at && ltb v.id c.id)

-- The rows of the WHERE clause.
unfoldable pub rows_before : Cursor → List Video → List Video
rows_before c [] = []
rows_before c (v ∷ vs) = let rest = rows_before c vs in if is_before c v then v ∷ rest else rest

unfoldable pub visible : Cursor → List Video → List Video
visible c table = if is_zero c then table else rows_before c table

-- `FeedPage`; `none` is an error of the query.
unfoldable pub feed_page : Bool → Cursor → ℕ → List Video → Option (List Video)
feed_page up c limit table =
    if limit == 0 then some [] else if up then some (take limit (visible c table)) else none

pub record Page : Type 0 where
  pub items : List Video
  pub next_cursor : Bytes

unfoldable pub encoded : Codec → Option Video → Bytes
encoded K none = []
encoded K (some v) = K.encode (cursor_of v)

-- A page of at most `limit` rows, of limit + 1 that were asked for.
unfoldable pub cut_page : Codec → ℕ → List Video → Page
unfolding encoded
cut_page K limit rows =
    if ltb limit (length rows)
    then record { items = take limit rows; next_cursor = encoded K (get_elem? rows (limit - 1)) }
    else record { items = rows; next_cursor = [] }

unfoldable pub paged : Codec → ℕ → Option (List Video) → Option Page
paged K limit none = none
paged K limit (some rows) = some (cut_page K limit rows)

-- `PullFetcher.Fetch`; `none` is an error.
unfoldable pub fetch : Codec → Bool → Cursor → ℕ → List Video → Option Page
unfolding paged
fetch K up c limit table =
    if limit == 0 then none else paged K limit (feed_page up c (limit + 1) table)
