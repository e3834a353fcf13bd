-- ===== src/Video/Repository.antt =====
-- internal/video/repository.go. The table of videos is listed in the order of its index
-- `videos_feed_idx`, newest first.
use vidmerce.Prelude.{ℕ, Bool, false, ◌||◌, ◌==◌, List, [], ◌∷◌, Option, none, some, if◌then◌else◌}
use vidmerce.Prelude.Results.{Result, ok, err}
use vidmerce.Uuid.{Uuid}
use vidmerce.Auth.Email.{trim_space}
use vidmerce.Feed.{Video, is_before, cursor_of}
use vidmerce.Video.{Error, video_not_found, failure, CreateInput}

-- A new row stands before the rows that the index lists after it.
unfoldable pub insert_row : Video → List Video → List Video
insert_row v [] = v ∷ []
insert_row v (w ∷ ws) =
    let rest = insert_row v ws in if is_before (cursor_of v) w then v ∷ w ∷ ws else w ∷ rest

-- `Create`, with the id and the time that the database assigns.
unfoldable pub create :
    Bool → Uuid → ℕ → Uuid → CreateInput → List Video → Result Error Video × List Video
unfolding insert_row
create up id now user i table =
    let v : Video = record {
      id = id;
      user_id = user;
      title = trim_space i.title;
      description = i.description;
      video_url = trim_space i.video_url;
      duration_sec = i.duration_sec;
      created_at = now;
    } in
    if up then (ok v, insert_row v table) else (err failure, table)

-- SELECT ... WHERE id = $1
unfoldable pub lookup : Uuid → List Video → Option Video
lookup id [] = none
lookup id (v ∷ vs) = let rest = lookup id vs in if v.id == id then some v else rest

unfoldable pub found : Option Video → Result Error Video
found none = err video_not_found
found (some v) = ok v

-- `FindByID`
unfoldable pub find_by_id : Bool → Uuid → List Video → Result Error Video
unfolding found lookup
find_by_id up id table = if up then found (lookup id table) else err failure

-- id = ANY(ids)
unfoldable pub is_any : Uuid → List Uuid → Bool
is_any u [] = false
is_any u (i ∷ ids) = i == u || is_any u ids

unfoldable pub selected : List Uuid → List Video → List Video
unfolding is_any
selected ids [] = []
selected ids (v ∷ vs) = let rest = selected ids vs in if is_any v.id ids then v ∷ rest else rest

-- `FindByIDs`, with the order in which the database returns the rows; `none` is an error.
unfoldable pub find_by_ids :
    (List Video → List Video) → Bool → List Uuid → List Video → Option (List Video)
find_by_ids arrange up [] table = some []
find_by_ids arrange up (i ∷ ids) table =
    if up then some (arrange (selected (i ∷ ids) table)) else none
