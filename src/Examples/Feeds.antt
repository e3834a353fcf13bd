-- ===== src/Examples/Feeds.antt =====
-- The feed, on a few videos.
use vidmerce.Prelude.{
  ℕ, ◌≡◌, ◌≢◌, refl, true, List, [], ◌∷◌, Option, none, some, Bytes, arith, ◌+◌, map, take,
}
use mathlib.Core.List.{Permᴰ}
use mathlib.Core.List.Permᴰ
use vidmerce.Prelude.Int.{pos}
use vidmerce.Uuid.{Uuid, letters}
use vidmerce.Redis.Sorted.{Sets, sets_in_memory}
use vidmerce.Feed.{Video, Cursor, Codec, is_before, fetch, cursor_of}
use vidmerce.Http as Http
use vidmerce.Http.Feeds.{Served}
use vidmerce.Feed.Traversal.{IsOrdered, traverse, traverse_complete}
use vidmerce.Feed.Push.{
  feed_global_key, unix_epoch, entry, nothing, added, both, publish, warmup, push_fetch,
}
use vidmerce.Feed.Push.Agreement.{push_fetch-fetch}
use vidmerce.Feed.Push.Newest.{IsChronological, publish-newest, warmup-newest}
use vidmerce.Feed.Push.Traversal.{push_traverse, push_traverse_complete}

parse_pair : Bytes → Option Cursor
parse_pair (t ∷ i ∷ []) = some (record { created_at = t; id = i })
parse_pair _ = none

pairs-ne-nil : (c : Cursor) → ◌≢◌ {A = Bytes} (c.created_at ∷ c.id ∷ []) []
pairs-ne-nil c e = cc

-- Two characters for a cursor.
abbrev pairs : Codec
pairs = record {
  encode = λ c. c.created_at ∷ c.id ∷ [];
  parse = parse_pair;
  parse-encode = λ c. unfold parse_pair in refl;
  encode-ne-nil = pairs-ne-nil;
}

abbrev video : Uuid → ℕ → Video
video id at = record {
  id = id;
  user_id = 1;
  title = [];
  description = [];
  video_url = [];
  duration_sec = pos 10;
  created_at = at;
}

-- Two of the videos have one time.
abbrev table : List Video
table = video 3 20 ∷ video 2 20 ∷ video 5 10 ∷ []

table-IsOrdered : IsOrdered table
unfolding is_before
table-IsOrdered = ((refl, (refl, tt)), ((refl, tt), (tt, tt)))

traverse_complete_example : traverse pairs 3 2 [] table ≡ table
traverse_complete_example =
    traverse_complete pairs 2 table (omega arith) table-IsOrdered
      ((omega arith, omega arith), ((omega arith, omega arith), ((omega arith, omega arith), tt)))

abbrev recent : Uuid → ℕ → Video
recent id at = video id (unix_epoch + at)

abbrev newest : List Video
newest = recent 4 30 ∷ recent 2 20 ∷ recent 9 10 ∷ []

newest-IsChronological : IsChronological newest
newest-IsChronological = (
  ((omega arith, omega arith), ((omega arith, omega arith), tt)),
  (((omega arith, omega arith), tt), (tt, tt)),
)

-- Two of the videos are in the sorted set.
abbrev two : Sets
two k = map (entry letters) (take 2 newest)

abbrev nowhere : Sets
nowhere k = []

-- The second row first.
flip : List Video → List Video
flip [] = []
flip (v ∷ []) = v ∷ []
flip (v ∷ w ∷ vs) = w ∷ v ∷ vs

flip-perm : (vs : List Video) → Permᴰ (flip vs) vs
unfolding flip
flip-perm [] = Permᴰ.nil
flip-perm (v ∷ []) = Permᴰ.refl (v ∷ [])
flip-perm (v ∷ w ∷ vs) = Permᴰ.swap refl refl

push_fetch-fetch_example :
    push_fetch pairs letters sets_in_memory flip true true (cursor_of (recent 4 30)) 1 newest two
    ≡ fetch pairs true (cursor_of (recent 4 30)) 1 (take 2 newest)
push_fetch-fetch_example =
    push_fetch-fetch pairs letters sets_in_memory flip 2 1 (cursor_of (recent 4 30)) newest two
      flip-perm refl ((omega arith, (omega arith, tt)), ((omega arith, tt), (tt, tt)))
      (omega arith, (omega arith, tt)) ((λ e. refl), ((λ e. absurd (omega (arith, e))), tt))

push_traverse_complete_example :
    push_traverse pairs letters sets_in_memory flip 2 1 [] newest two ≡ take 2 newest
push_traverse_complete_example =
    push_traverse_complete pairs letters sets_in_memory flip 2 1 newest two flip-perm (omega arith)
      refl newest-IsChronological ((omega arith, omega arith), ((omega arith, omega arith), tt))
      (omega arith, (omega arith, tt))

publish-newest_example :
    (sets_in_memory.ranked feed_global_key
        (publish letters sets_in_memory 2 nothing (recent 5 40) two)
      ≡ map (entry letters) (take 2 newest))
    × (sets_in_memory.ranked feed_global_key
          (publish letters sets_in_memory 2 added (recent 5 40) two)
        ≡ map (entry letters) (take 3 (recent 5 40 ∷ newest)))
    × (sets_in_memory.ranked feed_global_key
          (publish letters sets_in_memory 2 both (recent 5 40) two)
        ≡ map (entry letters) (take 2 (recent 5 40 ∷ newest)))
publish-newest_example =
    publish-newest letters sets_in_memory 2 2 (recent 5 40) newest two (omega arith)
      (omega arith, (omega arith, (omega arith, tt)))
      ((omega arith, omega arith), ((omega arith, omega arith), ((omega arith, omega arith), tt)))
      refl

warmup-newest_example :
    ((warmup letters sets_in_memory 2 true true newest nowhere).0 ≡ true)
    × (sets_in_memory.ranked feed_global_key
          (warmup letters sets_in_memory 2 true true newest nowhere).1
        ≡ map (entry letters) (take 2 newest))
warmup-newest_example =
    warmup-newest letters sets_in_memory 2 newest nowhere (omega arith) newest-IsChronological
      (omega arith, (omega arith, (omega arith, tt))) refl

-- A page of the handler's default size.
abbrev first_page : Served
first_page = record { items = table; next_cursor = []; limit = 20 }
