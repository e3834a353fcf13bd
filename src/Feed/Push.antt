-- ===== src/Feed/Push.antt =====
-- internal/feed/push.go. Times are in microseconds since the zero time.
pub mod Order
pub mod Agreement
pub mod Newest
pub mod Traversal
use vidmerce.Prelude.{
  ℕ, zero, suc, ◌+◌, ◌-◌, Bool, true, false, List, [], ◌∷◌, map, Option, none, some, Bytes, text,
  ◌==◌, ltb, if◌then◌else◌,
}
use vidmerce.Prelude.Int.{ℤ, pos, negsuc}
use vidmerce.Uuid.{Uuid, UuidText}
use vidmerce.Redis.Sorted.{Entry, SortedSets}
use vidmerce.Feed.{Video, Cursor, zero_cursor, is_zero, Codec, feed_page, Page, cut_page}
use vidmerce.Video.Repository.{find_by_ids}

abbrev pub feed_global_key : Bytes
feed_global_key = text "feed:global"

-- `NewPushFetcher`
unfoldable pub new_push_fetcher : ℤ → ℕ
new_push_fetcher (pos zero) = 1000
new_push_fetcher (pos (suc n)) = suc n
new_push_fetcher (negsuc n) = 1000

-- 1970-01-01, in microseconds since the zero time.
pub unix_epoch : ℕ
unix_epoch = 62135596800000000

-- `scoreFor`, of a time that is not before 1970.
unfoldable pub score_for : ℕ → ℕ
score_for t = t - unix_epoch

unfoldable pub entry : UuidText → Video → Entry
unfolding score_for
entry T v = (T.to_string v.id, score_for v.created_at)

-- How much of the pipeline reached the server.
pub data Sent : Type 0 where
  nothing : Sent
  added : Sent
  both : Sent

unfoldable pub publish : UuidText → (Z : SortedSets) → ℕ → Sent → Video → Z.Store → Z.Store
unfolding entry
publish T Z cap nothing v s = s
publish T Z cap added v s = Z.z_add feed_global_key (entry T v ∷ []) s
publish T Z cap both v s =
    Z.z_rem_range_by_rank feed_global_key (pos 0) (negsuc cap)
      (Z.z_add feed_global_key (entry T v ∷ []) s)

unfoldable pub load : UuidText → (Z : SortedSets) → Bool → List Video → Z.Store → Bool × Z.Store
unfolding entry
load T Z up [] s = (true, s)
load T Z up (v ∷ vs) s =
    if up then (true, Z.z_add feed_global_key (map (entry T) (v ∷ vs)) s) else (false, s)

-- `Warmup`, and whether it succeeds.
unfoldable pub warmup :
    UuidText → (Z : SortedSets) → ℕ → Bool → Bool → List Video → Z.Store → Bool × Z.Store
unfolding load
warmup T Z cap db_up zset_up table s = elim (feed_page db_up zero_cursor cap table) [
  | none ↦ (false, s)
  | some rows ↦ load T Z zset_up rows s
]

-- The upper bound of the range.
unfoldable pub bound : Cursor → Option ℕ
unfolding score_for
bound c = if is_zero c then none else some (score_for c.created_at)

-- A member that is no identifier is left out.
unfoldable pub parse_each : UuidText → List Bytes → List Uuid
parse_each T [] = []
parse_each T (s ∷ ss) = elim (T.parse s) [ some id ↦ id ∷ parse_each T ss | none ↦ parse_each T ss ]

-- The map `order`: an identifier that stands twice has its last index.
unfoldable pub index_from : ℕ → List Uuid → Uuid → Option ℕ
index_from i [] u = none
index_from i (id ∷ ids) u = elim (index_from (suc i) ids u) [
  | some j ↦ some j
  | none ↦ if id == u then some i else none
]

unfoldable pub or_first : Option ℕ → ℕ
or_first none = 0
or_first (some i) = i

-- The inner loop: what is placed already is listed backwards, from the end of the sorted part.
unfoldable pub sink : (Uuid → Option ℕ) → Video → List Video → List Video
unfolding or_first
sink order v [] = v ∷ []
sink order v (p ∷ ps) =
    let rest = sink order v ps in
    if ltb (or_first (order v.id)) (or_first (order p.id)) then p ∷ rest else v ∷ p ∷ ps

unfoldable pub rev_onto : List Video → List Video → List Video
rev_onto [] vs = vs
rev_onto (p ∷ ps) vs = rev_onto ps (p ∷ vs)

unfoldable pub sort_from : (Uuid → Option ℕ) → List Video → List Video → List Video
unfolding sink rev_onto
sort_from order placed [] = rev_onto placed []
sort_from order placed (v ∷ vs) = sort_from order (sink order v placed) vs

-- `sortByOrder`
unfoldable pub sort_by_order : (Uuid → Option ℕ) → List Video → List Video
unfolding sort_from
sort_by_order order vs = sort_from order [] vs

unfoldable pub restored : Codec → ℕ → List Uuid → Option (List Video) → Option Page
unfolding index_from sort_by_order
restored K limit ids none = none
restored K limit ids (some videos) =
    some (cut_page K limit (sort_by_order (index_from 0 ids) videos))

unfoldable pub hydrate :
    Codec → UuidText → (List Video → List Video) → Bool → ℕ → List Video → List Bytes → Option Page
unfolding parse_each restored
hydrate K T arrange up limit table [] = some (record { items = []; next_cursor = [] })
hydrate K T arrange up limit table (m ∷ ms) =
    let ids = parse_each T (m ∷ ms) in restored K limit ids (find_by_ids arrange up ids table)

-- `PushFetcher.Fetch`; `none` is an error.
unfoldable pub push_fetch :
    Codec
    → UuidText
    → (Z : SortedSets) → (List Video → List Video)
    → Bool
    → Bool
    → Cursor
    → ℕ
    → List Video
    → Z.Store
    → Option Page
unfolding hydrate bound
push_fetch K T Z arrange zset_up db_up c limit table s =
    if limit == 0
    then none
    else (if zset_up
        then hydrate K T arrange db_up limit table
            (Z.z_rev_range_by_score feed_global_key (bound c) (limit + 1) s)
        else none)
