-- ===== src/Like/Repository.antt =====
-- internal/like/repository.go: the statements that the worker and the reconciler run in Postgres.
-- A table is the list of its rows, in no order that matters; each statement is one transaction.
-- `up` is whether the statement gets through; one that fails changes nothing.
pub mod Counts
pub mod Settled
use vidmerce.Prelude.{
  ℕ, zero, suc, ◌+◌, ◌-◌, Bool, true, false, ◌&&◌, not, List, [], ◌∷◌, ◌++◌, Option, none, some,
  map, length, take, if◌then◌else◌, ◌==◌, leb,
}
use vidmerce.Uuid.{Uuid}
use vidmerce.Like.Service.{Op, like, unlike}

-- A row of `video_stats`; the table's key is `video_id`.
pub record Row : Type 0 where
  pub video_id : Uuid
  pub likes_count : ℕ
  pub updated_at : ℕ

-- `likes` has the key (user_id, video_id), and refers to `users` and `videos`.
pub record Db : Type 0 where
  pub users : List Uuid
  pub videos : List Uuid
  pub likes : List (Uuid × Uuid)
  pub video_stats : List Row

pub record Result : Type 0 where
  pub changed : Bool
  pub new_count : ℕ
  pub was_noop : Bool

unfoldable pub has_edge : Uuid → Uuid → List (Uuid × Uuid) → Bool
has_edge u v [] = false
has_edge u v ((x, y) ∷ es) = if u == x && v == y then true else has_edge u v es

unfoldable pub delete_edge : Uuid → Uuid → List (Uuid × Uuid) → List (Uuid × Uuid)
delete_edge u v [] = []
delete_edge u v ((x, y) ∷ es) =
    if u == x && v == y then delete_edge u v es else (x, y) ∷ delete_edge u v es

unfoldable pub contains : Uuid → List Uuid → Bool
contains v [] = false
contains v (x ∷ xs) = if v == x then true else contains v xs

-- SELECT likes_count FROM video_stats WHERE video_id = v
unfoldable pub stored : Uuid → List Row → Option ℕ
stored v [] = none
stored v (r ∷ rs) = if v == r.video_id then some r.likes_count else stored v rs

-- UPDATE video_stats SET likes_count = f(likes_count), updated_at = NOW() WHERE video_id = v
unfoldable pub set_count : (ℕ → ℕ) → Uuid → ℕ → List Row → List Row
set_count f v now [] = []
set_count f v now (r ∷ rs) =
    if v == r.video_id
    then record r { likes_count = f r.likes_count; updated_at = now } ∷ set_count f v now rs
    else r ∷ set_count f v now rs

abbrev pub coalesce : Option ℕ → ℕ
coalesce none = 0
coalesce (some n) = n

-- What the final SELECT of both statements returns: the updated count, else the stored one, else 0.
answer : Bool → (ℕ → ℕ) → Option ℕ → Result
answer changed f none = record { changed = changed; new_count = 0; was_noop = not changed }
answer changed f (some n) = record {
  changed = changed;
  new_count = if changed then f n else n;
  was_noop = not changed;
}

-- `applyLikeSQL`; a row that refers to no user or video is an error.
unfoldable pub apply_like : Uuid → Uuid → ℕ → Db → Option (Result × Db)
unfolding answer
apply_like u v now d =
    if has_edge u v d.likes
    then some (answer false suc (stored v d.video_stats), d)
    else if contains u d.users && contains v d.videos
    then some (
      answer true suc (stored v d.video_stats),
      record d { likes = (u, v) ∷ d.likes; video_stats = set_count suc v now d.video_stats },
    )
    else none

-- `applyUnlikeSQL`; GREATEST(n - 1, 0) is subtraction that stops at 0.
unfoldable pub apply_unlike : Uuid → Uuid → ℕ → Db → Option (Result × Db)
unfolding answer
apply_unlike u v now d =
    if has_edge u v d.likes
    then some (
      answer true (λ n. n - 1) (stored v d.video_stats),
      record d {
        likes = delete_edge u v d.likes;
        video_stats = set_count (λ n. n - 1) v now d.video_stats;
      },
    )
    else some (answer false (λ n. n - 1) (stored v d.video_stats), d)

-- `pgRepo.Apply`
unfoldable pub apply : Bool → Uuid → Uuid → Op → ℕ → Db → Option (Result × Db)
apply true u v like now d = apply_like u v now d
apply true u v unlike now d = apply_unlike u v now d
apply false u v op now d = none

-- `Count`: no row is an error.
unfoldable pub count : Bool → Uuid → Db → Option ℕ
count up v d = if up then stored v d.video_stats else none

-- SELECT COUNT(*) FROM likes WHERE video_id = v
unfoldable pub edges_of : Uuid → List (Uuid × Uuid) → ℕ
edges_of v [] = 0
edges_of v ((x, y) ∷ es) = if v == y then suc (edges_of v es) else edges_of v es

unfoldable pub count_from_edges : Bool → Uuid → Db → Option ℕ
count_from_edges up v d = if up then some (edges_of v d.likes) else none

-- The rows that `… WHERE video_id = v AND likes_count <> exact` selects.
unfoldable pub differing : Uuid → ℕ → List Row → ℕ
differing v exact [] = 0
differing v exact (r ∷ rs) =
    if v == r.video_id && not (r.likes_count == exact)
    then suc (differing v exact rs)
    else differing v exact rs

unfoldable pub rewrite : Uuid → ℕ → ℕ → List Row → List Row
rewrite v exact now [] = []
rewrite v exact now (r ∷ rs) =
    if v == r.video_id && not (r.likes_count == exact)
    then record r { likes_count = exact; updated_at = now } ∷ rewrite v exact now rs
    else r ∷ rewrite v exact now rs

-- `ReconcileCounter`, with the number of rows modified.
unfoldable pub reconcile_counter : Bool → Uuid → ℕ → ℕ → Db → Option (ℕ × Db)
unfolding differing rewrite
reconcile_counter up v exact now d =
    if up
    then some (
      differing v exact d.video_stats,
      record d { video_stats = rewrite v exact now d.video_stats },
    )
    else none

-- ORDER BY updated_at ASC; rows with one timestamp keep their order.
unfoldable pub insert_row : Row → List Row → List Row
insert_row r [] = r ∷ []
insert_row r (x ∷ xs) = if leb r.updated_at x.updated_at then r ∷ x ∷ xs else x ∷ insert_row r xs

unfoldable pub by_updated_at : List Row → List Row
by_updated_at [] = []
by_updated_at (r ∷ rs) = insert_row r (by_updated_at rs)

-- `SampleVideoIDs`; a limit that is not positive gives no ids.
unfoldable pub sample_video_ids : Bool → ℕ → Db → Option (List Uuid)
unfolding by_updated_at insert_row
sample_video_ids up limit d =
    if limit == 0
    then some []
    else if up
    then some (take limit (map (λ r. r.video_id) (by_updated_at d.video_stats)))
    else none
