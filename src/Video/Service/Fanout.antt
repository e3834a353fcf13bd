-- ===== src/Video/Service/Fanout.antt =====
-- Creating videos in push mode.
use vidmerce.Prelude.{
  ℕ, ◌≡◌, ◌≢◌, ◌<◌, refl, List, [], ◌∷◌, map, some, arith, inl, inr, Bool-cases, Option-cases, All,
  take, ◌≤◌,
}
use vidmerce.Prelude.Results.{ok}
use vidmerce.Uuid.{Uuid, UuidText}
use vidmerce.Redis.{Redis}
use vidmerce.Redis.Sorted.{SortedSets}
use vidmerce.Cache.{JsonCache}
use vidmerce.Feed.{Video, is_before}
use vidmerce.Feed.Push.{unix_epoch, feed_global_key, entry, publish, both}
use vidmerce.Feed.Push.Agreement.{IsModern}
use vidmerce.Feed.Push.Newest.{IsOlder, IsChronological, publish-newest}
use vidmerce.Video.{CreateInput, UrlParse, validate}
use vidmerce.Video.Repository.{insert_row, create}
use vidmerce.Video.Service.{Creating, State, announce, unless, create_video}

insert_row-newest :
    (v : Video) (table : List Video) → All (IsOlder v) table → insert_row v table ≡ v ∷ table
unfolding insert_row is_before
insert_row-newest v [] h = refl
insert_row-newest v (w ∷ ws) h = ground (arith, h.0)

module _ (C : JsonCache Video) (T : UuidText) (R : Redis) (Z : SortedSets) (cap : ℕ) where
  -- The table is strictly newest first, created since 1970, and its newest `cap` videos are what
  -- the sorted set holds.
  pub record IsFed (s : State R.Store Z.Store) : Type 0 where
    pub chronological : IsChronological s.table
    pub modern : All IsModern s.table
    pub holds : Z.ranked feed_global_key s.hooked ≡ map (entry T) (take cap s.table)

  announced_IsFed :
      (c : Creating) (v : Video) (s : State R.Store Z.Store)
      → IsModern v
      → All (IsOlder v) s.table
      → IsFed s
      → IsFed (announce C T R c (some (publish T Z cap both)) (ok v, insert_row v s.table) s).1
  unfolding announce
  announced_IsFed c v s m o f = rw (insert_row-newest v s.table o) (record {
    chronological = (o, f.chronological);
    modern = (m, f.modern);
    holds = (publish-newest T Z cap cap v s.table s.hooked (omega arith) f.modern o f.holds).2;
  })

  -- In push mode, creating a video keeps the sorted set at the newest `cap` videos of the table,
  -- whatever the answer, if the pipeline of Redis gets through and the database assigns a time
  -- since 1970 and later than those in the table, and an identifier that no row has.
  pub create_video-IsFed :
      (url_parse : UrlParse) (c : Creating) (user : Uuid) (i : CreateInput)
      (s : State R.Store Z.Store)
      → unix_epoch ≤ c.clock
      → All (λ w. (w.created_at < c.clock) × (w.id ≢ c.id)) s.table
      → IsFed s
      → IsFed (create_video C T R url_parse c (some (publish T Z cap both)) user i s).1
  unfolding create_video unless create
  create_video-IsFed url_parse c user i s m o f = elim (Option-cases (validate url_parse i)) [
    | inr (e, bad) ↦ rw bad f
    | inl good ↦ elim (Bool-cases c.insert_up) [
      | inr down ↦ rw (good, down) (unfold announce in f)
      | inl up ↦ rw (good, up) (announced_IsFed c _ s m o f)
    ]
  ]
