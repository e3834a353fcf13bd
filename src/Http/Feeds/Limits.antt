-- ===== src/Http/Feeds/Limits.antt =====
-- How long a page of the feed is.
use vidmerce.Prelude.{ℕ, ◌≤◌, ◌<◌, ◌≡◌, [], Option, some, Bytes, ◌⊎◌}
use vidmerce.Prelude.Int.{ℤ, pos_part}
use vidmerce.Http as Http
use vidmerce.Http.{Reply, error}
use vidmerce.Http.Feeds.{Served}
use vidmerce.Feed.{Cursor, Page}

-- Which limits a handler serves.
abbrev pub IsLimit : ℤ × ℤ → Bytes → ℕ → Type 0
IsLimit sizes raw limit =
    (0 < limit) × (((raw ≡ []) × (limit ≡ pos_part sizes.0)) ⊎ (limit ≤ pos_part sizes.1))

-- What a response that serves a page says.
abbrev pub IsServed : (Cursor → ℕ → Option Page) → ℤ × ℤ → Bytes → Option Cursor → Served → Type 0
IsServed fetcher sizes raw o r =
    (c : Cursor) × (o ≡ some c)
    × (fetcher c r.limit ≡ some (record { items = r.items; next_cursor = r.next_cursor }))
    × IsLimit sizes raw r.limit
