-- ===== src/Video/Service/Durations.antt =====
-- The length of a new video, for the view path.
use vidmerce.Prelude.{
  ℕ, ◌≡◌, true, false, Option, none, some, arith, inl, inr, Bool-cases, Option-cases,
}
use vidmerce.Prelude.Int.{ℤ, pos, negsuc, leb_ℤ, ltb_ℤ}
use vidmerce.Prelude.Decimal.{format_int, parse_int-format_int}
use vidmerce.Prelude.Results.{ok}
use vidmerce.Uuid.{Uuid, UuidText}
use vidmerce.Redis.{Redis}
use vidmerce.Cache.{JsonCache, cache_set}
use vidmerce.View.Service.{duration_key, duration_get, duration_set, parse_duration, positive}
use vidmerce.Feed.{Video}
use vidmerce.Video.{CreateInput, UrlParse, validate}
use vidmerce.Video.Repository.{insert_row, create}
use vidmerce.Video.Service.{Creating, State, announce, unless, create_video}

validate-low :
    (url_parse : UrlParse) (i : CreateInput)
    → validate url_parse i ≡ none
    → leb_ℤ i.duration_sec (pos 0) ≡ false
unfolding validate
validate-low url_parse i h = ground (arith, h)

validate-high :
    (url_parse : UrlParse) (i : CreateInput)
    → validate url_parse i ≡ none
    → ltb_ℤ (pos 3600) i.duration_sec ≡ false
unfolding validate
validate-high url_parse i h = ground (arith, h)

parse_duration-format_int :
    (sec : ℤ)
    → leb_ℤ sec (pos 0) ≡ false
    → ltb_ℤ (pos 3600) sec ≡ false
    → parse_duration (some (format_int sec)) ≡ some sec
unfolding parse_duration positive
parse_duration-format_int (pos n) low high =
    rw (parse_int-format_int n (ground (arith, low, high))) (ground (arith, low))
parse_duration-format_int (negsuc n) low high = absurd (ground (arith, low))

module _ (T : UuidText) (R : Redis) where
  duration_get-duration_set :
      (ttl : ℕ) (id : Uuid) (sec : ℤ) (s : R.Store)
      → leb_ℤ sec (pos 0) ≡ false
      → ltb_ℤ (pos 3600) sec ≡ false
      → duration_get T R true id (duration_set T R true ttl id sec s).1 ≡ some sec
  unfolding duration_get duration_set
  duration_get-duration_set ttl id sec s low high =
      rw (low, R.get-set (duration_key T id) (format_int sec) ttl s)
        (parse_duration-format_int sec low high)

module _ (C : JsonCache Video) (T : UuidText) (R : Redis) {H : Type 0} where
  announced_duration :
      (c : Creating) (hook : Option (Video → H → H)) (v : Video) (s : State R.Store H)
      → c.duration_up ≡ true
      → leb_ℤ v.duration_sec (pos 0) ≡ false
      → ltb_ℤ (pos 3600) v.duration_sec ≡ false
      → duration_get T R true v.id (announce C T R c hook (ok v, insert_row v s.table) s).1.store
        ≡ some v.duration_sec
  unfolding announce
  announced_duration c hook v s up low high = rw up (
      duration_get-duration_set T R c.duration_ttl v.id v.duration_sec
        (cache_set C R c.cache_up (T.to_string v.id) v s.store).1 low high)

  -- When a video is created and its length reaches Redis, the view path reads that length back
  -- where it reaches Redis too: it is the one that the request named.
  pub create_video-duration_get :
      (url_parse : UrlParse) (c : Creating) (hook : Option (Video → H → H)) (user : Uuid)
      (i : CreateInput) (s : State R.Store H) (v : Video)
      → (create_video C T R url_parse c hook user i s).0 ≡ ok v
      → c.duration_up ≡ true
      → duration_get T R true v.id (create_video C T R url_parse c hook user i s).1.store
        ≡ some i.duration_sec
  unfolding create_video unless create
  create_video-duration_get url_parse c hook user i s v r up =
      elim (Option-cases (validate url_parse i)) [
        | inr (e, bad) ↦ absurd (cc (rw bad at r))
        | inl good ↦ elim (Bool-cases c.insert_up) [
          | inr down ↦ absurd (cc (rw (good, down) at r))
          | inl on ↦
              let same : v.id ≡ c.id = cc (rw (good, on) at r) in
              rw (good, on, same)
                (announced_duration c hook _ s up (validate-low url_parse i good)
                  (validate-high url_parse i good))
        ]
      ]
