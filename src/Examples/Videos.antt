-- ===== src/Examples/Videos.antt =====
-- Videos that are created and read, in a store in memory.
use vidmerce.Prelude.{beq, ◌+◌, ◌≡◌, refl, true, [], ◌∷◌, Option, some, text, arith, map, take}
use vidmerce.Prelude.Int.{pos}
use vidmerce.Prelude.Results.{ok}
use vidmerce.Uuid.{letters}
use vidmerce.Redis.Memory.{Memory, empty, in_memory}
use vidmerce.Redis.Sorted.{Sets, sets_in_memory}
use vidmerce.Cache.{Calls}
use vidmerce.Cache.Coherence.{IsCoherent, peek, decoded}
use vidmerce.Feed.{Video}
use vidmerce.Feed.Push.{unix_epoch, entry, publish, both}
use vidmerce.Auth.Email.{trim_space}
use vidmerce.Video.{CreateInput, UrlParse, validate, is_web}
use vidmerce.Video.Repository.{find_by_id, lookup, create}
use vidmerce.Video.Service.{
  Creating, State, get_video, assert_owner, exists, create_video, unless, announce,
}
use vidmerce.Video.Service.Reads.{
  row, get_video-find_by_id, assert_owner-standing, standing, is_some,
}
use vidmerce.Video.Service.Creation.{
  IsVideoCache, IsVideoCache-IsKeyed, IsConsistent, create_video-IsConsistent,
}
use vidmerce.Video.Service.Durations.{create_video-duration_get}
use vidmerce.Video.Service.Fanout.{IsFed, create_video-IsFed}
use vidmerce.View.Service.{duration_get}
use vidmerce.Examples.Packing.{videos_cache}

-- Every URL is one of a host h.
abbrev web : UrlParse
web raw = some (text "https", text "h")

abbrev clip : Video
clip = record {
  id = 4;
  user_id = 1;
  title = text "a";
  description = [];
  video_url = text "https://h/a";
  duration_sec = pos 12;
  created_at = unix_epoch + 30;
}

abbrev input : CreateInput
input = record {
  title = text "b ";
  description = [];
  video_url = text "https://h/b";
  duration_sec = pos 12;
}

-- Every call gets through.
abbrev creating : Creating
creating = record {
  insert_up = true;
  cache_up = true;
  duration_up = true;
  duration_ttl = 60;
  id = 5;
  clock = unix_epoch + 40;
}

abbrev calls : Calls
calls = record { get_up = true; del_up = true; set_up = true }

videos_cache-IsVideoCache : IsVideoCache videos_cache
videos_cache-IsVideoCache id = refl

nothing_cached : IsCoherent videos_cache in_memory letters (row (clip ∷ [])) empty
unfolding peek decoded
nothing_cached id v p = absurd (cc)

get_video-find_by_id_example :
    ((get_video videos_cache letters in_memory calls true 4 (clip ∷ []) empty).0
      ≡ find_by_id true 4 (clip ∷ []))
    × IsCoherent videos_cache in_memory letters
        (row (clip ∷ []))
        (get_video videos_cache letters in_memory calls true 4 (clip ∷ []) empty).1
get_video-find_by_id_example =
    get_video-find_by_id videos_cache letters in_memory calls 4 (clip ∷ []) empty
      (IsVideoCache-IsKeyed videos_cache letters in_memory videos_cache-IsVideoCache) nothing_cached

assert_owner-standing_example :
    ((assert_owner videos_cache letters in_memory calls true 4 2 (clip ∷ []) empty).0
      ≡ standing 2 (lookup 4 (clip ∷ [])))
    × IsCoherent videos_cache in_memory letters
        (row (clip ∷ []))
        (assert_owner videos_cache letters in_memory calls true 4 2 (clip ∷ []) empty).1
    × ((exists videos_cache letters in_memory calls true 4 (clip ∷ []) empty).0
        ≡ ok (is_some (lookup 4 (clip ∷ []))))
    × IsCoherent videos_cache in_memory letters
        (row (clip ∷ []))
        (exists videos_cache letters in_memory calls true 4 (clip ∷ []) empty).1
assert_owner-standing_example =
    assert_owner-standing videos_cache letters in_memory calls 4 2 (clip ∷ []) empty
      (IsVideoCache-IsKeyed videos_cache letters in_memory videos_cache-IsVideoCache) nothing_cached

abbrev held : Sets
held k = map (entry letters) (take 2 (clip ∷ []))

abbrev before : State Memory Sets
before = record { table = clip ∷ []; store = empty; hooked = held }

abbrev hook : Option (Video → Sets → Sets)
hook = some (publish letters sets_in_memory 2 both)

before-IsConsistent : IsConsistent videos_cache letters in_memory before
before-IsConsistent = record { ordered = (tt, tt); coherent = nothing_cached }

create_video-IsConsistent_example :
    IsConsistent videos_cache letters in_memory
      (create_video videos_cache letters in_memory web creating hook 1 input before).1
create_video-IsConsistent_example =
    create_video-IsConsistent videos_cache letters in_memory web creating hook 1 input before
      videos_cache-IsVideoCache (unfold lookup in refl) before-IsConsistent

before-IsFed : IsFed videos_cache letters in_memory sets_in_memory 2 before
before-IsFed = record { chronological = (tt, tt); modern = (omega arith, tt); holds = refl }

create_video-IsFed_example :
    IsFed videos_cache letters in_memory sets_in_memory 2
      (create_video videos_cache letters in_memory web creating hook 1 input before).1
create_video-IsFed_example =
    create_video-IsFed videos_cache letters in_memory sets_in_memory 2 web creating 1 input before
      (omega arith) ((omega arith, omega arith), tt) before-IsFed

abbrev created : Video
created = record {
  id = 5;
  user_id = 1;
  title = text "b";
  description = [];
  video_url = text "https://h/b";
  duration_sec = pos 12;
  created_at = unix_epoch + 40;
}

created_ok :
    (create_video videos_cache letters in_memory web creating hook 1 input before).0 ≡ ok created
unfolding create_video unless announce validate create is_web trim_space beq
created_ok = refl

create_video-duration_get_example :
    duration_get letters in_memory true 5
      (create_video videos_cache letters in_memory web creating hook 1 input before).1.store
    ≡ some (pos 12)
create_video-duration_get_example =
    create_video-duration_get videos_cache letters in_memory web creating hook 1 input before
      created created_ok refl
