-- ===== src/Examples/Products.antt =====
-- Products that are created and read, in a store in memory.
use vidmerce.Prelude.{◌++◌, ◌≡◌, refl, true, List, [], ◌∷◌, none, some, Bytes, text, beq, All}
use vidmerce.Prelude.Int.{pos}
use vidmerce.Prelude.Results.{ok}
use vidmerce.Uuid.{letters}
use vidmerce.Redis.Memory.{Memory, empty, in_memory}
use vidmerce.Bloom.{warmup, bf_madd, init, may_contain, key_product_videos}
use vidmerce.Bloom.Warmups.{warmup-bf_madd}
use vidmerce.Cache.{Calls, read_through, or_fill, cache_get, read_raw, fill}
use vidmerce.Cache.Coherence.{peek, decoded}
use vidmerce.Auth.Email.{trim_space}
use vidmerce.Feed.{Video}
use vidmerce.Video.{UrlParse, is_web}
use vidmerce.Video.Repository as Videos
use vidmerce.Video.Repository.{find_by_id, found}
use vidmerce.Video.Service.{assert_owner, ownership, get_video}
use vidmerce.Product.{CreateInput, validate, to_upper}
use vidmerce.Product.Repository.{lookup, lookup_video, new_product, create, insert_product}
use vidmerce.Product.Service.{
  Caches, Creating, State, create_product, get_by_id, get_by_video_id, unless, owned, recorded,
  video_maybe_taken,
}
use vidmerce.Product.Service.Keys.{HasKeys}
use vidmerce.Product.Service.Creation.{IsSound, create_product-IsSound}
use vidmerce.Product.Service.Filtering.{
  IsFiltered, create_product-IsFiltered, get_by-create_product,
}
use vidmerce.Http.Products.{post_products}
use vidmerce.Http.Products.Access.{IsPosted, post_products-IsPosted}
use vidmerce.Jwt.Tokens.{IsBearer}
use vidmerce.Examples.Requests.{plain, token}
use vidmerce.Examples.Filters.{listed, exact, vacant}
use vidmerce.Examples.Packing.{videos_cache, by_id_cache, by_video_cache}

warmup-bf_madd_example :
    (warmup exact none true true
        (λ j. true)
        key_product_videos
        10
        (some (text "a" ∷ text "b" ∷ []))
        vacant
      ≡ (true, bf_madd exact key_product_videos (text "a" ∷ text "b" ∷ []) vacant))
    × All
        (λ m.
          may_contain exact true key_product_videos m
            (bf_madd exact key_product_videos (text "a" ∷ text "b" ∷ []) vacant)
          ≡ some true)
        (text "a" ∷ text "b" ∷ [])
warmup-bf_madd_example =
    warmup-bf_madd exact none true (λ j. true) key_product_videos 10 (text "a" ∷ text "b" ∷ [])
      vacant vacant (λ j. refl) (unfold init in refl)

abbrev caches : Caches
caches = record { of_videos = videos_cache; by_id = by_id_cache; by_video = by_video_cache }

caches-HasKeys : HasKeys caches
caches-HasKeys = record {
  video_key = λ id. refl;
  product_key = λ id. refl;
  by_video_key = λ id. refl;
}

-- Every URL is one of a host h.
abbrev web : UrlParse
web raw = some (text "https", text "h")

abbrev clip : Video
clip = record {
  id = 4;
  user_id = 1;
  title = text "a";
  description = [];
  video_url = text "https://h/a";
  duration_sec = pos 12;
  created_at = 30;
}

abbrev input : CreateInput
input = record {
  video_id = 4;
  name = text " mug";
  price_cents = pos 900;
  currency = text "usd";
  image_url = text "https://h/i";
}

abbrev calls : Calls
calls = record { get_up = true; del_up = true; set_up = true }

-- Every call gets through.
abbrev creating : Creating
creating = record {
  owner_calls = calls;
  videos_up = true;
  check_up = true;
  insert_up = true;
  record_up = true;
  cache_up = true;
  by_video_up = true;
  id = 7;
  clock = 50;
}

abbrev before : State Memory (Bytes → List Bytes)
before = record { videos = clip ∷ []; products = []; store = empty; filters = vacant }

before-IsSound : IsSound caches letters in_memory exact before
unfolding peek decoded
before-IsSound = record {
  unique = tt;
  videos_agree = λ id v p. absurd (cc);
  products_agree = λ id v p. absurd (cc);
  by_video_agree = λ id v p. absurd (cc);
}

create_product-IsSound_example :
    IsSound caches letters in_memory exact
      (create_product caches letters in_memory exact web creating 1 input before).1
create_product-IsSound_example =
    create_product-IsSound caches letters in_memory exact web creating 1 input before caches-HasKeys
      (unfold lookup in refl) before-IsSound

create_product-IsFiltered_example :
    IsFiltered caches letters in_memory exact
      (create_product caches letters in_memory exact web creating 1 input before).1
create_product-IsFiltered_example =
    create_product-IsFiltered caches letters in_memory exact web creating 1 input before refl tt

answered :
    (create_product caches letters in_memory exact web creating 1 input before).0
    ≡ ok (new_product 7 50 input)
unfolding create_product unless owned recorded assert_owner ownership get_video read_through or_fill
    cache_get read_raw fill find_by_id found Videos.lookup video_maybe_taken may_contain create
    insert_product lookup_video validate is_web trim_space to_upper beq listed
answered = refl

get_by-create_product_example :
    ((get_by_id caches letters in_memory calls true 7
        (create_product caches letters in_memory exact web creating 1 input before).1.products
        (create_product caches letters in_memory exact web creating 1 input before).1.store).0
      ≡ ok (new_product 7 50 input))
    × ((get_by_video_id caches letters in_memory calls true 4
          (create_product caches letters in_memory exact web creating 1 input before).1.products
          (create_product caches letters in_memory exact web creating 1 input before).1.store).0
        ≡ ok (new_product 7 50 input))
get_by-create_product_example =
    get_by-create_product caches letters in_memory exact web creating 1 input before
      (new_product 7 50 input) calls caches-HasKeys (unfold lookup in refl) before-IsSound answered

post_products-IsPosted_example :
    IsPosted caches letters in_memory exact
      (IsBearer plain 55 (text "Bearer " ++ token))
      creating
      (some input)
      before
      (post_products caches letters in_memory exact plain 55
        (text "Bearer " ++ token)
        web
        creating
        (some input)
        before)
post_products-IsPosted_example =
    post_products-IsPosted caches letters in_memory exact plain 55 (text "Bearer " ++ token) web
      creating (some input) before caches-HasKeys before-IsSound
