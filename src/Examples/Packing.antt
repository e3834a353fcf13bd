-- ===== src/Examples/Packing.antt =====
-- Values as bytes, for the caches of the examples.
use vidmerce.Prelude.{
  ℕ, zero, suc, ◌≡◌, refl, ap, ◌∙◌, [], ◌∷◌, Option, none, some, Bytes, ◌++◌, text,
}
use vidmerce.Prelude.Int.{ℤ, pos, negsuc}
use vidmerce.Uuid.{Uuid}
use vidmerce.Feed.{Video}
use vidmerce.Product.{Product}
use vidmerce.Cache.{JsonCache}

-- Each byte follows a 1, and a 0 ends them.
packed : Bytes → Bytes → Bytes
packed [] r = 0 ∷ r
packed (b ∷ bs) r = 1 ∷ b ∷ packed bs r

with_first : ℕ → Option (Bytes × Bytes) → Option (Bytes × Bytes)
with_first b none = none
with_first b (some (bs, r)) = some (b ∷ bs, r)

unpack : Bytes → Option (Bytes × Bytes)
unfolding with_first
unpack (zero ∷ r) = some ([], r)
unpack (suc zero ∷ b ∷ r) = with_first b (unpack r)
unpack _ = none

unpack-packed : (bs r : Bytes) → unpack (packed bs r) ≡ some (bs, r)
unfolding unpack packed with_first
unpack-packed [] r = refl
unpack-packed (b ∷ bs) r = ap (with_first b) (unpack-packed bs r)

signed : ℕ → ℕ → ℤ
signed zero n = pos n
signed (suc s) n = negsuc n

sign : ℤ → ℕ
sign (pos n) = 0
sign (negsuc n) = 1

magnitude : ℤ → ℕ
magnitude (pos n) = n
magnitude (negsuc n) = n

signed-sign : (z : ℤ) → signed (sign z) (magnitude z) ≡ z
unfolding signed sign magnitude
signed-sign (pos n) = refl
signed-sign (negsuc n) = refl

-- Three texts.
texts : Bytes → Bytes → Bytes → Bytes
unfolding packed
texts a b c = packed a (packed b (packed c []))

third : Bytes → Bytes → Option (Bytes × Bytes) → Option (Bytes × Bytes × Bytes)
third a b none = none
third a b (some (c, r)) = some (a, b, c)

second : Bytes → Option (Bytes × Bytes) → Option (Bytes × Bytes × Bytes)
unfolding third unpack
second a none = none
second a (some (b, r)) = third a b (unpack r)

first : Option (Bytes × Bytes) → Option (Bytes × Bytes × Bytes)
unfolding second unpack
first none = none
first (some (a, r)) = second a (unpack r)

three : Bytes → Option (Bytes × Bytes × Bytes)
unfolding first unpack
three bs = first (unpack bs)

three-texts : (a b c : Bytes) → three (texts a b c) ≡ some (a, b, c)
unfolding three texts first second third
three-texts a b c =
    ap first (unpack-packed a (packed b (packed c [])))
    ∙ (ap (second a) (unpack-packed b (packed c [])) ∙ ap (third a b) (unpack-packed c []))

video_of : Uuid → Uuid → ℕ → ℕ → ℕ → Option (Bytes × Bytes × Bytes) → Option Video
unfolding signed
video_of i u s n t none = none
video_of i u s n t (some (a, b, c)) = some (record {
  id = i;
  user_id = u;
  title = a;
  description = b;
  video_url = c;
  duration_sec = signed s n;
  created_at = t;
})

pub unflat_video : Bytes → Option Video
unfolding video_of three
unflat_video (i ∷ u ∷ s ∷ n ∷ t ∷ r) = video_of i u s n t (three r)
unflat_video _ = none

pub flat_video : Video → Bytes
unfolding sign magnitude texts
flat_video v =
    v.id
    ∷ v.user_id
    ∷ sign v.duration_sec
    ∷ magnitude v.duration_sec
    ∷ v.created_at
    ∷ texts v.title v.description v.video_url

pub unflat-flat_video : (v : Video) → unflat_video (flat_video v) ≡ some v
unfolding unflat_video flat_video video_of
unflat-flat_video v =
    rw (three-texts v.title v.description v.video_url, signed-sign v.duration_sec) refl

product_of : Uuid → Uuid → ℕ → ℕ → ℕ → Option (Bytes × Bytes × Bytes) → Option Product
unfolding signed
product_of i u s n t none = none
product_of i u s n t (some (a, b, c)) = some (record {
  id = i;
  video_id = u;
  name = a;
  price_cents = signed s n;
  currency = b;
  image_url = c;
  created_at = t;
})

pub unflat_product : Bytes → Option Product
unfolding product_of three
unflat_product (i ∷ u ∷ s ∷ n ∷ t ∷ r) = product_of i u s n t (three r)
unflat_product _ = none

pub flat_product : Product → Bytes
unfolding sign magnitude texts
flat_product p =
    p.id
    ∷ p.video_id
    ∷ sign p.price_cents
    ∷ magnitude p.price_cents
    ∷ p.created_at
    ∷ texts p.name p.currency p.image_url

pub unflat-flat_product : (p : Product) → unflat_product (flat_product p) ≡ some p
unfolding unflat_product flat_product product_of
unflat-flat_product p =
    rw (three-texts p.name p.currency p.image_url, signed-sign p.price_cents) refl

-- The caches, under the keys of the program.
abbrev pub videos_cache : JsonCache Video
videos_cache = record {
  key_fn = λ id. text "video:" ++ id;
  ttl = 60;
  marshal = flat_video;
  unmarshal = unflat_video;
  unmarshal-marshal = unflat-flat_video;
}

abbrev products_cache : (Bytes → Bytes) → JsonCache Product
products_cache key = record {
  key_fn = key;
  ttl = 60;
  marshal = flat_product;
  unmarshal = unflat_product;
  unmarshal-marshal = unflat-flat_product;
}

abbrev pub by_id_cache : JsonCache Product
by_id_cache = products_cache (λ id. text "product:" ++ id)

abbrev pub by_video_cache : JsonCache Product
by_video_cache = products_cache (λ id. text "video:" ++ (id ++ text ":product"))
