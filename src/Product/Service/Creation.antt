-- ===== src/Product/Service/Creation.antt =====
-- What a new product changes.
use vidmerce.Prelude.{
  ℕ, ◌≡◌, refl, ◌∙◌, Bool, false, ◌==◌, ==_refl, List, [], ◌∷◌, ◌++◌, Option, none, some, arith,
  inl, inr, ◌⊎◌, Bool-cases, Option-cases, if◌then◌else◌,
}
use vidmerce.Prelude.Results.{Result, ok, err}
use vidmerce.Uuid.{Uuid, UuidText}
use vidmerce.Redis.{Redis}
use vidmerce.Bloom.{Blooms, key_product_videos, may_contain}
use vidmerce.Cache.{cache_set}
use vidmerce.Cache.Coherence.{IsCoherent, IsCoherent-set}
use vidmerce.Cache.Apart.{disjoint-set, disjoint-read_through}
use vidmerce.Feed.{Video}
use vidmerce.Video.{UrlParse}
use vidmerce.Video as Video
use vidmerce.Video.Repository as Videos
use vidmerce.Video.Service.{assert_owner, get_video}
use vidmerce.Video.Service.Reads as Owners
use vidmerce.Product.{
  Error, Product, CreateInput, validate, video_already_taken, product_not_found, invalid, of_video,
  failure,
}
use vidmerce.Product.Repository.{lookup, lookup_video, insert_product, create, new_product}
use vidmerce.Product.Service.{
  Creating, Caches, State, video_maybe_taken, recorded, owned, unless, create_product,
}
use vidmerce.Product.Service.Keys.{
  HasKeys, of_videos-IsKeyed, by_id-IsKeyed, by_video-IsKeyed, videos-products, products-videos,
  products-by_video, by_video-products, videos-by_video, by_video-videos,
}
use vidmerce.Product.Service.Reads.{row, row_of_video}

-- No two products have one video.
abbrev pub IsUnique : List Product → Type 0
IsUnique [] = Unit
IsUnique (p ∷ ps) = (lookup_video p.video_id ps ≡ none) × IsUnique ps

lookup-kept :
    (id : Uuid) (ps qs : List Product) (p : Product)
    → lookup id ps ≡ some p
    → lookup id (ps ++ qs) ≡ some p
unfolding lookup
lookup-kept id [] qs p h = absurd (cc)
lookup-kept id (q ∷ ps) qs p h = ground (arith, h, lookup-kept id ps qs p)

pub lookup_video-kept :
    (id : Uuid) (ps qs : List Product) (p : Product)
    → lookup_video id ps ≡ some p
    → lookup_video id (ps ++ qs) ≡ some p
unfolding lookup_video
lookup_video-kept id [] qs p h = absurd (cc)
lookup_video-kept id (q ∷ ps) qs p h = ground (arith, h, lookup_video-kept id ps qs p)

pub lookup-last :
    (ps : List Product) (p : Product) → lookup p.id ps ≡ none → lookup p.id (ps ++ p ∷ []) ≡ some p
unfolding lookup
lookup-last [] p h = ground arith
lookup-last (q ∷ ps) p h = ground (arith, h, lookup-last ps p)

pub lookup_video-last :
    (id : Uuid) (ps : List Product) (p : Product)
    → lookup_video id ps ≡ none
    → lookup_video id (ps ++ p ∷ []) ≡ (if p.video_id == id then some p else none)
unfolding lookup_video
lookup_video-last id [] p h = refl
lookup_video-last id (q ∷ ps) p h = ground (arith, h, lookup_video-last id ps p)

IsUnique-append :
    (ps : List Product) (p : Product)
    → IsUnique ps
    → lookup_video p.video_id ps ≡ none
    → IsUnique (ps ++ p ∷ [])
unfolding lookup_video
IsUnique-append [] p u h = (refl, tt)
IsUnique-append (q ∷ ps) p u h =
    let apart : (q.video_id == p.video_id) ≡ false = ground (arith, h) in
    let fresh : lookup_video p.video_id ps ≡ none = ground (arith, h, apart) in
    (lookup_video-last q.video_id ps p u.0 ∙ ground (arith, apart), IsUnique-append ps p u.1 fresh)

-- What an insert answers and leaves.
abbrev pub IsInserted : Product → List Product → Result Error Product × List Product → Type 0
IsInserted p products r =
    ((e : Error) × (r ≡ (err e, products)))
    ⊎ ((r ≡ (ok p, products ++ p ∷ [])) × (lookup_video p.video_id products ≡ none))

pub create-IsInserted :
    (up : Bool) (id : Uuid) (now : ℕ) (i : CreateInput) (videos : List Video)
    (products : List Product)
    → IsInserted (new_product id now i) products (create up id now i videos products)
unfolding create insert_product
create-IsInserted up id now i videos products = elim (Bool-cases up) [
  | inr down ↦ inl (failure, rw down refl)
  | inl on ↦ elim (Option-cases (lookup_video i.video_id products)) [
    | inr (q, taken) ↦ inl (video_already_taken, rw (on, taken) refl)
    | inl fresh ↦ elim (Option-cases (Videos.lookup i.video_id videos)) [
      | inl unknown ↦ inl (failure, rw (on, fresh, unknown) refl)
      | inr (v, known) ↦ inr (rw (on, fresh, known) refl, fresh)
    ]
  ]
]

module _ (C : Caches) (T : UuidText) (R : Redis) (B : Blooms) where
  -- No two products have one video, and what is cached agrees with the tables.
  pub record IsSound (s : State R.Store B.Store) : Type 0 where
    pub unique : IsUnique s.products
    pub videos_agree : IsCoherent C.of_videos R T (Owners.row s.videos) s.store
    pub products_agree : IsCoherent C.by_id R T (row s.products) s.store
    pub by_video_agree : IsCoherent C.by_video R T (row_of_video s.products) s.store

  checked-IsSound :
      (c : Creating) (user video : Uuid) (s : State R.Store B.Store)
      → HasKeys C
      → IsSound s
      → IsSound (record s {
        store =
            (assert_owner C.of_videos T R c.owner_calls c.videos_up video user s.videos s.store).1;
      })
  unfolding assert_owner get_video
  checked-IsSound c user video s k h = record {
    unique = h.unique;
    videos_agree =
        (Owners.assert_owner_sound C.of_videos T R c.owner_calls c.videos_up video user s.videos
          s.store (of_videos-IsKeyed C T R k) h.videos_agree).1;
    products_agree =
        disjoint-read_through C.by_id C.of_videos R T (products-videos C T R k) (row s.products)
          c.owner_calls (λ (v : Video). v.id) video _ s.store h.products_agree;
    by_video_agree =
        disjoint-read_through C.by_video C.of_videos R T (by_video-videos C T R k)
          (row_of_video s.products) c.owner_calls (λ (v : Video). v.id) video _ s.store
          h.by_video_agree;
  }

  -- What is cached of the old table agrees with the new.
  products-grown :
      (ps : List Product) (p : Product) (s : R.Store)
      → IsCoherent C.by_id R T (row ps) s
      → IsCoherent C.by_id R T (row (ps ++ p ∷ [])) s
  products-grown ps p s h id q e = lookup-kept id ps (p ∷ []) q (h id q e)

  by_video-grown :
      (ps : List Product) (p : Product) (s : R.Store)
      → IsCoherent C.by_video R T (row_of_video ps) s
      → IsCoherent C.by_video R T (row_of_video (ps ++ p ∷ [])) s
  by_video-grown ps p s h id q e = lookup_video-kept id ps (p ∷ []) q (h id q e)

  recorded-IsSound :
      (c : Creating) (video : Uuid) (p : Product) (s : State R.Store B.Store)
      → HasKeys C
      → lookup p.id s.products ≡ none
      → lookup_video p.video_id s.products ≡ none
      → IsSound s
      → IsSound (recorded C T R B c video (ok p, s.products ++ p ∷ []) s).1
  unfolding recorded
  recorded-IsSound c video p s k f g h =
      let grown = s.products ++ p ∷ [] in
      let cached = (cache_set C.by_id R c.cache_up (T.to_string p.id) p s.store).1 in
      record {
        unique = IsUnique-append s.products p h.unique g;
        videos_agree =
            disjoint-set C.of_videos C.by_video R T (videos-by_video C T R k) (Owners.row s.videos)
              c.by_video_up p.video_id p cached
              (disjoint-set C.of_videos C.by_id R T (videos-products C T R k) (Owners.row s.videos)
                c.cache_up p.id p s.store h.videos_agree);
        products_agree =
            disjoint-set C.by_id C.by_video R T (products-by_video C T R k) (row grown)
              c.by_video_up p.video_id p cached
              (IsCoherent-set C.by_id R T (row grown) c.cache_up p.id p s.store
                (by_id-IsKeyed C T R k) (lookup-last s.products p f)
                (products-grown s.products p s.store h.products_agree));
        by_video_agree =
            IsCoherent-set C.by_video R T (row_of_video grown) c.by_video_up p.video_id p cached
              (by_video-IsKeyed C T R k)
              (lookup_video-last p.video_id s.products p g ∙ rw (==_refl p.video_id) refl)
              (disjoint-set C.by_video C.by_id R T (by_video-products C T R k) (row_of_video grown)
                c.cache_up p.id p s.store (by_video-grown s.products p s.store h.by_video_agree));
      }

  recorded-same :
      (c : Creating) (video : Uuid) (e : Error) (s : State R.Store B.Store)
      → IsSound s
      → IsSound (recorded C T R B c video (err e, s.products) s).1
  unfolding recorded
  recorded-same c video video_already_taken s h = record {
    unique = h.unique;
    videos_agree = h.videos_agree;
    products_agree = h.products_agree;
    by_video_agree = h.by_video_agree;
  }
  recorded-same c video (invalid m) s h = h
  recorded-same c video product_not_found s h = h
  recorded-same c video (of_video e) s h = h
  recorded-same c video failure s h = h

  owned-IsSound :
      (c : Creating) (i : CreateInput) (o : Option Video.Error) (s : State R.Store B.Store)
      → HasKeys C
      → lookup c.id s.products ≡ none
      → IsSound s
      → IsSound (owned C T R B c i o s).1
  unfolding owned
  owned-IsSound c i (some e) s k f h = h
  owned-IsSound c i none s k f h =
      elim (Bool-cases (
        video_maybe_taken
          (may_contain B c.check_up key_product_videos (T.to_string i.video_id) s.filters))) [
            | inl taken ↦ rw taken h
            | inr free ↦
                rw free (elim (create-IsInserted c.insert_up c.id c.clock i s.videos s.products) [
                  | inl (e, r) ↦ rw r (recorded-same c i.video_id e s h)
                  | inr (r, g) ↦
                      rw r (recorded-IsSound c i.video_id (new_product c.id c.clock i) s k f g h)
                ])
          ]

  -- Creating a product, whatever the answer and whichever calls get through, leaves no two
  -- products with one video and all three caches in agreement with the tables, if it was so
  -- before, with the keys that the caches are built with and an identifier that no row has.
  pub create_product-IsSound :
      (url_parse : UrlParse) (c : Creating) (user : Uuid) (i : CreateInput)
      (s : State R.Store B.Store)
      → HasKeys C
      → lookup c.id s.products ≡ none
      → IsSound s
      → IsSound (create_product C T R B url_parse c user i s).1
  unfolding create_product unless
  create_product-IsSound url_parse c user i s k f h = elim (Option-cases (validate url_parse i)) [
    | inr (e, bad) ↦ rw bad h
    | inl good ↦ rw good (
        owned-IsSound c i _
          (record s {
            store =
                (assert_owner C.of_videos T R c.owner_calls c.videos_up i.video_id user s.videos
                  s.store).1;
          })
          k f (checked-IsSound c user i.video_id s k h))
  ]
