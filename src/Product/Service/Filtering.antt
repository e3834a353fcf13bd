-- ===== src/Product/Service/Filtering.antt =====
-- What the filter of videos knows, and what is read back of a new product.
use vidmerce.Prelude.{
  ◌≡◌, refl, sym, ap, ◌∙◌, true, List, [], ◌∷◌, ◌++◌, Option, none, some, inl, inr, Bool-cases,
  Option-cases, All, All-append, All-map, ==_refl,
}
use vidmerce.Prelude.Results.{Result, ok, err}
use vidmerce.Uuid.{Uuid, UuidText}
use vidmerce.Redis.{Redis}
use vidmerce.Bloom.{Blooms, key_product_videos, may_contain, add}
use vidmerce.Video.{UrlParse}
use vidmerce.Video as Video
use vidmerce.Product.{
  Error, Product, CreateInput, validate, video_already_taken, product_not_found, invalid, of_video,
  failure,
}
use vidmerce.Product.Repository.{lookup_video, create, new_product}
use vidmerce.Product.Service.{
  Creating, Caches, State, video_maybe_taken, record_video, recorded, owned, unless, create_product,
}
use vidmerce.Product.Service.Keys.{HasKeys}
use vidmerce.Product.Service.Creation.{IsSound, IsInserted, create-IsInserted}
use vidmerce.Cache.{Calls}
use vidmerce.Product.Repository.{lookup, find_by_id, find_by_video_id, found}
use vidmerce.Product.Service.{get_by_id, get_by_video_id}
use vidmerce.Product.Service.Reads.{get_by-find_by}
use vidmerce.Product.Service.Creation.{create_product-IsSound, lookup_video-last, lookup-last}
use vidmerce.Product.Service.Ownership.{create_product-IsOwner}

find_by_id-last :
    (ps : List Product) (p : Product)
    → lookup p.id ps ≡ none
    → find_by_id true p.id (ps ++ p ∷ []) ≡ ok p
unfolding find_by_id found
find_by_id-last ps p h = rw (lookup-last ps p h) refl

find_by_video_id-last :
    (ps : List Product) (p : Product)
    → lookup_video p.video_id ps ≡ none
    → find_by_video_id true p.video_id (ps ++ p ∷ []) ≡ ok p
unfolding find_by_video_id found
find_by_video_id-last ps p h = rw (lookup_video-last p.video_id ps p h, ==_refl p.video_id) refl

module _ (C : Caches) (T : UuidText) (R : Redis) (B : Blooms) where
  -- The filter finds the video of each product.
  abbrev pub IsFiltered : State R.Store B.Store → Type 0
  IsFiltered s =
      All (λ p. B.bf_exists key_product_videos (T.to_string p.video_id) s.filters ≡ true) s.products

  still :
      (video : Uuid) (s : State R.Store B.Store)
      → IsFiltered s
      → All
          (λ p.
            B.bf_exists key_product_videos
              (T.to_string p.video_id)
              (record_video C T R B true video s.filters)
            ≡ true)
          s.products
  unfolding record_video add
  still video s h =
      All-map (λ p. B.bf_exists key_product_videos (T.to_string p.video_id) s.filters ≡ true)
        (λ p.
          B.bf_exists key_product_videos (T.to_string p.video_id)
            (B.bf_add key_product_videos (T.to_string video) s.filters)
          ≡ true)
        s.products
        (λ p e.
          B.bf_exists_still key_product_videos (T.to_string p.video_id) (T.to_string video)
            s.filters e)
        h

  refused-IsFiltered :
      (c : Creating) (video : Uuid) (e : Error) (s : State R.Store B.Store)
      → c.record_up ≡ true
      → IsFiltered s
      → IsFiltered (recorded C T R B c video (err e, s.products) s).1
  unfolding recorded
  refused-IsFiltered c video video_already_taken s up h = rw up (still video s h)
  refused-IsFiltered c video (invalid m) s up h = h
  refused-IsFiltered c video product_not_found s up h = h
  refused-IsFiltered c video (of_video e) s up h = h
  refused-IsFiltered c video failure s up h = h

  recorded-IsFiltered :
      (c : Creating) (video : Uuid) (r : Result Error Product × List Product) (p : Product)
      (s : State R.Store B.Store)
      → c.record_up ≡ true
      → p.video_id ≡ video
      → IsInserted p s.products r
      → IsFiltered s
      → IsFiltered (recorded C T R B c video r s).1
  unfolding recorded
  recorded-IsFiltered c video r p s up e (inr (f, g)) h =
      rw (f, up)
        (All-append _ s.products (p ∷ []) (still video s h) (
          rw e (
              unfold record_video add in
              (B.bf_exists-bf_add key_product_videos (T.to_string video) s.filters)),
          tt,
        ))
  recorded-IsFiltered c video r p s up e (inl (x, f)) h = rw f (refused-IsFiltered c video x s up h)

  owned-IsFiltered :
      (c : Creating) (i : CreateInput) (o : Option Video.Error) (s : State R.Store B.Store)
      → c.record_up ≡ true
      → IsFiltered s
      → IsFiltered (owned C T R B c i o s).1
  unfolding owned
  owned-IsFiltered c i (some e) s up h = h
  owned-IsFiltered c i none s up h =
      elim (Bool-cases (
        video_maybe_taken
          (may_contain B c.check_up key_product_videos (T.to_string i.video_id) s.filters))) [
            | inl taken ↦ rw taken h
            | inr free ↦ rw free (
                recorded-IsFiltered c i.video_id
                  (create c.insert_up c.id c.clock i s.videos s.products)
                  (new_product c.id c.clock i) s up refl
                  (create-IsInserted c.insert_up c.id c.clock i s.videos s.products) h)
          ]

  -- If the filter finds the video of each product, then also after a product is created, whatever
  -- the answer, if the filter is reached to record it.
  pub create_product-IsFiltered :
      (url_parse : UrlParse) (c : Creating) (user : Uuid) (i : CreateInput)
      (s : State R.Store B.Store)
      → c.record_up ≡ true
      → IsFiltered s
      → IsFiltered (create_product C T R B url_parse c user i s).1
  unfolding create_product unless
  create_product-IsFiltered url_parse c user i s up h = elim (Option-cases (validate url_parse i)) [
    | inr (e, bad) ↦ rw bad h
    | inl good ↦ rw good (owned-IsFiltered c i _ (record s { store = _ }) up h)
  ]

  -- A product that was created is what is read next, by its identifier and by its video's, while
  -- the database answers and whichever calls of Redis get through, if the caches agreed with the
  -- tables before, under the keys that they are built with, and the identifier is new.
  pub get_by-create_product :
      (url_parse : UrlParse) (c : Creating) (user : Uuid) (i : CreateInput)
      (s : State R.Store B.Store) (p : Product) (d : Calls)
      → HasKeys C
      → lookup c.id s.products ≡ none
      → IsSound C T R B s
      → (create_product C T R B url_parse c user i s).0 ≡ ok p
      → ((get_by_id C T R d true p.id
            (create_product C T R B url_parse c user i s).1.products
            (create_product C T R B url_parse c user i s).1.store).0
          ≡ ok p)
        × ((get_by_video_id C T R d true p.video_id
              (create_product C T R B url_parse c user i s).1.products
              (create_product C T R B url_parse c user i s).1.store).0
            ≡ ok p)
  get_by-create_product url_parse c user i s p d k f h e =
      let t = (create_product C T R B url_parse c user i s).1 in
      let sound = create_product-IsSound C T R B url_parse c user i s k f h in
      elim (create_product-IsOwner C T R B url_parse c user i s k h) [
        | inl (x, g, same) ↦ absurd (cc (e, g))
        | inr (valid, owner, fresh, g, added) ↦
            let this : new_product c.id c.clock i ≡ p = cc (e, g) in
            let by_id =
              get_by-find_by C T R d p.id t.products t.store k sound.products_agree
                sound.by_video_agree in
            let by_video =
              get_by-find_by C T R d p.video_id t.products t.store k sound.products_agree
                sound.by_video_agree in
            let q = new_product c.id c.clock i in
            (
              by_id.0
                  ∙ (ap (find_by_id true p.id) added
                      ∙ (ap (λ (x : Product). find_by_id true x.id (s.products ++ q ∷ []))
                            (sym this)
                          ∙ (find_by_id-last s.products q f ∙ ap ok this))),
              by_video.2
                  ∙ (ap (find_by_video_id true p.video_id) added
                      ∙ (ap
                            (λ (x : Product).
                              find_by_video_id true x.video_id (s.products ++ q ∷ []))
                            (sym this)
                          ∙ (find_by_video_id-last s.products q fresh ∙ ap ok this))),
            )
      ]
