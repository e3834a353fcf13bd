-- ===== src/Product/Service/Ownership.antt =====
-- Who creates a product, and what the filter of videos knows.
use vidmerce.Prelude.{
  ◌≡◌, refl, List, [], ◌∷◌, ◌++◌, none, some, inl, inr, ◌⊎◌, Bool-cases, Option-cases,
}
use vidmerce.Prelude.Results.{Result, ok, err}
use vidmerce.Uuid.{Uuid, UuidText}
use vidmerce.Redis.{Redis}
use vidmerce.Bloom.{Blooms, key_product_videos, may_contain}
use vidmerce.Feed.{Video}
use vidmerce.Video.{UrlParse}
use vidmerce.Video.Repository as Videos
use vidmerce.Video.Service.{assert_owner}
use vidmerce.Video.Service.Reads as Owners
use vidmerce.Product.{
  Error, Product, CreateInput, validate, video_already_taken, product_not_found, invalid, of_video,
  failure,
}
use vidmerce.Product.Repository.{lookup_video, create, new_product}
use vidmerce.Product.Service.{
  Creating, Caches, State, video_maybe_taken, recorded, owned, unless, create_product,
}
use vidmerce.Product.Service.Keys.{HasKeys, of_videos-IsKeyed}
use vidmerce.Product.Service.Creation.{IsSound, IsInserted, create-IsInserted}

module _ (C : Caches) (T : UuidText) (R : Redis) (B : Blooms) where
  -- A product that is answered is the one row that was added; an error adds none.
  abbrev pub IsAccounted :
      Product → List Product → Result Error Product × State R.Store B.Store → Type 0
  IsAccounted p products r =
      ((e : Error) × (r.0 ≡ err e) × (r.1.products ≡ products))
      ⊎ ((r.0 ≡ ok p)
          × (r.1.products ≡ products ++ p ∷ [])
          × (lookup_video p.video_id products ≡ none))

  recorded-error :
      (c : Creating) (video : Uuid) (e : Error) (s : State R.Store B.Store)
      → ((recorded C T R B c video (err e, s.products) s).0 ≡ err e)
        × ((recorded C T R B c video (err e, s.products) s).1.products ≡ s.products)
  unfolding recorded
  recorded-error c video video_already_taken s = (refl, refl)
  recorded-error c video (invalid m) s = (refl, refl)
  recorded-error c video product_not_found s = (refl, refl)
  recorded-error c video (of_video e) s = (refl, refl)
  recorded-error c video failure s = (refl, refl)

  recorded-IsAccounted :
      (c : Creating) (video : Uuid) (p : Product) (r : Result Error Product × List Product)
      (s : State R.Store B.Store)
      → IsInserted p s.products r
      → IsAccounted p s.products (recorded C T R B c video r s)
  unfolding recorded
  recorded-IsAccounted c video p r s (inl (e, f)) =
      rw f (inl (e, (recorded-error c video e s).0, (recorded-error c video e s).1))
  recorded-IsAccounted c video p r s (inr (f, g)) = rw f (inr (refl, refl, g))

  owned-IsAccounted :
      (c : Creating) (i : CreateInput) (s : State R.Store B.Store)
      → IsAccounted (new_product c.id c.clock i) s.products (owned C T R B c i none s)
  unfolding owned
  owned-IsAccounted c i s =
      elim (Bool-cases (
        video_maybe_taken
          (may_contain B c.check_up key_product_videos (T.to_string i.video_id) s.filters))) [
            | inl taken ↦ rw taken (inl (video_already_taken, refl, refl))
            | inr free ↦ rw free (
                recorded-IsAccounted c i.video_id (new_product c.id c.clock i)
                  (create c.insert_up c.id c.clock i s.videos s.products) s
                  (create-IsInserted c.insert_up c.id c.clock i s.videos s.products))
          ]

  -- The video is in its table and the user owns it.
  abbrev pub IsOwner : Uuid → Uuid → List Video → Type 0
  IsOwner user id videos = (v : Video) × (Videos.lookup id videos ≡ some v) × (v.user_id ≡ user)

  -- Either the answer is an error and no product was added, or the input is valid, the video is in
  -- its table, belongs to the user and had no product, and its product was added and is answered:
  -- while the cache of videos, under the keys it is built with, agrees with the table, and
  -- whichever calls get through.
  pub create_product-IsOwner :
      (url_parse : UrlParse) (c : Creating) (user : Uuid) (i : CreateInput)
      (s : State R.Store B.Store)
      → HasKeys C
      → IsSound C T R B s
      → ((e : Error) × ((create_product C T R B url_parse c user i s).0 ≡ err e)
          × ((create_product C T R B url_parse c user i s).1.products ≡ s.products))
        ⊎ ((validate url_parse i ≡ none)
            × IsOwner user i.video_id s.videos
            × (lookup_video i.video_id s.products ≡ none)
            × ((create_product C T R B url_parse c user i s).0 ≡ ok (new_product c.id c.clock i))
            × ((create_product C T R B url_parse c user i s).1.products
                ≡ s.products ++ new_product c.id c.clock i ∷ []))
  unfolding create_product unless
  create_product-IsOwner url_parse c user i s k h = elim (Option-cases (validate url_parse i)) [
    | inr (e, bad) ↦ rw bad (inl (e, refl, refl))
    | inl good ↦
        let checked =
          assert_owner C.of_videos T R c.owner_calls c.videos_up i.video_id user s.videos s.store in
        let sound =
          Owners.assert_owner_sound C.of_videos T R c.owner_calls c.videos_up i.video_id user
            s.videos s.store (of_videos-IsKeyed C T R k) h.videos_agree in
        elim (Option-cases checked.0) [
          | inr (e, refused) ↦ rw (good, refused) (unfold owned in (inl (of_video e, refl, refl)))
          | inl accepted ↦
              rw (good, accepted)
                (elim (owned-IsAccounted c i (record s { store = checked.1 })) [
                  | inl failed ↦ inl failed
                  | inr (a, b, g) ↦ inr (refl, sound.0 accepted, g, a, b)
                ])
        ]
  ]
