-- ===== src/Product/Service/Reads.antt =====
-- Reading a product through its caches.
use vidmerce.Prelude.{◌≡◌, refl, true, List, [], ◌∷◌, Option, some, arith}
use vidmerce.Uuid.{Uuid, UuidText}
use vidmerce.Redis.{Redis}
use vidmerce.Cache.{Calls}
use vidmerce.Cache.Coherence.{IsCoherent, answer, read_through-IsAnswered}
use vidmerce.Product.{Product, product_not_found}
use vidmerce.Product.Repository.{lookup, lookup_video, found, find_by_id, find_by_video_id}
use vidmerce.Product.Service.{Caches, get_by_id, get_by_video_id}
use vidmerce.Product.Service.Keys.{HasKeys, by_id-IsKeyed, by_video-IsKeyed}

-- The table as partial functions.
abbrev pub row : List Product → Uuid → Option Product
row products id = lookup id products

abbrev pub row_of_video : List Product → Uuid → Option Product
row_of_video products video = lookup_video video products

lookup-id :
    (products : List Product) (id : Uuid) (p : Product) → lookup id products ≡ some p → p.id ≡ id
unfolding lookup
lookup-id [] id p h = absurd (cc)
lookup-id (q ∷ qs) id p h = ground (arith, h, lookup-id qs id p)

module _ (C : Caches) (T : UuidText) (R : Redis) where
  find_by_id-answer :
      (id : Uuid) (products : List Product)
      → find_by_id true id products ≡ answer C.by_id R T product_not_found (lookup id products)
  unfolding find_by_id found answer
  find_by_id-answer id products = ground arith

  find_by_video_id-answer :
      (video : Uuid) (products : List Product)
      → find_by_video_id true video products
        ≡ answer C.by_video R T product_not_found (lookup_video video products)
  unfolding find_by_video_id found answer
  find_by_video_id-answer video products = ground arith

  -- While both caches of products, under the keys they are built with, agree with the table and
  -- the database answers, reading a product by its own identifier or by its video's gives what a
  -- read of the table gives, whichever calls of Redis get through, and leaves the cache that it
  -- reads in agreement.
  pub get_by-find_by :
      (c : Calls) (id : Uuid) (products : List Product) (s : R.Store)
      → HasKeys C
      → IsCoherent C.by_id R T (row products) s
      → IsCoherent C.by_video R T (row_of_video products) s
      → ((get_by_id C T R c true id products s).0 ≡ find_by_id true id products)
        × IsCoherent C.by_id R T (row products) (get_by_id C T R c true id products s).1
        × ((get_by_video_id C T R c true id products s).0 ≡ find_by_video_id true id products)
        × IsCoherent C.by_video R T
            (row_of_video products)
            (get_by_video_id C T R c true id products s).1
  unfolding get_by_id get_by_video_id
  get_by-find_by c id products s k h g =
      let r =
        read_through-IsAnswered C.by_id R T product_not_found (row products) c
          (λ (p : Product). p.id) id s (by_id-IsKeyed C T R k) (lookup-id products id) h in
      let q =
        read_through-IsAnswered C.by_video R T product_not_found (row_of_video products) c
          (λ (p : Product). id) id s (by_video-IsKeyed C T R k) (λ v e. refl) g in
      rw (find_by_id-answer id products, find_by_video_id-answer id products) (r.0, r.1, q.0, q.1)
