-- ===== src/Product/Service/Keys.antt =====
-- The keys of the caches: no two of them meet.
use vidmerce.Prelude.{
  ◌≡◌, refl, ◌∙◌, ◌++◌, Bytes, text, beq, beq_prefix, beq_suffix, beq_marked, beq_marked_sym,
}
use vidmerce.Uuid.{UuidText, beq-to_string}
use vidmerce.Redis.{Redis}
use vidmerce.Cache.Coherence.{IsKeyed}
use vidmerce.Cache.Apart.{IsDisjoint}
use vidmerce.Product.Service.{Caches}

-- The keys that the caches are built with.
pub record HasKeys (C : Caches) : Type 0 where
  pub video_key : (id : Bytes) → C.of_videos.key_fn id ≡ text "video:" ++ id
  pub product_key : (id : Bytes) → C.by_id.key_fn id ≡ text "product:" ++ id
  pub by_video_key : (id : Bytes) → C.by_video.key_fn id ≡ text "video:" ++ (id ++ text ":product")

module _ (C : Caches) (T : UuidText) (R : Redis) (k : HasKeys C) where
  pub of_videos-IsKeyed : IsKeyed C.of_videos R T
  of_videos-IsKeyed a b =
      rw (k.video_key (T.to_string a), k.video_key (T.to_string b))
        (beq_prefix (text "video:") (T.to_string a) (T.to_string b) ∙ beq-to_string T a b)

  pub by_id-IsKeyed : IsKeyed C.by_id R T
  by_id-IsKeyed a b =
      rw (k.product_key (T.to_string a), k.product_key (T.to_string b))
        (beq_prefix (text "product:") (T.to_string a) (T.to_string b) ∙ beq-to_string T a b)

  pub by_video-IsKeyed : IsKeyed C.by_video R T
  by_video-IsKeyed a b =
      rw (k.by_video_key (T.to_string a), k.by_video_key (T.to_string b))
        (beq_prefix (text "video:") (T.to_string a ++ text ":product")
            (T.to_string b ++ text ":product")
          ∙ (beq_suffix (T.to_string a) (T.to_string b) (text ":product") ∙ beq-to_string T a b))

  pub videos-products : IsDisjoint C.of_videos C.by_id R T
  unfolding beq
  videos-products a b = rw (k.product_key (T.to_string a), k.video_key (T.to_string b)) refl

  pub products-videos : IsDisjoint C.by_id C.of_videos R T
  unfolding beq
  products-videos a b = rw (k.video_key (T.to_string a), k.product_key (T.to_string b)) refl

  pub products-by_video : IsDisjoint C.by_id C.by_video R T
  unfolding beq
  products-by_video a b = rw (k.by_video_key (T.to_string a), k.product_key (T.to_string b)) refl

  pub by_video-products : IsDisjoint C.by_video C.by_id R T
  unfolding beq
  by_video-products a b = rw (k.product_key (T.to_string a), k.by_video_key (T.to_string b)) refl

  pub videos-by_video : IsDisjoint C.of_videos C.by_video R T
  videos-by_video a b =
      rw (k.by_video_key (T.to_string a), k.video_key (T.to_string b))
        (beq_prefix (text "video:") (T.to_string a ++ text ":product") (T.to_string b)
          ∙ beq_marked_sym b':' (T.to_string b) (T.to_string a) (text "product")
              (T.to_string_no_colon b))

  pub by_video-videos : IsDisjoint C.by_video C.of_videos R T
  by_video-videos a b =
      rw (k.video_key (T.to_string a), k.by_video_key (T.to_string b))
        (beq_prefix (text "video:") (T.to_string a) (T.to_string b ++ text ":product")
          ∙ beq_marked b':' (T.to_string a) (T.to_string b) (text "product")
              (T.to_string_no_colon a))
