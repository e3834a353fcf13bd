-- ===== src/Like/Service/Keys.antt =====
-- The keys of the like service: no two of them meet.
use vidmerce.Prelude.{◌≡◌, refl, ◌∙◌, false, text, beq, ◌==◌, beq_prefix, beq_suffix}
use vidmerce.Uuid.{Uuid, UuidText, beq-to_string}
use vidmerce.Like.Service.{stream_key, user_liked_set_key, video_likes_count_key}

module _ (T : UuidText) where
  -- Keys of the three kinds differ.
  pub set_key-ne-count_key :
      (u v : Uuid) → beq (video_likes_count_key T v) (user_liked_set_key T u) ≡ false
  unfolding user_liked_set_key video_likes_count_key beq
  set_key-ne-count_key u v = refl

  pub count_key-ne-set_key :
      (u v : Uuid) → beq (user_liked_set_key T u) (video_likes_count_key T v) ≡ false
  unfolding user_liked_set_key video_likes_count_key beq
  count_key-ne-set_key u v = refl

  pub stream_key-ne-set_key : (u : Uuid) → beq stream_key (user_liked_set_key T u) ≡ false
  unfolding user_liked_set_key beq
  stream_key-ne-set_key u = refl

  pub set_key-ne-stream_key : (u : Uuid) → beq (user_liked_set_key T u) stream_key ≡ false
  unfolding user_liked_set_key beq
  set_key-ne-stream_key u = refl

  pub stream_key-ne-count_key : (v : Uuid) → beq stream_key (video_likes_count_key T v) ≡ false
  unfolding video_likes_count_key beq
  stream_key-ne-count_key v = refl

  pub count_key-ne-stream_key : (v : Uuid) → beq (video_likes_count_key T v) stream_key ≡ false
  unfolding video_likes_count_key beq
  count_key-ne-stream_key v = refl

  -- Two users have one set key only if they are one.
  pub beq-user_liked_set_key :
      (u v : Uuid) → beq (user_liked_set_key T u) (user_liked_set_key T v) ≡ (u == v)
  unfolding user_liked_set_key
  beq-user_liked_set_key u v =
      beq_prefix (text "user:") _ _ ∙ beq_suffix _ _ (text ":liked:videos") ∙ beq-to_string T u v

  pub beq-video_likes_count_key :
      (u v : Uuid) → beq (video_likes_count_key T u) (video_likes_count_key T v) ≡ (u == v)
  unfolding video_likes_count_key
  beq-video_likes_count_key u v =
      beq_prefix (text "video:") _ _ ∙ beq_suffix _ _ (text ":likes") ∙ beq-to_string T u v
