-- ===== src/Http/Views.antt =====
-- internal/view/handler.go, and its route behind the middleware of internal/platform/jwt.
pub mod Tracking
use vidmerce.Prelude.{ℕ, List, Option, none, some, Bytes, text}
use vidmerce.Prelude.Int.{ℤ, pos}
use vidmerce.Uuid.{Uuid, UuidText}
use vidmerce.Redis.{Redis}
use vidmerce.Http.{Reply, accepted, error, code_validation_failed, code_internal}
use vidmerce.Jwt.{Signer, optional_auth}
use vidmerce.View.{Input, Result}
use vidmerce.View.Filters.{Filter}
use vidmerce.View.Hash.{Sha, hash_ip, hash_ua}
use vidmerce.View.Service.{Calls, track}

-- What gin leaves in `trackBody`, whose errors are ignored, and what it says of the client.
pub record Request : Type 0 where
  pub watch_ms : ℤ
  pub country : Bytes
  pub client_ip : Bytes
  pub user_agent : Bytes

unfoldable pub input_of : Sha → Request → Option Uuid → Uuid → Input
input_of H q viewer video = record {
  video_id = video;
  viewer_id = viewer;
  ip_hash = hash_ip H q.client_ip;
  ua_hash = hash_ua H q.user_agent;
  country = q.country;
  watch_ms = q.watch_ms;
  duration_sec = pos 0;
}

unfoldable pub tracked_reply : Option Result → Reply Result
tracked_reply none = error 500 code_internal (text "track failed")
tracked_reply (some r) = accepted r

module _ (H : Sha) (T : UuidText) (R : Redis) where
  open R use {Store}

  unfoldable pub track_for :
      Calls
      → List (Filter Store)
      → Request
      → Option Uuid
      → Option Uuid
      → Store
      → Reply Result × Store
  unfolding tracked_reply input_of
  track_for c chain q viewer none s =
      (error 400 code_validation_failed (text "invalid video id"), s)
  track_for c chain q viewer (some video) s =
      let r = track T R c chain (input_of H q viewer video) s in (tracked_reply r.0, r.1)

  -- `Track`, behind `OptionalAuth`: POST /videos/:id/view
  unfoldable pub post_view :
      Signer
      → ℕ
      → Bytes
      → Calls
      → List (Filter Store)
      → Request
      → Bytes
      → Store
      → Reply Result × Store
  unfolding track_for
  post_view S now header c chain q param s =
      track_for c chain q (optional_auth S now header) (T.parse param) s
