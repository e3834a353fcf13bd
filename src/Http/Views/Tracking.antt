-- ===== src/Http/Views/Tracking.antt =====
-- What a request to track a view leaves on the stream.
use vidmerce.Prelude.{
  ℕ, ◌≡◌, ◌<◌, ◌^◌, refl, List, Option, none, some, Bytes, text, All, length, ◌⊎◌, inl, inr,
  Option-cases,
}
use vidmerce.Prelude.Int.{pos}
use vidmerce.Uuid.{Uuid, UuidText}
use vidmerce.Redis.{Redis}
use vidmerce.Http.{error, code_validation_failed}
use vidmerce.Http.Views.{Request, input_of, tracked_reply, track_for, post_view}
use vidmerce.Jwt.{Signer, optional_auth}
use vidmerce.Jwt.Tokens.{IsBearer, optional_auth-IsBearer}
use vidmerce.View.{Result, stream_key, stream_max_len}
use vidmerce.View.Filters.{Filter}
use vidmerce.View.Hash.{Sha, length-hash_ip, length-hash_ua}
use vidmerce.View.Service.{Calls, track}
use vidmerce.View.Service.Emission.{IsQuiet, IsEmitted, track-IsEmitted}

module _ (H : Sha) (T : UuidText) (R : Redis) (S : Signer) where
  open R use {Store, entries}

  -- Nobody, or who holds the token that the header carries.
  abbrev pub IsViewer : ℕ → Bytes → Option Uuid → Type 0
  IsViewer now header viewer =
      (viewer ≡ none) ⊎ ((user : Uuid) × (viewer ≡ some user) × IsBearer S now header user)

  viewer_of : (now : ℕ) (header : Bytes) → IsViewer now header (optional_auth S now header)
  viewer_of now header = elim (Option-cases (optional_auth S now header)) [
    | inl anonymous ↦ inl anonymous
    | inr (user, known) ↦ inr (user, known, optional_auth-IsBearer S now header user known)
  ]

  -- A request to track a view either names no video, is answered 400 and changes nothing; or it is
  -- answered by what tracking it returned: one more entry of the stream, which the worker reads as
  -- the view of that video with the answer's flag, for a view that is accepted, and the same
  -- stream otherwise. The viewer of that view is the holder of a token, not expired, that the
  -- header carries, or nobody. The filters leave the stream alone, the stream has room and the
  -- time fits in 63 bits.
  pub post_view-IsEmitted :
      (now : ℕ) (header : Bytes) (c : Calls) (fs : List (Filter Store)) (q : Request)
      (param : Bytes) (ts : ℕ) (s : Store)
      → All (IsQuiet T R) fs
      → c.clock ≡ pos ts
      → ts < 2 ^ 63
      → length (entries stream_key s) < stream_max_len
      → ((T.parse param ≡ none)
          × (post_view H T R S now header c fs q param s
              ≡ (error 400 code_validation_failed (text "invalid video id"), s)))
        ⊎ ((video : Uuid) × (viewer : Option Uuid) × (o : Option Result) × (T.parse param
              ≡ some video)
            × IsViewer now header viewer
            × ((post_view H T R S now header c fs q param s).0 ≡ tracked_reply o)
            × IsEmitted T R
                (input_of H q viewer video)
                ts
                (entries stream_key s)
                o
                (entries stream_key (post_view H T R S now header c fs q param s).1))
  unfolding post_view track_for
  post_view-IsEmitted now header c fs q param ts s quiet clock small room =
      elim (Option-cases (T.parse param)) [
        | inl bad ↦ inl (bad, rw bad refl)
        | inr (video, good) ↦
            let i = input_of H q (optional_auth S now header) video in
            inr (
              video,
              optional_auth S now header,
              (track T R c fs i s).0,
              good,
              viewer_of now header,
              rw good refl,
              rw good (
                  track-IsEmitted T R c fs i ts s quiet clock
                    (unfold input_of in (length-hash_ip H q.client_ip))
                    (unfold input_of in (length-hash_ua H q.user_agent)) small room),
            )
      ]
