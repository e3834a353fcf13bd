-- ===== src/Examples/Likes.antt =====
-- The like path on two users and two videos, in a store in memory.
use vidmerce.Prelude.{◌≡◌, refl, true, false, [], ◌∷◌, some, text, arith, if◌then◌else◌}
use vidmerce.Prelude.Int.{pos}
use vidmerce.Uuid.{Uuid, letters}
use vidmerce.Redis.{Message}
use vidmerce.Redis.Memory.{empty, in_memory}
use vidmerce.Like.Service.{like, apply}
use vidmerce.Like.Service.Effects.{event_of, wanted}
use vidmerce.Like.Service.Counter.{IsCounted, likers, apply-IsCounted}
use vidmerce.Like.Service.Replies.{apply-State}
use vidmerce.Like.Repository.{
  Db, Result, Row, has_edge, stored, edges_of, sample_video_ids, contains,
}
use vidmerce.Like.Repository as Repository
use vidmerce.Like.Repository.Counts.{IsSound, after, apply-IsSound}
use vidmerce.Like.Worker.{World, Delivery, Poll, delivered, process_all}
use vidmerce.Like.Worker as Worker
use vidmerce.Like.Worker.Outcomes.{IsKnownMessage, run-IsSound}
use vidmerce.Like.Worker.Redelivery.{redelivery}
use vidmerce.Like.Reconciler.{Round, once, check_one, no_tally}
use vidmerce.Like.Reconciler.Passes.{once-stored, race, racing, set_exact}

abbrev pub tables : Db
tables = record {
  users = 1 ∷ 2 ∷ [];
  videos = 7 ∷ 8 ∷ [];
  likes = (2, 7) ∷ [];
  video_stats =
      record { video_id = 7; likes_count = 1; updated_at = 5 }
      ∷ record { video_id = 8; likes_count = 0; updated_at = 4 }
      ∷ [];
}

tables-IsSound : IsSound tables
unfolding has_edge edges_of
tables-IsSound = record { keyed = (refl, tt); exact = (refl, (refl, tt)) }

apply-IsSound_example : IsSound (after tables (Repository.apply true 1 7 like 9 tables))
apply-IsSound_example = apply-IsSound true 1 7 like 9 tables tables-IsSound

abbrev first_like : Message
first_like = record { id = text "1"; values = event_of letters 1 7 like (text "11") }

first_like-IsKnownMessage : IsKnownMessage letters tables first_like
unfolding IsKnownMessage
first_like-IsKnownMessage =
    rw
      (IsKnownMessage, Worker.Outcomes.parse_event-event_of letters (text "1") 1 7 like (text "11"))
      (unfold Repository.contains in (refl, refl))

abbrev delivery : Delivery
delivery = record { message = first_like; up = true; ack_up = false; now = 9 }

abbrev world : World
world = record { db = tables; acked = [] }

redelivery_example :
    (has_edge 1 7
        (process_all letters (delivery ∷ []) (process_all letters (delivery ∷ []) world)).db.likes
      ≡ has_edge 1 7 (process_all letters (delivery ∷ []) world).db.likes)
    × (stored 7
          (process_all letters
            (delivery ∷ [])
            (process_all letters (delivery ∷ []) world)).db.video_stats
        ≡ stored 7 (process_all letters (delivery ∷ []) world).db.video_stats)
redelivery_example =
    redelivery letters (delivery ∷ []) world 1 7 tables-IsSound
      ((refl, first_like-IsKnownMessage), tt)

abbrev alone : Uuid → Round
alone v = record {
  count_up = true;
  edges_up = true;
  write_up = true;
  between_reads = λ d. d;
  before_write = λ d. d;
  now = 9;
}

abbrev drifted : Db
drifted = record tables { likes = [] }

once-stored_example :
    (stored 7 (once true 2 alone drifted).1.video_stats ≡ (
      if contains 7 (8 ∷ 7 ∷ [])
      then set_exact (stored 7 drifted.video_stats) (edges_of 7 drifted.likes)
      else stored 7 drifted.video_stats))
    × ((once true 2 alone drifted).1.likes ≡ drifted.likes)
once-stored_example =
    once-stored alone (λ v. (refl, refl, refl, (λ d. refl), (λ d. refl))) 2 drifted (8 ∷ 7 ∷ []) 7
      (unfold sample_video_ids in refl)

race_example :
    (stored 8 (check_one (racing 1 2 8 9) 8 (no_tally, tables)).1.video_stats ≡ some 1)
    × (edges_of 8 (check_one (racing 1 2 8 9) 8 (no_tally, tables)).1.likes ≡ 2)
race_example =
    race 1 2 8 9 tables no_tally 0 tables-IsSound (unfold Repository.contains in (refl, refl))
      (unfold Repository.contains in (refl, refl)) (λ e. omega arith) (unfold has_edge in refl)
      (unfold has_edge in refl) (unfold stored in refl)

-- Nobody likes anything yet.
empty-IsCounted : IsCounted letters in_memory (1 ∷ 2 ∷ []) empty
unfolding likers
empty-IsCounted v = refl

apply-IsCounted_example :
    IsCounted letters in_memory
      (1 ∷ 2 ∷ [])
      (apply letters in_memory true 1 7 like (text "11") empty).1
apply-IsCounted_example =
    apply-IsCounted letters in_memory (1 ∷ 2 ∷ []) true 1 7 like (text "11") empty refl
      empty-IsCounted

apply-State_example :
    (apply letters in_memory true 1 7 like (text "11") empty).0
    ≡ some (record {
      liked = wanted like;
      count = pos (
          likers letters in_memory
            (1 ∷ 2 ∷ [])
            7
            (apply letters in_memory true 1 7 like (text "11") empty).1);
    })
apply-State_example =
    apply-State letters in_memory (1 ∷ 2 ∷ []) 1 7 like (text "11") empty refl empty-IsCounted
