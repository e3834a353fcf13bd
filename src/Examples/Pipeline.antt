-- ===== src/Examples/Pipeline.antt =====
-- A like and an unlike on their way to Postgres.
use vidmerce.Prelude.{◌≡◌, ◌≢◌, refl, true, false, List, [], ◌∷◌, text, arith}
use vidmerce.Uuid.{letters, letter_parse}
use vidmerce.Prelude.{beq}
use vidmerce.Redis.{Message}
use vidmerce.Redis.Memory.{empty, in_memory}
use vidmerce.Like.Service.{like, apply, user_liked_set_key, like_script, script_like}
use vidmerce.Like.Service.Effects.{event_of}
use vidmerce.Like.Repository.{has_edge, contains}
use vidmerce.Like.Worker.{parse_event}
use vidmerce.Like.Worker.Outcomes.{outcome, effect}
use vidmerce.Like.Pipeline.{System, Action, request, deliver, reconcile, run, step, unread}
use vidmerce.Like.Pipeline.Agreement.{Agrees, step-Agrees, caught_up}
use vidmerce.Like.Pipeline.Loss.{failed_apply_is_lost}
use vidmerce.Examples.Likes.{tables}

abbrev start : System in_memory
start = record {
  redis = empty;
  world = record { db = record tables { likes = [] }; acked = [] };
  cursor = 0;
}

start-Agrees : Agrees letters in_memory start
unfolding outcome has_edge
start-Agrees = record { handed = omega arith; known = tt; agree = λ u v. refl }

abbrev liked : List Action
liked = request true 1 7 like (text "11") ∷ deliver true true 3 ∷ reconcile true 7 1 4 ∷ []

read_all : unread letters in_memory (run letters in_memory liked start) ≡ []
unfolding run step apply like_script beq script_like
read_all = refl

caught_up_example :
    has_edge 1 7 (run letters in_memory liked start).world.db.likes
    ≡ in_memory.is_member
        (user_liked_set_key letters 1)
        (letters.to_string 7)
        (run letters in_memory liked start).redis
caught_up_example =
    caught_up letters in_memory liked start start-Agrees
      (((unfold contains in (refl, refl)), omega arith), (refl, (tt, tt))) read_all 1 7

abbrev requested : System in_memory
requested = step letters in_memory (request true 1 7 like (text "11")) start

requested-Agrees : Agrees letters in_memory requested
requested-Agrees =
    step-Agrees letters in_memory (request true 1 7 like (text "11")) start
      ((unfold contains in (refl, refl)), omega arith) start-Agrees

abbrev entry : Message
entry = record { id = 0 ∷ []; values = event_of letters 1 7 like (text "11") }

entry-unread : unread letters in_memory requested ≡ entry ∷ []
unfolding step apply like_script beq script_like
entry-unread = refl

entry_asks :
    effect letters 1 7 entry (has_edge 1 7 requested.world.db.likes)
    ≢ has_edge 1 7 requested.world.db.likes
unfolding step effect parse_event letter_parse beq has_edge
entry_asks e = cc

failed_apply_is_lost_example :
    has_edge 1 7
      (run letters in_memory
        (reconcile true 7 1 4 ∷ [])
        (step letters in_memory (deliver false true 3) requested)).world.db.likes
    ≢ in_memory.is_member
        (user_liked_set_key letters 1)
        (letters.to_string 7)
        (run letters in_memory
          (reconcile true 7 1 4 ∷ [])
          (step letters in_memory (deliver false true 3) requested)).redis
failed_apply_is_lost_example =
    failed_apply_is_lost letters in_memory 1 7 true 3 requested entry [] (reconcile true 7 1 4 ∷ [])
      requested-Agrees entry-unread tt entry_asks (tt, tt)
