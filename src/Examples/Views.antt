-- ===== src/Examples/Views.antt =====
-- Views and their filters, in a store in memory.
use vidmerce.Prelude.{
  false, Option, none, length, ℕ, ◌+◌, ◌*◌, ◌≤◌, ◌≡◌, ◌≢◌, Bytes, refl, true, List, [], ◌∷◌, ◌++◌,
  some, text, arith, ◌⊎◌,
}
use vidmerce.Prelude.Int.{pos}
use vidmerce.Uuid.{Uuid, letters}
use vidmerce.Redis.{Message}
use vidmerce.Redis.Memory.{Memory, empty, in_memory}
use vidmerce.RateLimit.{Policy, unit}
use vidmerce.RateLimit.{lifetime}
use vidmerce.RateLimit.Conformance.{total, admitted, conformance}
use vidmerce.View.{Result, Input, Event, stream_key}
use vidmerce.View.Policy.{ViewPolicyConfig, rate_policy}
use vidmerce.View.Filters.{Filter, reject, watch_threshold, duration_rate}
use vidmerce.View.Filters.Rates.{minute_bound}
use vidmerce.View.Service.{Calls, view_fields}
use vidmerce.View.Hash.{Sha, zeros}
use vidmerce.Http.{Reply, error, code_validation_failed}
use vidmerce.Http.Views.{Request, input_of, tracked_reply, post_view}
use vidmerce.Http.Views.Tracking.{IsViewer, post_view-IsEmitted}
use vidmerce.Examples.Requests.{plain}
use vidmerce.View.Service.Emission.{IsEmitted, watch_threshold-IsQuiet, duration_rate-IsQuiet}
use vidmerce.View.Worker.{
  State, Poll, WorkerConfig, run, delivered, parse_event, inserted, failed_after,
}
use vidmerce.View.Worker.Parsing.{event_for, parse_event-view_fields}
use vidmerce.View.Worker.Acks.{IsJustified, run-IsJustified}
use vidmerce.View.Worker.Batches.{taken, read, run-taken, run-kept}
use mathlib.Core.List.{Sublistᴰ}

abbrev bucket : Policy
bucket = record { capacity = 2; leak_per_minute = 2; ttl_seconds = 60 }

conformance_example :
    admitted in_memory (text "k") bucket 0 (1_000 ∷ 2_000 ∷ 70_000 ∷ []) empty * unit
    ≤ 2 * unit + total (1_000 ∷ 2_000 ∷ 70_000 ∷ []) * 2
conformance_example =
    conformance in_memory (text "k") bucket 0 (1_000 ∷ 2_000 ∷ 70_000 ∷ []) empty
      (unfold lifetime in omega arith) tt

abbrev config : ViewPolicyConfig
config = record { min_duration_sec = pos 5; unknown_min_watch_ms = pos 1000 }

abbrev policy_of_ten : Policy
policy_of_ten = record { capacity = 6; leak_per_minute = 6; ttl_seconds = 3600 }

rate_of_ten : rate_policy (pos 10) config ≡ some policy_of_ten
unfolding rate_policy
rate_of_ten = refl

minute_bound_example :
    (n : ℕ) × (pos 10 ≡ pos n)
    × ((admitted in_memory (text "k") policy_of_ten 0 (1_000 ∷ 2_000 ∷ []) empty * n ≤ 120)
        ⊎ (admitted in_memory (text "k") policy_of_ten 0 (1_000 ∷ 2_000 ∷ []) empty ≤ 2))
minute_bound_example =
    minute_bound in_memory (text "k") (pos 10) config policy_of_ten 0 (1_000 ∷ 2_000 ∷ []) empty
      rate_of_ten tt (omega arith)

-- A third of a video of ten seconds, to the millisecond below.
abbrev viewed : Input
viewed = record {
  video_id = 7;
  viewer_id = some 1;
  ip_hash = text "0123456789abcdef0123456789abcdef";
  ua_hash = text "0123456789abcdef";
  country = text "NL";
  watch_ms = pos 3333;
  duration_sec = pos 10;
}

abbrev strict : Filter Memory
strict = record { name = text "strict"; allow = λ i s. (reject (text "no"), s) }

abbrev calls : Calls
calls = record {
  duration_up = true;
  unique_ttl = some 86_400;
  unique_up = true;
  add_up = true;
  clock = pos 1_700_000_000_000;
}

abbrev chain : List (Filter Memory)
chain = watch_threshold config ∷ duration_rate letters in_memory config true true 6_000 ∷ []

-- Every digest is zero.
flat_sum : Bytes → Bytes
flat_sum bs = zeros 64

flat_sum-length : (bs : Bytes) → length (flat_sum bs) ≡ 64
unfolding flat_sum zeros
flat_sum-length bs = refl

abbrev flat : Sha
flat = record { hex_sum = flat_sum; length-hex_sum = flat_sum-length }

abbrev request : Request
request = record {
  watch_ms = pos 3333;
  country = text "NL";
  client_ip = text "10.0.0.1";
  user_agent = text "test";
}

abbrev posted : Reply Result × Memory
posted = post_view flat letters in_memory plain 55 [] calls chain request (text "G") empty

post_view-IsEmitted_example :
    ((letters.parse (text "G") ≡ none)
      × (posted ≡ (error 400 code_validation_failed (text "invalid video id"), empty)))
    ⊎ ((video : Uuid) × (viewer : Option Uuid) × (o : Option Result) × (letters.parse (text "G")
          ≡ some video)
        × IsViewer flat letters in_memory plain 55 [] viewer
        × (posted.0 ≡ tracked_reply o)
        × IsEmitted letters in_memory
            (input_of flat request viewer video)
            1_700_000_000_000
            []
            o
            (in_memory.entries stream_key posted.1))
post_view-IsEmitted_example =
    post_view-IsEmitted flat letters in_memory plain 55 [] calls chain request (text "G")
      1_700_000_000_000 empty
      (
        watch_threshold-IsQuiet letters in_memory config,
        (duration_rate-IsQuiet letters in_memory config true true 6_000, tt),
      )
      refl (omega arith) (omega arith)

abbrev entry : Message
entry = record { id = text "1-0"; values = view_fields letters viewed true (pos 1_700_000_000_000) }

parse_event-view_fields_example :
    parse_event letters entry ≡ some (event_for letters (text "1-0") viewed true 1_700_000_000_000)
parse_event-view_fields_example =
    parse_event-view_fields letters (text "1-0") viewed true 1_700_000_000_000 refl refl
      (omega arith)

abbrev event : Event
event = event_for letters (text "1-0") viewed true 1_700_000_000_000

abbrev settings : WorkerConfig
settings = record {
  group = text "g";
  consumer = text "c";
  flush_size = pos 2;
  flush_interval = pos 1000;
  read_batch = pos 10;
}

-- A round in which the sink is down, so the batch is kept.
abbrev polls : List Poll
polls =
    delivered ((entry, true) ∷ (entry, true) ∷ [])
      (record { now = 10; flushed_at = 11; insertion = failed_after (λ e. false); ack_up = true })
    ∷ delivered ((entry, true) ∷ [])
        (record { now = 20; flushed_at = 21; insertion = inserted; ack_up = true })
    ∷ []

abbrev idle : State
idle = record { batch = []; batch_ids = []; last_flush = 0; sink = []; acked = [] }

run-taken_example : taken (run letters settings polls idle) ≡ taken idle ++ read letters polls
run-taken_example = run-taken letters settings polls idle ((λ e. refl), (tt, tt))

-- The first insert writes its rows before it fails.
abbrev torn : List Poll
torn =
    delivered ((entry, true) ∷ (entry, true) ∷ [])
      (record { now = 10; flushed_at = 11; insertion = failed_after (λ e. true); ack_up = true })
    ∷ polls

run-kept_example :
    Sublistᴰ (taken idle ++ read letters torn) (taken (run letters settings torn idle))
run-kept_example = run-kept letters settings torn idle

-- Any id but the empty one.
abbrev IsNamed : Bytes → Type 0
IsNamed id = id ≢ []

run-IsJustified_example : IsJustified IsNamed (run letters settings polls idle)
run-IsJustified_example =
    run-IsJustified IsNamed letters settings polls idle
      (((λ e. λ f. cc), ((λ e. λ f. cc), tt)), (((λ e. λ f. cc), tt), tt)) (refl, (λ w. tt))
