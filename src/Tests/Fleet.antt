-- ===== src/Tests/Fleet.antt =====
-- The bot fleet and the creation of tests at concrete inputs.
use alpha_exchange.Base.{
  ◌++◌, ℕ, ◌+◌, ◌≤◌, ◌≡◌, refl, true, false, List, [], ◌∷◌, length, Option, some, String, arith,
  All, ◌⊎◌,
}
use alpha_exchange.Base.Int.{pos}
use alpha_exchange.Base.Dict.{lookup}
use alpha_exchange.BotFleet.Runner.{StartTestEvent, new_test_runner, assign_personas}
use alpha_exchange.BotFleet.Consumer.{
  Message, start_test, stop_test, container_crashed, ignored, new_consumer, run, close,
}
use alpha_exchange.BotFleet.Consumer.Conservation.{starts, stops, run-stops}
use alpha_exchange.BotFleet.Consumer.Entries.{entries}
use alpha_exchange.BotFleet.Telemetry.{
  Producer, new_producer, LoopStep, flush, emit, starts as begins, emits,
}
use alpha_exchange.BotFleet.Telemetry.Losses.{encoded, Accounts, reached-Accounts}
use alpha_exchange.SubmissionApi.Errors.{is_persona}
use alpha_exchange.BotFleet.Telemetry.Draining.{Runs, rests, reached-drains}
use alpha_exchange.SubmissionApi.Create.{
  CreateTestRequest, Store, Faults, accepted, start_event, create_test,
}
use alpha_exchange.SubmissionApi.Create.Accepted.{
  Refuses, MayStart, IsBounded, is_accepted, with_test, create_test-settles,
}
use alpha_exchange.SubmissionApi.Create.Exclusive.{Request, IsExclusive, serve, serve-IsExclusive}
use alpha_exchange.SubmissionApi.Create.Bots.{create_test-bots}
use alpha_exchange.Tests.Boards.{tenths}

abbrev begin : StartTestEvent
begin = record {
  test_id = "t";
  contestant_id = "c";
  bot_count = 7;
  bot_personas = [];
  duration_seconds = 60;
}

abbrev messages : List Message
messages =
    start_test begin
    ∷ start_test begin
    ∷ ignored
    ∷ container_crashed "c"
    ∷ stop_test "t" "done"
    ∷ start_test begin
    ∷ []

run-stops_example :
    (starts "t" (run messages new_consumer)
      ≡ stops "t" (run messages new_consumer) + entries "t" (run messages new_consumer).runners)
    × (entries "t" (run messages new_consumer).runners ≤ 1)
    × (starts "t" (close (run messages new_consumer))
        ≡ stops "t" (close (run messages new_consumer)))
run-stops_example = run-stops messages "t"

-- An event is its JSON text here.
abbrev as_json : ℕ → Option ℕ
as_json n = some n

abbrev one_queued : Producer ℕ ℕ
one_queued = record {
  queue = 5 ∷ [];
  batch = [];
  dropped = 0;
  sent = 0;
  written = [];
  is_closed = false;
  has_ended = false;
}

reached-Accounts_example : Accounts as_json 999 1 (5 ∷ []) one_queued
unfolding emit new_producer
reached-Accounts_example =
    reached-Accounts as_json 1 (5 ∷ []) one_queued (emits 0 [] new_producer 5 begins)

reached-drains_example :
    (0 + 1 ≡ 1)
    × LoopStep as_json one_queued (flush one_queued)
    × ((flush one_queued).written ++ encoded as_json (5 ∷ []) ≡ encoded as_json (5 ∷ []))
    × ((last : Producer ℕ ℕ) × Runs as_json one_queued 1 last
        × (last.queue ≡ [])
        × (last.batch ≡ [])
        × (last.written ≡ encoded as_json (5 ∷ [])))
unfolding emit new_producer
reached-drains_example =
    reached-drains as_json 1 (5 ∷ []) one_queued 0 one_queued (emits 0 [] new_producer 5 begins)
      refl rests

abbrev request : CreateTestRequest
request = record {
  submission_id = "s";
  duration_seconds = pos 60;
  bot_count = pos 0;
  bot_personas = "whale" ∷ [];
}

abbrev store : Store
store = record {
  submissions = ("s", record { contestant_id = "c"; status = "ready" }) ∷ [];
  tests = [];
  published = [];
}

abbrev no_faults : Faults
no_faults = record { get_submission = false; get_active = false; create = false; produce = false }

create_test-settles_example :
    Refuses store (create_test no_faults "t" (some "c") (some request) store)
    ⊎ ((contestant : String) × (req : CreateTestRequest) × (some "c" ≡ some contestant)
        × (some request ≡ some req)
        × MayStart contestant req store
        × (create_test no_faults "t" (some "c") (some request) store
            ≡ (accepted "t", with_test no_faults "t" contestant req store))
        × IsBounded (start_event "t" contestant req))
create_test-settles_example = create_test-settles no_faults "t" (some "c") (some request) store

abbrev twice : List Request
twice =
    record { faults = no_faults; test_id = "t"; contestant = some "c"; body = some request }
    ∷ record { faults = no_faults; test_id = "u"; contestant = some "c"; body = some request }
    ∷ []

serve-IsExclusive_example : IsExclusive (serve twice store).tests
serve-IsExclusive_example = serve-IsExclusive twice store (λ c. omega arith)

create_test-bots_example :
    (contestant : String) × (req : CreateTestRequest) × (out : List String) × (some request
      ≡ some req)
    × (some "c" ≡ some contestant)
    × (assign_personas tenths (new_test_runner (start_event "t" contestant req)) ≡ some out)
    × (1 ≤ length out)
    × (length out ≤ 1000)
    × All (λ p. is_persona p ≡ true) out
unfolding is_accepted create_test lookup
create_test-bots_example =
    create_test-bots tenths no_faults "t" (some "c") (some request) store refl
