-- ===== src/Orchestrator/Dispatch.antt =====
-- services/orchestrator/consumer.go: what an event does to the state machine's world. An event is
-- what the JSON decodes to; one that does not decode changes nothing. The target and the bot
-- counts, which go to Kafka unread, are left out of a start event.
pub mod Starts
use alpha_exchange.Base.{
  ℕ, if◌then◌else◌, Bool, true, false, List, [], ◌∷◌, none, some, String, str_eq,
}
use alpha_exchange.Base.Dict.{Dict}
use alpha_exchange.Base.Int.{pos}
use alpha_exchange.Orchestrator.StateMachine.{
  StartTestEvent, World, Error, read_failed, cas_failed, concurrent_modification, lock_failed,
  illegal_transition, Result, ok, err, Race, active_tests, start_test, stop_test, fail_test,
}

pub data Event : Type 0 where
  container_ready : String → String → Event  -- the submission and the contestant
  start_requested : StartTestEvent → Event
  stop_requested : String → String → Event  -- the test and the reason
  container_crashed : String → Event  -- the contestant
  other_event : Event

-- What the handlers take from elsewhere: the configuration, whether `SETNX` succeeds, what races
-- with the transitions of a test, the contestants' names, and the texts that are made of errors
-- ("start_failed: " and the error's own) and of submissions ("test_auto_" and the id).
pub record Setting : Type 0 where
  pub instance : String
  pub auto_trigger_tests : Bool
  pub default_duration : ℕ
  pub setnx_ok : Bool
  pub first_race : String → Race
  pub second_race : String → Race
  pub name_of : String → String
  pub start_failed : Error → String
  pub test_auto : String → String

unfoldable pub after_start : Setting → StartTestEvent → World → Result → World
unfolding fail_test
after_start s ev w ok = w
after_start s ev w (err concurrent_modification) = w
after_start s ev w (err e) =
    (fail_test s.instance (s.second_race ev.test_id) ev.test_id (s.start_failed e) w).0

unfoldable pub handle_start : Setting → StartTestEvent → World → World
unfolding start_test after_start
handle_start s ev w =
    let (w', result) =
      start_test s.instance s.default_duration s.setnx_ok (s.first_race ev.test_id) ev
        (s.name_of ev.contestant_id) w in
    after_start s ev w' result

-- The loop over a copy of the running tests.
unfoldable pub fail_tests : Setting → String → Dict String → World → World
unfolding fail_test
fail_tests s contestant [] w = w
fail_tests s contestant (t ∷ ts) w =
    let failed = (fail_test s.instance (s.first_race t.0) t.0 "container_crashed" w).0 in
    if str_eq t.1 contestant
    then fail_tests s contestant ts failed
    else fail_tests s contestant ts w

unfoldable pub dispatch : Setting → Event → World → World
unfolding handle_start stop_test fail_tests active_tests
dispatch s (container_ready submission contestant) w =
    let start : StartTestEvent = record {
      test_id = s.test_auto submission;
      contestant_id = contestant;
      duration_seconds = pos s.default_duration;
    } in
    if s.auto_trigger_tests then handle_start s start w else w
dispatch s (start_requested ev) w = handle_start s ev w
dispatch s (stop_requested test_id reason) w =
    (stop_test s.instance (s.first_race test_id) (s.second_race test_id) test_id reason w).0
dispatch s (container_crashed contestant) w = fail_tests s contestant (active_tests w) w
dispatch s other_event w = w
