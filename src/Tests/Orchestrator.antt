-- ===== src/Tests/Orchestrator.antt =====
-- The state machine on a small world.
use alpha_exchange.Base.{◌≡◌, refl, [], ◌∷◌, none, true, false}
use alpha_exchange.Base.Int.{pos}
use alpha_exchange.Base.Dict.{lookup, insert}
use alpha_exchange.Orchestrator.StateMachine.{
  Status, pending, running, completed, Row, World, illegal_transition, StartTestEvent,
  transition_to, cancel_timer, start_test, stop_test, contestant_for, legal_transitions, cas_status,
  compare_and_set, duration_of, set_failure_reason, start_locked, complete_test, publish,
}
use alpha_exchange.Orchestrator.StateMachine.Transition.{Transitioned, transition_to-ok, calm}
use alpha_exchange.Orchestrator.StateMachine.Lifecycle.{Started, start_test-ok, start_test-err}
use alpha_exchange.Orchestrator.StateMachine.Ending.{Stopped, stop_test-ok}

abbrev row : Status → Row
row s = record { status = s; instance_id = "o1"; failure_reason = none; ended = false }

abbrev world : Status → World
world s = record {
  rows = ("t", row s) ∷ [];
  locks = [];
  hash_status = [];
  hash_contestant = [];
  metrics = [];
  active = ("t", "c") ∷ [];
  timers = [];
  published = [];
}

abbrev event : StartTestEvent
event = record { test_id = "t"; contestant_id = "c"; duration_seconds = pos 60 }

transition_to-ok_example :
    Transitioned "o2" "t" running
      (world pending).rows
      (transition_to "o2" calm "t" running none (world pending)).0.rows
unfolding transition_to lookup legal_transitions compare_and_set cas_status
transition_to-ok_example = transition_to-ok "o2" calm "t" running none (world pending) refl

start_test-ok_example :
    (lookup "c" (world pending).locks ≡ none)
    × Started "o2" event 60 (start_test "o2" 300 true calm event "name" (world pending)).0
unfolding transition_to lookup legal_transitions compare_and_set cas_status start_test start_locked
    duration_of
start_test-ok_example = start_test-ok "o2" 300 calm event "name" (world pending) refl

start_test-err_example :
    let w = (start_test "o2" 300 true calm event "name" (world completed)).0 in
    (lookup "c" w.locks ≡ none)
    × (w.active ≡ (world completed).active)
    × (w.timers ≡ (world completed).timers)
    × (w.published ≡ (world completed).published)
unfolding transition_to lookup legal_transitions compare_and_set cas_status start_test start_locked
start_test-err_example =
    start_test-err "o2" 300 calm event "name" (world completed)
      (illegal_transition completed running) refl refl refl refl

stop_test-ok_example :
    Stopped "o2" "t"
      (contestant_for "t" (world running))
      (stop_test "o2" calm calm "t" "manual" (world running)).0
unfolding transition_to lookup legal_transitions compare_and_set cas_status stop_test complete_test
    insert set_failure_reason cancel_timer contestant_for publish
stop_test-ok_example = stop_test-ok "o2" calm calm "t" "manual" (world running) refl refl refl refl
