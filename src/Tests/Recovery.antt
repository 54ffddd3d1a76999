-- ===== src/Tests/Recovery.antt =====
-- Dispatch, recovery and offsets on small runs.
use alpha_exchange.Base.{ℕ, ◌≡◌, refl, [], ◌∷◌, none, true, false}
use alpha_exchange.Base.Int.{pos}
use alpha_exchange.Base.Dict.{lookup}
use alpha_exchange.Orchestrator.StateMachine.{
  Status, stopping, Row, World, cancel_timer, StartTestEvent, Lock,
}
use alpha_exchange.Orchestrator.StateMachine.Transition.{calm}
use alpha_exchange.Orchestrator.Dispatch.{start_requested, dispatch}
use alpha_exchange.Orchestrator.Recovery.{
  Orphan, Shared, container_healthy, remaining_duration, recover_locked, recover_once,
}
use alpha_exchange.Orchestrator.Recovery.Passes.{recover_locked-stopping}

abbrev row_in : Status → Row
row_in s = record { status = s; instance_id = "gone"; failure_reason = none; ended = false }

abbrev held_lock : Lock
held_lock = record { holder = "t"; ttl = 90 }

abbrev world_in : Status → World
world_in s = record {
  rows = ("t", row_in s) ∷ [];
  locks = ("c", held_lock) ∷ [];
  hash_status = [];
  hash_contestant = [];
  metrics = [];
  active = [];
  timers = [];
  published = [];
}

abbrev events : alpha_exchange.Orchestrator.Dispatch.Setting
events = record {
  instance = "o";
  auto_trigger_tests = false;
  default_duration = 60;
  setnx_ok = true;
  first_race = λ id. calm;
  second_race = λ id. calm;
  name_of = λ id. id;
  start_failed = λ e. "start_failed";
  test_auto = λ id. id;
}

abbrev start_event : StartTestEvent
start_event = record { test_id = "t"; contestant_id = "c"; duration_seconds = pos 60 }

abbrev recovering : ℕ → alpha_exchange.Orchestrator.Recovery.Setting
recovering now = record {
  instance = "o";
  now = now;
  default_duration_sec = 60;
  lock_ok = true;
  claim_ok = λ id. true;
  first_race = λ id. calm;
  second_race = λ id. calm;
}

abbrev orphan : Orphan
orphan = record {
  id = "t";
  contestant_id = "c";
  target_ip = "10.0.0.1";
  target_port = "80";
  answers_ok = true;
  started_at = 5;
}

recover_locked-stopping_example :
    recover_locked (recovering 90_000_000_000) orphan (world_in stopping)
    ≡ cancel_timer "t" (world_in stopping)
unfolding container_healthy remaining_duration lookup
recover_locked-stopping_example =
    recover_locked-stopping (recovering 90_000_000_000) orphan (world_in stopping) (row_in stopping)
      refl refl refl refl refl
