-- ===== src/Orchestrator/StateMachine.antt =====
-- services/orchestrator/state_machine.go over the tables of db.go: the life of a test.
-- Postgres and Redis are explicit state: what the statements of db.go do to the rows, and what
-- `SETNX`, `HSET`, `DEL` do to the keys that the orchestrator uses. Redis, Kafka and the metrics
-- writer are configured. What other instances do to the table in the meantime, and whether a
-- statement of the own instance fails, is a `Race`; a failed `SETNX` is an argument. Keys do not
-- expire by themselves, the handlers of one instance run one after another, heartbeats, gauges,
-- logs and the texts of metrics are left out. The wait of `StopTest` is the second race's `before`.
pub mod Transition
pub mod Lifecycle
pub mod Ending
use alpha_exchange.Base.{
  ℕ, ◌+◌, ◌==◌, if◌then◌else◌, Bool, true, false, List, [], ◌∷◌, ◌++◌, Option, none, some, String,
  str_eq, delete, assign,
}
use alpha_exchange.Base.Dict.{Dict, lookup, insert, erase}
use alpha_exchange.Base.Int.{ℤ, pos, negsuc}

-- The column `tests.status`.
pub data Status : Type 0 where
  pending running stopping completed failed : Status

-- The columns of `tests` that the state machine writes.
pub record Row : Type 0 where
  pub status : Status
  pub instance_id : String
  pub failure_reason : Option String
  pub ended : Bool

pub record StartTestEvent : Type 0 where
  pub test_id : String
  pub contestant_id : String
  pub duration_seconds : ℤ

-- The lock's holder and the seconds of its TTL.
pub record Lock : Type 0 where
  pub holder : String
  pub ttl : ℕ

-- Of the hash metrics:<contestant>, the name and whether the final score is published.
pub record MetricsHash : Type 0 where
  pub contestant_name : String
  pub completed : Bool

pub data Published : Type 0 where
  start_forwarded : StartTestEvent → Published
  stop_published : String → String → Published

pub record World : Type 0 where
  pub rows : Dict Row
  pub locks : Dict Lock  -- lock:test:<contestant>
  pub hash_status : Dict Status  -- test:<id> status
  pub hash_contestant : Dict String  -- test:<id> contestant_id
  pub metrics : Dict MetricsHash
  pub active : Dict String
  pub timers : Dict ℕ  -- the time until `StopTest`, in seconds at a start
  pub published : List Published

pub data Error : Type 0 where
  read_failed cas_failed concurrent_modification lock_failed : Error
  illegal_transition : Status → Status → Error

-- `ok` is a nil error.
pub data Result : Type 0 where
  ok : Result
  err : Error → Result

-- What meets one `TransitionTo`: the other instances' statements before its read and between its
-- read and its update, and whether the two statements of its own succeed; and whether the requests
-- succeed whose errors the code ignores: `SetFailureReason`, and past the transition `MarkEnded` and
-- the `DEL` of the lock.
pub record Race : Type 0 where
  pub before : Dict Row → Dict Row
  pub between : Dict Row → Dict Row
  pub read_ok : Bool
  pub cas_ok : Bool
  pub reason_ok : Bool
  pub ended_ok : Bool
  pub del_ok : Bool

unfoldable pub legal_transitions : Status → Status → Bool
legal_transitions pending running = true
legal_transitions pending failed = true
legal_transitions running stopping = true
legal_transitions running failed = true
legal_transitions stopping completed = true
legal_transitions stopping failed = true
legal_transitions _ _ = false

unfoldable pub same_status : Status → Status → Bool
same_status pending pending = true
same_status running running = true
same_status stopping stopping = true
same_status completed completed = true
same_status failed failed = true
same_status _ _ = false

-- `UPDATE … WHERE id = $1 AND status = $2`: the rows after it, and whether one was updated.
unfoldable pub cas_status : String → Status → Status → String → Dict Row → Dict Row × Bool
unfolding same_status
cas_status test_id from to instance rows = elim (lookup test_id rows) [
  | none ↦ (rows, false)
  | some r ↦
      if same_status r.status from
      then (insert test_id (record r { status = to; instance_id = instance }) rows, true)
      else (rows, false)
]

-- `reason != ""` is `some reason`.
unfoldable pub set_failure_reason : String → Option String → Dict Row → Dict Row
set_failure_reason test_id none rows = rows
set_failure_reason test_id (some reason) rows = elim (lookup test_id rows) [
  | none ↦ rows
  | some r ↦ insert test_id (record r { failure_reason = some reason }) rows
]

-- A `DEL` that fails leaves the lock.
unfoldable pub release_lock : Bool → String → World → World
release_lock del_ok contestant w =
    if str_eq contestant ""
    then w
    else if del_ok
    then record w { locks = erase contestant w.locks }
    else w

unfoldable pub cancel_timer : String → World → World
cancel_timer test_id w = record w { timers = erase test_id w.timers }

unfoldable pub finish : Bool → String → String → World → World
unfolding release_lock
finish del_ok test_id contestant w =
    release_lock del_ok contestant
      (record w { active = erase test_id w.active; timers = erase test_id w.timers })

unfoldable pub contestant_for : String → World → String
contestant_for test_id w = elim (lookup test_id w.active) [
  | some c ↦ c
  | none ↦ elim (lookup test_id w.hash_contestant) [ some c ↦ c | none ↦ "" ]
]

unfoldable pub publish : Published → World → World
publish p w = record w { published = w.published ++ p ∷ [] }

-- `ended_at` and `final_score`.
unfoldable pub mark_ended : Bool → String → Dict Row → Dict Row
mark_ended false test_id rows = rows
mark_ended true test_id rows = elim (lookup test_id rows) [
  | none ↦ rows
  | some r ↦ insert test_id (record r { ended = true }) rows
]

-- `PublishFinalScore` with the name that `readWindow` has found.
unfoldable pub publish_final_score : String → World → World
publish_final_score contestant w = if str_eq contestant "" then w else record w {
  metrics =
      insert contestant
        (record {
          contestant_name = elim (lookup contestant w.metrics) [
            | some m ↦ m.contestant_name
            | none ↦ ""
          ];
          completed = true;
        })
        w.metrics;
}

unfoldable pub active_tests : World → Dict String
active_tests w = w.active

unfoldable pub register_recovered_timer : String → String → ℕ → World → World
register_recovered_timer test_id contestant remaining w = record w {
  active = insert test_id contestant w.active;
  timers = insert test_id remaining w.timers;
}

-- The seconds of a test: the default where the event's are not positive.
unfoldable pub duration_of : ℕ → ℤ → ℕ
duration_of default (pos n) = if n == 0 then default else n
duration_of default (negsuc n) = default

module _ (instance : String) where
  -- The update, once the row has been read.
  unfoldable pub compare_and_set :
      Race → String → Status → Status → Option String → World → World × Result
  compare_and_set race test_id current new_state reason w =
      let rows = race.between w.rows in
      let (updated, done) = cas_status test_id current new_state instance rows in
      if race.cas_ok
      then (if done
          then (
            record w {
              rows = set_failure_reason test_id (if race.reason_ok then reason else none) updated;
              hash_status = insert test_id new_state w.hash_status;
            },
            ok,
          )
          else (record w { rows = rows }, err concurrent_modification))
      else (record w { rows = rows }, err cas_failed)

  unfoldable pub transition_to : Race → String → Status → Option String → World → World × Result
  transition_to race test_id new_state reason w =
      let rows = race.before w.rows in
      elim (lookup test_id rows) [
        | none ↦ (record w { rows = rows }, err read_failed)
        | some r ↦
            if race.read_ok
            then (if legal_transitions r.status new_state
                then compare_and_set race test_id r.status new_state reason
                    (record w { rows = rows })
                else (record w { rows = rows }, err (illegal_transition r.status new_state)))
            else (record w { rows = rows }, err read_failed)
      ]

  -- The effects of a start, after its transition. `name` is what `GetContestantName` returns.
  unfoldable pub started : StartTestEvent → ℕ → String → World → World
  unfolding publish
  started ev duration name w =
      let cleared = erase ev.contestant_id w.metrics in
      let w' = publish (start_forwarded ev) (record w {
        metrics =
            if str_eq name ""
            then cleared
            else insert ev.contestant_id (record { contestant_name = name; completed = false })
                cleared;
        hash_contestant = insert ev.test_id ev.contestant_id w.hash_contestant;
      }) in
      record w' {
        active = insert ev.test_id ev.contestant_id w.active;
        timers = insert ev.test_id duration w.timers;
      }

  unfoldable pub start_locked : Race → StartTestEvent → ℕ → String → World → World × Result
  start_locked race ev duration name w =
      let (w', r) = transition_to race ev.test_id running none w in
      elim r [
        | ok ↦ (started ev duration name w', ok)
        | err e ↦ (release_lock race.del_ok ev.contestant_id w', err e)
      ]

  -- `default_duration` is `cfg.DefaultDurationSec`.
  unfoldable pub start_test : ℕ → Bool → Race → StartTestEvent → String → World → World × Result
  start_test default_duration setnx_ok race ev name w =
      let duration = duration_of default_duration ev.duration_seconds in
      if setnx_ok
      then elim (lookup ev.contestant_id w.locks) [
        | some l ↦ (w, err concurrent_modification)
        | none ↦ start_locked race ev duration name (record w {
          locks =
              insert ev.contestant_id (record { holder = ev.test_id; ttl = duration + 30 }) w.locks;
        })
      ]
      else (w, err lock_failed)

  -- The second half of a stop, after the transition to stopping and the wait.
  unfoldable pub complete_test : Race → String → String → World → World × Result
  unfolding publish_final_score
  complete_test race test_id contestant w =
      let (w', r) = transition_to race test_id completed none (publish_final_score contestant w) in
      elim r [
        | ok ↦ (
          finish race.del_ok test_id contestant
              (record w' { rows = mark_ended race.ended_ok test_id w'.rows }),
          ok,
        )
        | err e ↦ (w', err e)
      ]

  unfoldable pub stop_test : Race → Race → String → String → World → World × Result
  stop_test race race' test_id reason w =
      let (w', r) = transition_to race test_id stopping none (cancel_timer test_id w) in
      elim r [
        | ok ↦
            let contestant = contestant_for test_id w' in
            complete_test race' test_id contestant (publish (stop_published test_id reason) w')
        | err e ↦ (w', err e)
      ]

  unfoldable pub fail_test : Race → String → String → World → World × Result
  fail_test race test_id reason w =
      let timed = cancel_timer test_id w in
      let contestant = contestant_for test_id timed in
      let (w', r) = transition_to race test_id failed (some reason) timed in
      elim r [
        | ok ↦
            (finish race.del_ok test_id contestant (publish (stop_published test_id reason) w'), ok)
        | err e ↦ (w', err e)
      ]
