-- ===== src/SubmissionApi/Create.antt =====
-- services/submission-api/handlers/test.go: `CreateTest`, with what it asks of
-- services/submission-api/repository. The tables are lists, the newest row first. Whether a
-- statement fails on the way to Postgres, or a message on the way to Kafka, is told by `Faults`, and
-- the uuid of the test is a parameter. Of the START_TEST event, the address of the container is
-- left out.
pub mod Accepted
pub mod Bots
pub mod Exclusive
use alpha_exchange.Base.{
  ℕ, ◌==◌, if◌then◌else◌, Bool, true, false, ◌&&◌, ◌||◌, List, [], ◌∷◌, Option, none, some, String,
  str_eq, is_empty,
}
use alpha_exchange.Base.Dict.{Dict, lookup}
use alpha_exchange.Base.Int.{ℤ, pos, negsuc, to_nat}
use alpha_exchange.BotFleet.Runner.{StartTestEvent, or_defaults}
use alpha_exchange.SubmissionApi.Errors.{
  ApiError, not_found, conflict, validation, unauthorized, internal, validate_test_params,
}

pub record CreateTestRequest : Type 0 where
  pub submission_id : String
  pub duration_seconds : ℤ
  pub bot_count : ℤ
  pub bot_personas : List String

pub record Submission : Type 0 where
  pub contestant_id : String
  pub status : String

pub record Test : Type 0 where
  pub id : String
  pub submission_id : String
  pub contestant_id : String
  pub status : String

-- The state that the handler works on.
pub record Store : Type 0 where
  pub submissions : Dict Submission
  pub tests : List Test
  pub published : List StartTestEvent

pub record Faults : Type 0 where
  pub get_submission : Bool
  pub get_active : Bool
  pub create : Bool
  pub produce : Bool

pub data Response : Type 0 where
  accepted : String → Response  -- 202, with the id of the test
  refused : ApiError → Response
  not_created : Response  -- 500

unfoldable pub is_active_status : String → Bool
is_active_status s = str_eq s "pending" || (str_eq s "running" || str_eq s "stopping")

unfoldable pub get_active_by_contestant_id : String → List Test → Option Test
unfolding is_active_status
get_active_by_contestant_id contestant [] = none
get_active_by_contestant_id contestant (t ∷ ts) =
    let older = get_active_by_contestant_id contestant ts in
    if str_eq t.contestant_id contestant && is_active_status t.status then some t else older

-- A missing number stands as 0.
unfoldable pub or_number : ℕ → ℕ → ℕ
or_number n default = if n == 0 then default else n

unfoldable pub start_event : String → String → CreateTestRequest → StartTestEvent
unfolding or_number or_defaults
start_event test_id contestant req = record {
  test_id = test_id;
  contestant_id = contestant;
  bot_count = or_number (to_nat req.bot_count) 500;
  bot_personas = or_defaults req.bot_personas;
  duration_seconds = or_number (to_nat req.duration_seconds) 300;
}

-- The parts of the handler follow each other by the result of each test.
module _ (faults : Faults) (test_id contestant : String) (req : CreateTestRequest) where
  -- 4. to 6.
  unfoldable pub create_row : Store → Response × Store
  unfolding start_event
  create_row s = if faults.create then (not_created, s) else (
    accepted test_id,
    record s {
      tests =
          record {
            id = test_id;
            submission_id = req.submission_id;
            contestant_id = contestant;
            status = "pending";
          }
          ∷ s.tests;
      published =
          if faults.produce then s.published else start_event test_id contestant req ∷ s.published;
    },
  )

  -- 3.
  unfoldable pub check_active : Option Test → Store → Response × Store
  unfolding create_row
  check_active active s = if faults.get_active then (refused internal, s) else elim active [
    | some t ↦ (refused (conflict "test already running" t.id), s)
    | none ↦ create_row s
  ]

  -- 1. and 2.
  unfoldable pub check_submission : Option Submission → Store → Response × Store
  unfolding check_active get_active_by_contestant_id
  check_submission found s = if faults.get_submission then (refused internal, s) else elim found [
    | none ↦ (refused (not_found "submission not found"), s)
    | some sub ↦
        if str_eq sub.contestant_id contestant
        then (if str_eq sub.status "ready"
            then check_active (get_active_by_contestant_id contestant s.tests) s
            else (refused (conflict "submission is not ready" sub.status), s))
        else (refused (not_found "submission not found"), s)
  ]

  unfoldable pub check_params : Option ApiError → Store → Response × Store
  unfolding check_submission
  check_params (some e) s = (refused e, s)
  check_params none s = check_submission (lookup req.submission_id s.submissions) s

-- The contestant of the context, and the body as it decodes.
unfoldable pub create_test :
    Faults → String → Option String → Option CreateTestRequest → Store → Response × Store
unfolding check_params validate_test_params
create_test faults test_id none body s = (refused (unauthorized "no contestant in context"), s)
create_test faults test_id (some contestant) none s =
    (refused (validation "body" "invalid JSON body"), s)
create_test faults test_id (some contestant) (some req) s =
    if str_eq req.submission_id ""
    then (refused (validation "submission_id" "submission_id is required"), s)
    else check_params faults test_id contestant req
        (validate_test_params req.duration_seconds req.bot_count req.bot_personas) s
