-- ===== src/BotFleet/Consumer.antt =====
-- services/bot-fleet/consumer.go: the registry of the running tests. The messages are handled one
-- at a time. What is done to a runner, its `Start` and its `Stop`, is kept in a log; a Go map is
-- ranged over in any order, here in the order of the entries. Closing the Kafka reader is left out.
pub mod Conservation
pub mod Entries
use alpha_exchange.Base.{
  ℕ, if◌then◌else◌, Bool, true, false, List, [], ◌∷◌, ◌++◌, map, length, Option, none, some, String,
  str_eq,
}
use alpha_exchange.Base.Dict.{Dict, erase, insert, lookup}
use alpha_exchange.BotFleet.Runner.{StartTestEvent, TestRunner, new_test_runner}

pub data Action : Type 0 where
  start : TestRunner → Action
  stop : TestRunner → String → Action

pub record Consumer : Type 0 where
  pub runners : Dict TestRunner
  pub log : List Action

-- A message as it decodes; `ignored` is what does not, and every other event.
pub data Message : Type 0 where
  start_test : StartTestEvent → Message
  stop_test : String → String → Message
  container_crashed : String → Message
  ignored : Message

unfoldable pub new_consumer : Consumer
new_consumer = record { runners = []; log = [] }

-- Past the test for a duplicate START_TEST.
unfoldable pub start_new : Option TestRunner → StartTestEvent → Consumer → Consumer
unfolding insert new_test_runner
start_new (some runner) ev c = c
start_new none ev c =
    let runner = new_test_runner ev in
    record { runners = insert ev.test_id runner c.runners; log = c.log ++ (start runner ∷ []) }

unfoldable pub start_runner : StartTestEvent → Consumer → Consumer
unfolding start_new
start_runner ev c = start_new (lookup ev.test_id c.runners) ev c

unfoldable pub stop_found : Option TestRunner → String → Consumer → Consumer
stop_found none reason c = c
stop_found (some runner) reason c = record c { log = c.log ++ (stop runner reason ∷ []) }

unfoldable pub stop_runner : String → String → Consumer → Consumer
unfolding erase stop_found
stop_runner test_id reason c =
    stop_found (lookup test_id c.runners) reason (record c { runners = erase test_id c.runners })

-- The runners of a contestant, and what the loop leaves.
unfoldable pub of_contestant : String → Dict TestRunner → List TestRunner
of_contestant contestant_id [] = []
of_contestant contestant_id (entry ∷ rest) =
    let others = of_contestant contestant_id rest in
    elim (str_eq entry.1.contestant_id contestant_id) [ true ↦ entry.1 ∷ others | false ↦ others ]

unfoldable pub without_contestant : String → Dict TestRunner → Dict TestRunner
without_contestant contestant_id [] = []
without_contestant contestant_id (entry ∷ rest) =
    let others = without_contestant contestant_id rest in
    elim (str_eq entry.1.contestant_id contestant_id) [ true ↦ others | false ↦ entry ∷ others ]

unfoldable pub stop_each : String → List TestRunner → List Action
stop_each reason [] = []
stop_each reason (r ∷ rs) = stop r reason ∷ stop_each reason rs

unfoldable pub stop_by_contestant : String → String → Consumer → Consumer
unfolding of_contestant without_contestant stop_each
stop_by_contestant contestant_id reason c = record {
  runners = without_contestant contestant_id c.runners;
  log = c.log ++ stop_each reason (of_contestant contestant_id c.runners);
}

unfoldable pub dispatch : Message → Consumer → Consumer
unfolding start_runner stop_runner stop_by_contestant
dispatch (start_test ev) c = start_runner ev c
dispatch (stop_test test_id reason) c = stop_runner test_id reason c
dispatch (container_crashed contestant_id) c =
    stop_by_contestant contestant_id "container_crashed" c
dispatch ignored c = c

unfoldable pub run : List Message → Consumer → Consumer
unfolding dispatch
run [] c = c
run (m ∷ ms) c = run ms (dispatch m c)

unfoldable pub active_tests : Consumer → ℕ
active_tests c = length c.runners

unfoldable pub runners_of : Dict TestRunner → List TestRunner
runners_of [] = []
runners_of (entry ∷ rest) = entry.1 ∷ runners_of rest

unfoldable pub close : Consumer → Consumer
unfolding runners_of stop_each
close c = record { runners = []; log = c.log ++ stop_each "shutdown" (runners_of c.runners) }
