-- ===== src/Ingester/Pipeline.antt =====
-- services/telemetry-ingester/pipeline.go, with the registry of metrics/aggregator.go: a batch is
-- split by contestant, validated, counted and written. The range over a map is in the order of the
-- list; the second of the clock is an argument. The reports of the anomaly detector and the
-- Prometheus counters are left out.
pub mod Counting
use alpha_exchange.Base.{
  ℕ, if◌then◌else◌, Bool, true, false, List, [], ◌∷◌, ◌++◌, Option, none, some, String, str_eq,
}
use alpha_exchange.Base.Dict.{Dict, lookup, insert}
use alpha_exchange.Ingester.Aggregator.{Aggregator, Sample, new_aggregator, process_event, rotate}
use alpha_exchange.Ingester.Validator.{
  TelemetryEvent, CorrectnessValidator, Verdict, is_correct, new_validator, validate_batch,
}

-- Of a row of latency_samples, the order and the verdict.
pub record LatencySample : Type 0 where
  pub order_id : String
  pub is_right : Bool

-- `aggs` is the registry's map.
pub record Pipeline : Type 0 where
  pub validator : CorrectnessValidator
  pub aggs : Dict Aggregator
  pub samples : List LatencySample

unfoldable pub new_pipeline : Pipeline
unfolding new_validator
new_pipeline = record { validator = new_validator; aggs = []; samples = [] }

-- The registry's `Get`, but for the entry of a new aggregator, which `set_aggregator` makes.
unfoldable pub aggregator_of : String → Dict Aggregator → Aggregator
unfolding lookup new_aggregator
aggregator_of contestant aggs = elim (lookup contestant aggs) [ none ↦ new_aggregator | some a ↦ a ]

-- The statement `byContestant[id] = append(byContestant[id], e)`.
unfoldable pub append_to : TelemetryEvent → Dict (List TelemetryEvent) → Dict (List TelemetryEvent)
append_to e [] = (e.contestant_id, e ∷ []) ∷ []
append_to e (entry ∷ rest) =
    let others = append_to e rest in
    if str_eq entry.0 e.contestant_id then (entry.0, entry.1 ++ (e ∷ [])) ∷ rest else entry ∷ others

-- The first loop of `ProcessBatch`.
unfoldable pub group_onto :
    Dict (List TelemetryEvent) → List TelemetryEvent → Dict (List TelemetryEvent)
unfolding append_to
group_onto groups [] = groups
group_onto groups (e ∷ es) = group_onto (append_to e groups) es

unfoldable pub sample_of : TelemetryEvent → Verdict → Sample
sample_of e v = record {
  latency_us = e.latency_us;
  timed_out = e.timed_out;
  is_right = is_correct v;
}

-- The inner loop. There are as many verdicts as events.
unfoldable pub count_each : ℕ → List TelemetryEvent → List Verdict → Aggregator → Aggregator
unfolding sample_of process_event
count_each sec [] results a = a
count_each sec (e ∷ es) [] a = a
count_each sec (e ∷ es) (v ∷ vs) a = count_each sec es vs (process_event sec (sample_of e v) a)

unfoldable pub write_each : List TelemetryEvent → List Verdict → List LatencySample
write_each [] results = []
write_each (e ∷ es) [] = []
write_each (e ∷ es) (v ∷ vs) =
    record { order_id = e.order_id; is_right = is_correct v } ∷ write_each es vs

-- The body of the second loop.
unfoldable pub process_contestant : ℕ → String → List TelemetryEvent → Pipeline → Pipeline
unfolding aggregator_of insert validate_batch count_each write_each
process_contestant sec contestant evs p =
    let (validator, results) = validate_batch evs p.validator in
    record {
      validator = validator;
      aggs =
          insert contestant (count_each sec evs results (aggregator_of contestant p.aggs)) p.aggs;
      samples = p.samples ++ write_each evs results;
    }

unfoldable pub process_groups : ℕ → Dict (List TelemetryEvent) → Pipeline → Pipeline
unfolding process_contestant
process_groups sec [] p = p
process_groups sec (group ∷ rest) p =
    process_groups sec rest (process_contestant sec group.0 group.1 p)

unfoldable pub process_batch : ℕ → List TelemetryEvent → Pipeline → Pipeline
unfolding group_onto process_groups
process_batch sec events p = process_groups sec (group_onto [] events) p

-- The registry's `AdvanceAll`.
unfoldable pub advance_all : Dict Aggregator → Dict Aggregator
unfolding rotate
advance_all [] = []
advance_all (entry ∷ rest) = (entry.0, rotate entry.1) ∷ advance_all rest
