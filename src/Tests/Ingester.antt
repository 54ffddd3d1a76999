-- ===== src/Tests/Ingester.antt =====
-- The validator, the histograms and the counters on small runs.
use alpha_exchange.Base.{◌≡◌, refl, ◌⊎◌, inl, [], ◌∷◌, true, false, arith, sort_stable}
use alpha_exchange.Base.Int.{pos}
use alpha_exchange.Base.Dict.{lookup}
use alpha_exchange.Ingester.Book.{
  market_buy, limit_sell, ExpectedFill, Status, filled, new_order_book,
}
use alpha_exchange.Ingester.Validator.{
  TelemetryEvent, Fill, known, compare, compare_present, check_amounts, reports, same, far_apart,
  CorrectnessValidator, new_validator, validate_batch, earlier,
}
use alpha_exchange.Ingester.Validator.Verdicts.{compare-filled, IsWithin}
use alpha_exchange.Ingester.Validator.Replay.{validate_batch-fresh, replay, IsFresh, Concerns}
use alpha_exchange.Ingester.Histogram.{
  Histogram, empty, record_value, record_at, percentile, max_bucket,
}
use alpha_exchange.Ingester.Histogram.Counts.{empty-IsValid, record_value-IsValid}
use alpha_exchange.Ingester.Histogram.Ranks.{Reaches, target, percentile-Reaches}
use alpha_exchange.Ingester.SlidingWindow.{new_sliding_window, record_latency, get_percentiles}
use alpha_exchange.Ingester.SlidingWindow.Window.{advance_by, get_percentiles-expired}
use alpha_exchange.Ingester.Tps.{current_sum, new_counter, record_order}
use alpha_exchange.Ingester.Tps.Rates.{run, run-window, InOrder, latest, count_at, current_sum-idle}
use alpha_exchange.Ingester.Aggregator.{new_aggregator, process_event, rotate, Sample}
use alpha_exchange.Ingester.Aggregator.Snapshots.{
  IsConsistent, new_aggregator-IsConsistent, process_event-IsConsistent,
}

abbrev fill_of_one : Fill
fill_of_one = record { status = known filled; price = pos 10; quantity = pos 1 }

abbrev pub sell : TelemetryEvent
sell = record {
  contestant_id = "c";
  test_id = "t";
  order_id = "a";
  order_type = limit_sell;
  price = 10;
  quantity = 1;
  actual_fill = fill_of_one;
  sequence_number = 1;
  latency_us = pos 5;
  timed_out = false;
}

abbrev pub buy : TelemetryEvent
buy = record {
  contestant_id = "c";
  test_id = "t";
  order_id = "b";
  order_type = market_buy;
  price = 0;
  quantity = 1;
  actual_fill = fill_of_one;
  sequence_number = 2;
  latency_us = pos 6;
  timed_out = false;
}

validate_batch-fresh_example :
    (validate_batch (buy ∷ sell ∷ []) new_validator).1
    ≡ replay new_order_book (sort_stable earlier (buy ∷ sell ∷ []))
unfolding Concerns IsFresh new_validator lookup
validate_batch-fresh_example =
    validate_batch-fresh (buy ∷ sell ∷ []) "c" "t" new_validator (refl, refl, (refl, refl, tt))
      (inl refl)

abbrev keeper : CorrectnessValidator
keeper = record { books = ("d", new_order_book) ∷ []; last_test_id = ("d", "u") ∷ [] }

abbrev expected_one : ExpectedFill
expected_one = record { status = filled; filled_price = 10; filled_qty = 1; remaining_qty = 0 }

compare-filled_example :
    (known filled ≡ known Status.pending)
    ⊎ ((known filled ≡ known filled) ⊎ (known filled ≡ known Status.partial))
      × IsWithin expected_one fill_of_one
unfolding compare compare_present check_amounts reports same far_apart
compare-filled_example = compare-filled expected_one fill_of_one refl refl

abbrev one_sample : Histogram
one_sample = record_value (pos 5) empty

percentile-Reaches_example :
    Reaches one_sample.buckets
      (target (λ n. n) one_sample)
      max_bucket
      (percentile (λ n. n) one_sample)
unfolding record_value record_at empty
percentile-Reaches_example =
    percentile-Reaches (λ n. n) one_sample (record_value-IsValid (pos 5) empty empty-IsValid)
      (omega arith) (omega arith)

get_percentiles-expired_example :
    get_percentiles
      (λ n. n)
      (λ n. n)
      (λ n. n)
      (advance_by 30 (record_latency (pos 7) new_sliding_window))
    ≡ (0, 0, 0)
unfolding new_sliding_window record_latency
get_percentiles-expired_example =
    get_percentiles-expired (λ n. n) (λ n. n) (λ n. n) (record_latency (pos 7) new_sliding_window)
      (omega arith)

run-window_example : (run (100 ∷ 70 ∷ 70 ∷ 10 ∷ [])).window 10 ≡ 2
unfolding InOrder latest count_at
run-window_example =
    run-window (100 ∷ 70 ∷ 70 ∷ 10 ∷ []) 70
      (
        omega arith,
        omega arith,
        (omega arith, omega arith, (omega arith, omega arith, (omega arith, omega arith, tt))),
      )
      (omega arith) (omega arith)

current_sum-idle_example :
    current_sum 161 (record_order 100 new_counter) ≡ current_sum 101 (record_order 100 new_counter)
current_sum-idle_example = current_sum-idle 101 (record_order 100 new_counter) (omega arith)

abbrev one_order : Sample
one_order = record { latency_us = pos 5; timed_out = false; is_right = true }

process_event-IsConsistent_example :
    IsConsistent (process_event 9 one_order new_aggregator) × IsConsistent (rotate new_aggregator)
process_event-IsConsistent_example =
    process_event-IsConsistent 9 one_order new_aggregator new_aggregator-IsConsistent
