-- ===== src/Ingester/Aggregator/Snapshots.antt =====
-- That the counters of an aggregator agree, and what a snapshot reports after a pause.
use alpha_exchange.Base.{ℕ, ◌+◌, ◌<◌, ◌≡◌, refl, arith, ap, ◌∙◌}
use alpha_exchange.Ingester.Histogram.{empty, record_value, percentile}
use alpha_exchange.Ingester.Histogram.Counts.{IsValid, empty-IsValid, record_value-IsValid}
use alpha_exchange.Ingester.SlidingWindow.Window.{
  IsSound, new_sliding_window-IsSound, record_latency-IsSound, advance-IsSound, advance_by,
  get_percentiles-expired,
}
use alpha_exchange.Ingester.Aggregator.{
  Aggregator, new_aggregator, rotate, Sample, process_event, or_all_time, latencies,
}

-- Each order is counted under one outcome, and once in the histogram of all time.
pub record IsConsistent (a : Aggregator) : Type 0 where
  pub outcomes : a.total_orders ≡ a.correct_orders + a.incorrect_orders + a.timed_out_orders
  pub samples : a.total_hist.total_count ≡ a.total_orders
  pub all_time : IsValid a.total_hist
  pub recent : IsSound a.hist

-- A new aggregator is consistent.
pub new_aggregator-IsConsistent : IsConsistent new_aggregator
unfolding new_aggregator empty
new_aggregator-IsConsistent = record {
  outcomes = omega arith;
  samples = refl;
  all_time = empty-IsValid;
  recent = new_sliding_window-IsSound;
}

process_event-outcomes :
    (sec : ℕ) (e : Sample) (a : Aggregator)
    → a.total_orders ≡ a.correct_orders + a.incorrect_orders + a.timed_out_orders
    → (process_event sec e a).total_orders
      ≡ (process_event sec e a).correct_orders
        + (process_event sec e a).incorrect_orders
        + (process_event sec e a).timed_out_orders
unfolding process_event
process_event-outcomes sec e a k = ground (arith, k)

-- `ProcessEvent` keeps an aggregator consistent, and so does `Advance`.
pub process_event-IsConsistent :
    (sec : ℕ) (e : Sample) (a : Aggregator)
    → IsConsistent a
    → IsConsistent (process_event sec e a) × IsConsistent (rotate a)
unfolding process_event rotate record_value
process_event-IsConsistent sec e a k = (
  record {
    outcomes = process_event-outcomes sec e a k.outcomes;
    samples = ap (λ n. n + 1) k.samples;
    all_time = record_value-IsValid e.latency_us a.total_hist k.all_time;
    recent = record_latency-IsSound e.latency_us a.hist k.recent;
  },
  record {
    outcomes = k.outcomes;
    samples = k.samples;
    all_time = k.all_time;
    recent = advance-IsSound a.hist k.recent;
  },
)

or_all_time-zero :
    (orders : ℕ) (all_time : ℕ × ℕ × ℕ)
    → 0 < orders
    → or_all_time (0, 0, 0) orders all_time ≡ all_time
unfolding or_all_time
or_all_time-zero orders all_time pos = ground (arith, pos)

-- A consistent aggregator that has counted an order, thirty seconds after the last order: the
-- three percentiles of the snapshot are those of the histogram of all time.
pub latencies-expired :
    (r50 r90 r99 : ℕ → ℕ) (a : Aggregator)
    → IsConsistent a
    → 0 < a.total_orders
    → latencies r50 r90 r99 (record a { hist = advance_by 30 a.hist })
      ≡ (percentile r50 a.total_hist, percentile r90 a.total_hist, percentile r99 a.total_hist)
unfolding latencies
latencies-expired r50 r90 r99 a k pos =
    ap
      (λ l.
        or_all_time l a.total_orders
          (percentile r50 a.total_hist, percentile r90 a.total_hist, percentile r99 a.total_hist))
      (get_percentiles-expired r50 r90 r99 a.hist k.recent.index)
    ∙ or_all_time-zero a.total_orders _ pos
