-- ===== src/Ingester/Aggregator.antt =====
-- services/telemetry-ingester/metrics/aggregator.go: what one contestant's aggregator counts. The
-- TPS counter it shares keeps each contestant apart, so the contestant's part of it stands here.
-- `GetSnapshot` divides `correct` by `valid` for its rate, and by 5 for the TPS; the snapshot of
-- the model keeps the numbers divided.
pub mod Snapshots
use alpha_exchange.Base.{ℕ, ◌+◌, ◌-◌, ◌==◌, ltb, if◌then◌else◌, Bool, true, false, ◌&&◌}
use alpha_exchange.Base.Int.{ℤ}
use alpha_exchange.Ingester.Histogram.{Histogram, empty, record_value, percentile}
use alpha_exchange.Ingester.SlidingWindow.{
  SlidingWindow, new_sliding_window, record_latency, advance, get_percentiles,
}
use alpha_exchange.Ingester.Tps.{Counter, new_counter, record_order, current_sum, peak}

pub record Aggregator : Type 0 where
  pub hist : SlidingWindow
  pub total_hist : Histogram
  pub tps : Counter
  pub total_orders : ℕ
  pub correct_orders : ℕ
  pub timed_out_orders : ℕ
  pub incorrect_orders : ℕ

unfoldable pub new_aggregator : Aggregator
unfolding new_sliding_window empty new_counter
new_aggregator = record {
  hist = new_sliding_window;
  total_hist = empty;
  tps = new_counter;
  total_orders = 0;
  correct_orders = 0;
  timed_out_orders = 0;
  incorrect_orders = 0;
}

-- The method `Advance`.
unfoldable pub rotate : Aggregator → Aggregator
unfolding advance
rotate a = record a { hist = advance a.hist }

-- What `ProcessEvent` reads of an event and its verdict.
pub record Sample : Type 0 where
  pub latency_us : ℤ
  pub timed_out : Bool
  pub is_right : Bool

unfoldable pub process_event : ℕ → Sample → Aggregator → Aggregator
unfolding record_order record_latency record_value
process_event sec e a = record {
  hist = record_latency e.latency_us a.hist;
  total_hist = record_value e.latency_us a.total_hist;
  tps = record_order sec a.tps;
  total_orders = a.total_orders + 1;
  correct_orders =
      if e.timed_out
      then a.correct_orders
      else if e.is_right
      then a.correct_orders + 1
      else a.correct_orders;
  timed_out_orders = if e.timed_out then a.timed_out_orders + 1 else a.timed_out_orders;
  incorrect_orders =
      if e.timed_out
      then a.incorrect_orders
      else if e.is_right
      then a.incorrect_orders
      else a.incorrect_orders + 1;
}

pub record Snapshot : Type 0 where
  pub p50 : ℕ
  pub p90 : ℕ
  pub p99 : ℕ
  pub current : ℕ
  pub peak_tps : ℕ
  pub total : ℕ
  pub correct : ℕ
  pub valid : ℕ

-- The fallback to the histogram of all time.
unfoldable pub or_all_time : ℕ × ℕ × ℕ → ℕ → ℕ × ℕ × ℕ → ℕ × ℕ × ℕ
or_all_time recent orders all_time = if recent.2 == 0 && ltb 0 orders then all_time else recent

unfoldable pub latencies : (ℕ → ℕ) → (ℕ → ℕ) → (ℕ → ℕ) → Aggregator → ℕ × ℕ × ℕ
unfolding get_percentiles percentile or_all_time
latencies r50 r90 r99 a =
    or_all_time (get_percentiles r50 r90 r99 a.hist) a.total_orders
      (percentile r50 a.total_hist, percentile r90 a.total_hist, percentile r99 a.total_hist)

unfoldable pub get_snapshot : (ℕ → ℕ) → (ℕ → ℕ) → (ℕ → ℕ) → ℕ → Aggregator → Snapshot
unfolding latencies current_sum peak
get_snapshot r50 r90 r99 sec a =
    let l = latencies r50 r90 r99 a in
    record {
      p50 = l.0;
      p90 = l.1;
      p99 = l.2;
      current = current_sum sec a.tps;
      peak_tps = peak a.tps;
      total = a.total_orders;
      correct = a.correct_orders;
      valid = a.total_orders - a.timed_out_orders;
    }
