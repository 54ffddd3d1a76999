-- ===== src/Ingester/SlidingWindow.antt =====
-- services/telemetry-ingester/latency/sliding_window.go: thirty histograms, one a second.
pub mod Window
use alpha_exchange.Base.{ℕ, zero, suc, ◌+◌, ◌%◌, ◌==◌, if◌then◌else◌}
use alpha_exchange.Base.Int.{ℤ}
use alpha_exchange.Ingester.Histogram.{
  Histogram, empty, reset, record_value, merge_from, percentile,
}

abbrev pub window_buckets : ℕ
window_buckets = 30

-- The array is a function of the index.
pub record SlidingWindow : Type 0 where
  pub buckets : ℕ → Histogram
  pub current_idx : ℕ

unfoldable pub new_sliding_window : SlidingWindow
unfolding empty
new_sliding_window = record { buckets = λ i. empty; current_idx = 0 }

unfoldable pub update : ℕ → (Histogram → Histogram) → (ℕ → Histogram) → ℕ → Histogram
update idx f b i = if i == idx then f (b i) else b i

-- The method `Record`.
unfoldable pub record_latency : ℤ → SlidingWindow → SlidingWindow
unfolding update record_value
record_latency us s = record s { buckets = update s.current_idx (record_value us) s.buckets }

unfoldable pub advance : SlidingWindow → SlidingWindow
unfolding update reset
advance s =
    let idx = (s.current_idx + 1) % window_buckets in
    record { buckets = update idx reset s.buckets; current_idx = idx }

-- The loop of `GetPercentiles` over the first buckets, but the current one.
unfoldable pub merge_others : ℕ → SlidingWindow → Histogram
unfolding empty merge_from
merge_others zero s = empty
merge_others (suc n) s =
    let merged = merge_others n s in
    if n == s.current_idx then merged else merge_from merged (s.buckets n)

unfoldable pub merge_all : SlidingWindow → Histogram
unfolding merge_others merge_from
merge_all s = merge_from (merge_others window_buckets s) (s.buckets s.current_idx)

-- The ranks of the three percentiles, as in `percentile`.
unfoldable pub get_percentiles : (ℕ → ℕ) → (ℕ → ℕ) → (ℕ → ℕ) → SlidingWindow → ℕ × ℕ × ℕ
unfolding merge_all percentile
get_percentiles r50 r90 r99 s =
    let merged = merge_all s in
    (percentile r50 merged, percentile r90 merged, percentile r99 merged)
