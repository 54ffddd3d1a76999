-- ===== src/Ingester/Histogram.antt =====
-- services/telemetry-ingester/latency/hdr_histogram.go. A count is an int64 that no test comes
-- near to overflowing, so a natural number; the buckets are a function of the index. Latencies
-- are signed. `Mean` is left out: it is one float division.
pub mod Counts
pub mod Ranks
use alpha_exchange.Base.{ℕ, zero, suc, ◌+◌, ◌-◌, ◌==◌, ltb, leb, if◌then◌else◌, Option, none, some}
use alpha_exchange.Base.Int.{ℤ, to_nat}

abbrev pub max_bucket : ℕ
max_bucket = 10_000_000

-- `math.MaxInt64`.
abbrev pub max_int64 : ℕ
max_int64 = 9_223_372_036_854_775_807

pub record Histogram : Type 0 where
  pub buckets : ℕ → ℕ
  pub total_count : ℕ
  pub total_sum : ℕ
  pub max_observed : ℕ
  pub min_observed : ℕ

-- `NewHDRHistogram`, and what `Reset` leaves.
unfoldable pub empty : Histogram
empty = record {
  buckets = λ i. 0;
  total_count = 0;
  total_sum = 0;
  max_observed = 0;
  min_observed = max_int64;
}

unfoldable pub reset : Histogram → Histogram
unfolding empty
reset h = empty

-- The two clamps of `RecordValue`.
unfoldable pub bucket_of : ℤ → ℕ
bucket_of us = if leb max_bucket (to_nat us) then max_bucket - 1 else to_nat us

unfoldable pub record_at : ℕ → Histogram → Histogram
record_at v h = record {
  buckets = λ i. if i == v then h.buckets i + 1 else h.buckets i;
  total_count = h.total_count + 1;
  total_sum = h.total_sum + v;
  max_observed = if ltb h.max_observed v then v else h.max_observed;
  min_observed = if ltb v h.min_observed then v else h.min_observed;
}

unfoldable pub record_value : ℤ → Histogram → Histogram
unfolding bucket_of record_at
record_value us h = record_at (bucket_of us) h

-- The loop of `Percentile`: the buckets left, the index, and what is counted below it.
unfoldable pub scan : (ℕ → ℕ) → ℕ → ℕ → ℕ → ℕ → Option ℕ
scan buckets target zero i cumulative = none
scan buckets target (suc left) i cumulative =
    let rest = scan buckets target left (suc i) (cumulative + buckets i) in
    if leb target (cumulative + buckets i) then some i else rest

-- `rank` is `int64(float64(h.totalCount) * pct)`, the float product cut to an integer.
unfoldable pub percentile : (ℕ → ℕ) → Histogram → ℕ
percentile rank h =
    let target = if ltb (rank h.total_count) 1 then 1 else rank h.total_count in
    let found : ℕ = elim (scan h.buckets target max_bucket 0 0) [
      | some i ↦ i
      | none ↦ h.max_observed
    ] in
    if h.total_count == 0 then 0 else found

-- The receiver's minimum is left as it is.
unfoldable pub merge_from : Histogram → Histogram → Histogram
merge_from h other = record {
  buckets = λ i. h.buckets i + other.buckets i;
  total_count = h.total_count + other.total_count;
  total_sum = h.total_sum + other.total_sum;
  max_observed =
      if ltb h.max_observed other.max_observed then other.max_observed else h.max_observed;
  min_observed = h.min_observed;
}
