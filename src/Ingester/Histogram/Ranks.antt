-- ===== src/Ingester/Histogram/Ranks.antt =====
-- What `Percentile` returns.
use alpha_exchange.Base.{
  ℕ, zero, suc, ◌+◌, ◌≤◌, ◌<◌, ◌≡◌, refl, ltb, leb, if◌then◌else◌, arith, Bool-cases, subst, inl,
  inr, some,
}
use alpha_exchange.Ingester.Histogram.{Histogram, max_bucket, scan, percentile}
use alpha_exchange.Ingester.Histogram.Counts.{below_count, IsValidTo, IsValid}

abbrev pub target : (ℕ → ℕ) → Histogram → ℕ
target rank h = if ltb (rank h.total_count) 1 then 1 else rank h.total_count

-- The bucket in which the count reaches the target.
pub record Reaches (b : ℕ → ℕ) (t n p : ℕ) : Type 0 where
  pub inside : p < n
  pub before : below_count b p < t
  pub after : t ≤ below_count b (suc p)

scan-Reaches :
    (b : ℕ → ℕ) (t left i c n : ℕ)
    → c ≡ below_count b i
    → n ≡ i + left
    → c < t
    → t ≤ below_count b n
    → (p : ℕ) × (scan b t left i c ≡ some p) × Reaches b t n p
unfolding scan below_count
scan-Reaches b t zero i c n ec en lo hi = absurd (grind arith)
scan-Reaches b t (suc left) i c n ec en lo hi = elim (Bool-cases (leb t (c + b i))) [
  | inl e ↦ (
    i,
    (ground arith),
    record { inside = omega arith; before = omega arith; after = ground arith },
  )
  | inr e ↦
      let (p, q, r) =
        scan-Reaches b t left (suc i) (c + b i) n (omega arith) (omega arith) (ground arith) hi in
      (p, (ground arith), r)
]

percentile-Reaches-to :
    (n : ℕ) (rank : ℕ → ℕ) (h : Histogram)
    → IsValidTo n h
    → 0 < h.total_count
    → rank h.total_count ≤ h.total_count
    → (p : ℕ) × (scan h.buckets (target rank h) n 0 0 ≡ some p)
      × Reaches h.buckets (target rank h) n p
unfolding below_count
percentile-Reaches-to n rank h k pos le =
    scan-Reaches h.buckets (target rank h) n 0 0 n refl (omega arith) (ground arith)
      (ground (arith, k.counted))

-- In a valid histogram that holds a value, for a rank of at most the count: `Percentile` answers
-- with a bucket below the bucket limit, fewer values than the target (the rank, and at least 1)
-- lie below that bucket, and the bucket itself brings the count to the target.
pub percentile-Reaches :
    (rank : ℕ → ℕ) (h : Histogram)
    → IsValid h
    → 0 < h.total_count
    → rank h.total_count ≤ h.total_count
    → Reaches h.buckets (target rank h) max_bucket (percentile rank h)
unfolding percentile
percentile-Reaches rank h k pos le =
    let (p, e, r) = percentile-Reaches-to max_bucket rank h k pos le in
    subst (Reaches h.buckets (target rank h) max_bucket) (ground (arith, e)) r
