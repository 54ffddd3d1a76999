-- ===== src/Ingester/Histogram/Counts.antt =====
-- The count of a histogram is the sum of its buckets.
use alpha_exchange.Base.{ℕ, zero, suc, ◌+◌, ◌<◌, ◌≡◌, refl, ◌==◌, ltb, if◌then◌else◌, arith}
use alpha_exchange.Base.Int.{ℤ}
use alpha_exchange.Ingester.Histogram.{
  Histogram, max_bucket, empty, bucket_of, record_at, record_value, merge_from,
}

-- How many values lie below `n`.
unfoldable pub below_count : (ℕ → ℕ) → ℕ → ℕ
below_count buckets zero = 0
below_count buckets (suc n) = below_count buckets n + buckets n

-- `max_bucket` stands as a variable here, since sums over all buckets are not computed.
pub record IsValidTo (n : ℕ) (h : Histogram) : Type 0 where
  pub counted : h.total_count ≡ below_count h.buckets n

abbrev pub IsValid : Histogram → Type 0
IsValid = IsValidTo max_bucket

below_count-zero : (n : ℕ) → below_count (λ i. 0) n ≡ 0
unfolding below_count
below_count-zero zero = refl
below_count-zero (suc n) = omega (arith, below_count-zero n)

below_count-bump :
    (b : ℕ → ℕ) (v n : ℕ)
    → below_count (λ i. if i == v then b i + 1 else b i) n
      ≡ below_count b n + (if ltb v n then 1 else 0)
unfolding below_count
below_count-bump b v zero = ground arith
below_count-bump b v (suc n) = ground (arith, below_count-bump b v n)

below_count-merge :
    (b c : ℕ → ℕ) (n : ℕ) → below_count (λ i. b i + c i) n ≡ below_count b n + below_count c n
unfolding below_count
below_count-merge b c zero = omega arith
below_count-merge b c (suc n) = omega (arith, below_count-merge b c n)

empty-IsValidTo : (n : ℕ) → IsValidTo n empty
unfolding empty
empty-IsValidTo n = record { counted = omega (arith, below_count-zero n) }

record_at-IsValidTo :
    (n v : ℕ) (h : Histogram) → v < n → IsValidTo n h → IsValidTo n (record_at v h)
unfolding record_at
record_at-IsValidTo n v h lt k = record { counted = ground (arith, below_count-bump h.buckets v n) }

merge_from-IsValidTo :
    (n : ℕ) (h other : Histogram)
    → IsValidTo n h
    → IsValidTo n other
    → IsValidTo n (merge_from h other)
unfolding merge_from
merge_from-IsValidTo n h other k l = record {
  counted = omega (arith, below_count-merge h.buckets other.buckets n);
}

bucket_of-lt : (us : ℤ) → bucket_of us < max_bucket
unfolding bucket_of
bucket_of-lt us = ground arith

pub empty-IsValid : IsValid empty
empty-IsValid = empty-IsValidTo max_bucket

pub record_value-IsValid : (us : ℤ) (h : Histogram) → IsValid h → IsValid (record_value us h)
unfolding record_value
record_value-IsValid us h k = record_at-IsValidTo max_bucket (bucket_of us) h (bucket_of-lt us) k

pub merge_from-IsValid :
    (h other : Histogram) → IsValid h → IsValid other → IsValid (merge_from h other)
merge_from-IsValid = merge_from-IsValidTo max_bucket
