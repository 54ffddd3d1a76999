-- ===== src/Ingester/SlidingWindow/Window.antt =====
-- What a window holds after some seconds.
use alpha_exchange.Base.{
  ℕ, zero, suc, ◌+◌, ◌-◌, ◌%◌, ◌<◌, ◌≤◌, ◌≡◌, refl, ◌∙◌, ◌==◌, true, false, Bool-cases, inl, inr,
  arith,
}
use alpha_exchange.Base.Int.{ℤ}
use alpha_exchange.Ingester.Histogram.{
  Histogram, empty, reset, record_value, merge_from, percentile,
}
use alpha_exchange.Ingester.Histogram.Counts.{
  IsValid, empty-IsValid, record_value-IsValid, merge_from-IsValid,
}
use alpha_exchange.Ingester.SlidingWindow.{
  SlidingWindow, window_buckets, new_sliding_window, update, record_latency, advance, merge_others,
  merge_all, get_percentiles,
}

pub record IsSound (s : SlidingWindow) : Type 0 where
  pub index : s.current_idx < window_buckets
  pub each : (i : ℕ) → IsValid (s.buckets i)

-- A new window is sound.
pub new_sliding_window-IsSound : IsSound new_sliding_window
unfolding new_sliding_window
new_sliding_window-IsSound = record { index = omega arith; each = λ i. empty-IsValid }

update-IsValid :
    (idx : ℕ) (f : Histogram → Histogram) (b : ℕ → Histogram)
    → ((h : Histogram) → IsValid h → IsValid (f h))
    → ((i : ℕ) → IsValid (b i))
    → (i : ℕ) → IsValid (update idx f b i)
unfolding update
update-IsValid idx f b keeps each i = elim (Bool-cases (i == idx)) [
  | inl e ↦ rw (e) (keeps (b i) (each i))
  | inr e ↦ rw (e) (each i)
]

pub record_latency-IsSound :
    (us : ℤ) (s : SlidingWindow) → IsSound s → IsSound (record_latency us s)
unfolding record_latency
record_latency-IsSound us s k = record {
  index = k.index;
  each = update-IsValid s.current_idx (record_value us) s.buckets (record_value-IsValid us) k.each;
}

reset-IsValid : (h : Histogram) → IsValid h → IsValid (reset h)
unfolding reset
reset-IsValid h k = empty-IsValid

pub advance-IsSound : (s : SlidingWindow) → IsSound s → IsSound (advance s)
unfolding advance
advance-IsSound s k = record {
  index = omega arith;
  each = update-IsValid ((s.current_idx + 1) % 30) reset s.buckets reset-IsValid k.each;
}

merge_others-IsValid : (n : ℕ) (s : SlidingWindow) → IsSound s → IsValid (merge_others n s)
unfolding merge_others
merge_others-IsValid zero s k = empty-IsValid
merge_others-IsValid (suc n) s k = elim (Bool-cases (n == s.current_idx)) [
  | inl e ↦ rw (e) (merge_others-IsValid n s k)
  | inr e ↦
      rw (e) (
        merge_from-IsValid (merge_others n s) (s.buckets n) (merge_others-IsValid n s k) (k.each n))
]

-- What `GetPercentiles` merges from a sound window is a valid histogram.
merge_all-IsValid : (s : SlidingWindow) → IsSound s → IsValid (merge_all s)
unfolding merge_all
merge_all-IsValid s k =
    merge_from-IsValid (merge_others 30 s) (s.buckets s.current_idx) (merge_others-IsValid 30 s k)
      (k.each s.current_idx)

-- `Advance`, this many times.
pub advance_by : ℕ → SlidingWindow → SlidingWindow
advance_by zero s = s
advance_by (suc n) s = advance (advance_by n s)

advance_by-current_idx :
    (n : ℕ) (s : SlidingWindow)
    → s.current_idx < 30
    → (advance_by n s).current_idx ≡ (s.current_idx + n) % 30
unfolding advance_by advance
advance_by-current_idx zero s lt = omega arith
advance_by-current_idx (suc n) s lt = omega (arith, advance_by-current_idx n s lt)

update-off :
    (idx i : ℕ) (f : Histogram → Histogram) (b : ℕ → Histogram)
    → (i == idx) ≡ false
    → update idx f b i ≡ b i
unfolding update
update-off idx i f b e = rw (e) refl

-- From an index within the window: for fewer than thirty seconds, the histogram of the current
-- second stays as it is.
pub advance_by-keeps :
    (n : ℕ) (s : SlidingWindow)
    → s.current_idx < 30
    → n < 30
    → (advance_by n s).buckets s.current_idx ≡ s.buckets s.current_idx
unfolding advance_by advance
advance_by-keeps zero s lt small = refl
advance_by-keeps (suc n) s lt small =
    update-off _ s.current_idx reset (advance_by n s).buckets
      (ground (arith, advance_by-current_idx n s lt))
    ∙ advance_by-keeps n s lt (omega (arith, small))

update-on :
    (idx i : ℕ) (f : Histogram → Histogram) (b : ℕ → Histogram)
    → (i == idx) ≡ true
    → update idx f b i ≡ f (b i)
unfolding update
update-on idx i f b e = rw (e) refl

advance_by-clears :
    (n : ℕ) (s : SlidingWindow) (i j : ℕ)
    → s.current_idx < 30
    → 0 < j
    → j ≤ n
    → i ≡ (s.current_idx + j) % 30
    → (advance_by n s).buckets i ≡ empty
unfolding advance_by advance reset
advance_by-clears zero s i j lt pos le e = absurd (omega (arith, pos, le))
advance_by-clears (suc n) s i j lt pos le e =
    let idx = ((advance_by n s).current_idx + 1) % 30 in
    elim (Bool-cases (i == idx)) [
      | inl hit ↦ update-on idx i reset (advance_by n s).buckets hit
      | inr off ↦
          update-off idx i reset (advance_by n s).buckets off
          ∙ advance_by-clears n s i j lt pos
              (ground (arith, off, e, le, advance_by-current_idx n s lt)) e
    ]

-- From an index within the window: after thirty seconds every histogram of it is empty.
pub advance_by-expires :
    (s : SlidingWindow) (i : ℕ) → s.current_idx < 30 → i < 30 → (advance_by 30 s).buckets i ≡ empty
advance_by-expires s i lt small =
    advance_by-clears 30 s i ((i + 29 - s.current_idx) % 30 + 1) lt (omega arith) (omega arith)
      (omega (arith, lt, small))

merge_others-empty :
    (n : ℕ) (s : SlidingWindow)
    → ((i : ℕ) → i < n → s.buckets i ≡ empty)
    → (merge_others n s).total_count ≡ 0
unfolding merge_others merge_from empty
merge_others-empty zero s all = refl
merge_others-empty (suc n) s all =
    let rec = merge_others-empty n s (λ i lt. all i (omega (arith, lt))) in
    elim (Bool-cases (n == s.current_idx)) [
      | inl e ↦ rw (e) rec
      | inr e ↦ rw (e, rec, all n (omega arith)) refl
    ]

percentile-none : (r : ℕ → ℕ) (h : Histogram) → h.total_count ≡ 0 → percentile r h ≡ 0
unfolding percentile
percentile-none r h e = rw (e) refl

merge_to-empty :
    (n : ℕ) (s : SlidingWindow)
    → s.current_idx < n
    → ((i : ℕ) → i < n → s.buckets i ≡ empty)
    → (merge_from (merge_others n s) (s.buckets s.current_idx)).total_count ≡ 0
unfolding merge_from empty
merge_to-empty n s lt all = rw (merge_others-empty n s all, all s.current_idx lt) refl

index-advance_by :
    (n : ℕ) (s : SlidingWindow) → s.current_idx < 30 → (advance_by n s).current_idx < 30
index-advance_by n s lt = omega (arith, advance_by-current_idx n s lt)

merge_all-expired :
    (s : SlidingWindow) → s.current_idx < 30 → (merge_all (advance_by 30 s)).total_count ≡ 0
unfolding merge_all
merge_all-expired s lt =
    merge_to-empty 30 (advance_by 30 s) (index-advance_by 30 s lt)
      (λ i small. advance_by-expires s i lt small)

zeros : {p q r : ℕ} → p ≡ 0 → q ≡ 0 → r ≡ 0 → ◌≡◌ {A = ℕ × ℕ × ℕ} (p, q, r) (0, 0, 0)
zeros a b c = rw (a, b, c) refl

-- From an index within the window: after thirty seconds that record nothing, each percentile that
-- the window reports is 0, whatever the ranks.
pub get_percentiles-expired :
    (r50 r90 r99 : ℕ → ℕ) (s : SlidingWindow)
    → s.current_idx < 30
    → get_percentiles r50 r90 r99 (advance_by 30 s) ≡ (0, 0, 0)
unfolding get_percentiles
get_percentiles-expired r50 r90 r99 s lt =
    let none_left = merge_all-expired s lt in
    zeros (percentile-none r50 (merge_all (advance_by 30 s)) none_left)
      (percentile-none r90 (merge_all (advance_by 30 s)) none_left)
      (percentile-none r99 (merge_all (advance_by 30 s)) none_left)
