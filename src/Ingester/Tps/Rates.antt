-- ===== src/Ingester/Tps/Rates.antt =====
-- What the buckets of the TPS counter hold.
use alpha_exchange.Base.{
  ℕ, zero, suc, ◌+◌, ◌-◌, ◌%◌, ◌≤◌, ◌<◌, ◌≡◌, refl, subst, ap, ◌∙◌, sym, ◌==◌, ltb, if◌then◌else◌,
  List, [], ◌∷◌, arith, true, false, Bool-cases, inl, inr,
}
use alpha_exchange.Ingester.Tps.{
  Counter, new_counter, set_bucket, record_order, index_before, current_sum, peak_to,
}

-- The counter after orders in the given seconds, the latest first.
pub run : List ℕ → Counter
run [] = new_counter
run (s ∷ older) = record_order s (run older)

unfoldable pub count_at : ℕ → List ℕ → ℕ
count_at s [] = 0
count_at s (x ∷ xs) = if x == s then count_at s xs + 1 else count_at s xs

unfoldable pub latest : List ℕ → ℕ
latest [] = 0
latest (x ∷ xs) = x

-- The clock is positive and does not run backwards.
unfoldable pub InOrder : List ℕ → Type 0
InOrder [] = Unit
InOrder (x ∷ xs) = (0 < x) × (latest xs ≤ x) × InOrder xs

run-last_sec : (h : List ℕ) → (run h).last_sec ≡ latest h
unfolding run latest new_counter record_order
run-last_sec [] = refl
run-last_sec (x ∷ xs) = refl

count_at-later : (s : ℕ) (h : List ℕ) → InOrder h → latest h < s → count_at s h ≡ 0
unfolding count_at latest InOrder
count_at-later s [] k lt = refl
count_at-later s (x ∷ xs) (p, q, r) lt = ground (arith, count_at-later s xs r)

record_order-same :
    (sec : ℕ) (t : Counter)
    → (record_order sec t).window (sec % 60)
      ≡ (if t.last_sec == sec then t.window (sec % 60) + 1 else 1)
unfolding record_order set_bucket
record_order-same sec t = ground arith

-- Seconds less than a minute apart have buckets of their own.
mod-apart : (s x : ℕ) → s < x → x < s + 60 → (s % 60 == x % 60) ≡ false
mod-apart s x lt near = elim (Bool-cases (s % 60 == x % 60)) [
  | inl e ↦ absurd (ground (arith, e))
  | inr e ↦ e
]

record_order-other :
    (sec s : ℕ) (t : Counter)
    → s < sec
    → sec < s + 60
    → (record_order sec t).window (s % 60) ≡ t.window (s % 60)
unfolding record_order set_bucket
record_order-other sec s t lt near =
    let e = mod-apart s sec lt near in
    elim (Bool-cases (t.last_sec == sec)) [ inl q ↦ rw (e, q) refl | inr q ↦ rw (e, q, e) refl ]

seen-early : (s : ℕ) (h : List ℕ) → InOrder h → 0 < count_at s h → s ≤ latest h
seen-early s h k pos = ground (arith, count_at-later s h k)

record_order-now_again :
    (x : ℕ) (xs : List ℕ)
    → latest xs ≡ x
    → (0 < count_at x xs → latest xs < x + 60 → (run xs).window (x % 60) ≡ count_at x xs)
    → (run xs).window (x % 60) + 1 ≡ count_at x xs + 1
unfolding run latest count_at new_counter
record_order-now_again x [] e rec = refl
record_order-now_again x (y ∷ ys) e rec =
    ap (λ n. n + 1) (rec (ground (arith, e)) (omega (arith, e)))

record_order-now :
    (x : ℕ) (xs : List ℕ)
    → latest xs ≤ x
    → InOrder xs
    → (0 < count_at x xs → latest xs < x + 60 → (run xs).window (x % 60) ≡ count_at x xs)
    → (record_order x (run xs)).window (x % 60) ≡ count_at x xs + 1
record_order-now x xs q r rec = elim (Bool-cases (latest xs == x)) [
  | inl e ↦
      let same : latest xs ≡ x = ground (arith, e) in
      record_order-same x (run xs) ∙ rw (run-last_sec xs, e) (record_order-now_again x xs same rec)
  | inr e ↦ record_order-same x (run xs) ∙ ground (arith, e, run-last_sec xs, count_at-later x xs r)
]

lt_of_ne : (x s : ℕ) → (x == s) ≡ false → s ≤ x → s < x
lt_of_ne x s e le = ground (arith, e, le)

eq_self : (x : ℕ) → (x == x) ≡ true
eq_self x = ground arith

-- For orders recorded by a clock that does not run backwards: the bucket of a second that saw an
-- order and is less than a minute before the latest order holds the number of that second's
-- orders, whatever earlier minutes left there.
pub run-window :
    (h : List ℕ) (s : ℕ)
    → InOrder h
    → 0 < count_at s h
    → latest h < s + 60
    → (run h).window (s % 60) ≡ count_at s h
unfolding run count_at latest InOrder
run-window [] s k pos lt = absurd (omega (arith, pos))
run-window (x ∷ xs) s (p, q, r) pos lt = elim (Bool-cases (x == s)) [
  | inl e ↦
      subst
        (λ y.
          (record_order x (run xs)).window (y % 60)
          ≡ (if x == y then count_at y xs + 1 else count_at y xs))
        (ground (arith, e))
        (record_order-now x xs q r (run-window xs x r) ∙ sym (rw (eq_self x) refl))
  | inr e ↦
      let seen = subst (λ b. 0 < (if b then count_at s xs + 1 else count_at s xs)) e pos in
      let before : s < x = lt_of_ne x s e (omega (arith, q, seen-early s xs r seen)) in
      let rec = run-window xs s r seen (omega (arith, q, lt)) in
      record_order-other x s (run xs) before lt ∙ rec ∙ sym (rw e refl)
]

mod-minute : (sec i : ℕ) → i ≤ sec → (sec + 60 - i) % 60 ≡ (sec - i) % 60
mod-minute sec i le = omega arith

-- `GetCurrentTPS` reads its buckets by the second of the minute alone: read a minute later, with
-- no order in between, it gives what it gave before.
pub current_sum-idle :
    (sec : ℕ) (t : Counter) → 5 ≤ sec → current_sum (sec + 60) t ≡ current_sum sec t
unfolding current_sum index_before
current_sum-idle sec t le =
    rw
      (
        mod-minute sec 1 (omega arith),
        mod-minute sec 2 (omega arith),
        mod-minute sec 3 (omega arith),
        mod-minute sec 4 (omega arith),
        mod-minute sec 5 (omega arith),
      )
      refl

peak_to-bound : (w : ℕ → ℕ) (n i : ℕ) → i < n → w i ≤ peak_to w n
unfolding peak_to
peak_to-bound w zero i lt = absurd (omega (arith, lt))
peak_to-bound w (suc n) i lt = elim (Bool-cases (i == n)) [
  | inl e ↦
      let same : n ≡ i = ground (arith, e) in
      subst (λ k. w k ≤ (if ltb (peak_to w n) (w n) then w n else peak_to w n)) same (ground arith)
  | inr e ↦ ground (arith, peak_to-bound w n i)
]
