-- ===== src/Orchestrator/Scorer.antt =====
-- services/orchestrator/scorer.go: the score of a finished test, in hundredths, over the float
-- arithmetic `f`. The loop over the windows keeps four extremes; each of them is a loop here.
pub mod Single
use alpha_exchange.Base.{ℕ, if◌then◌else◌, Bool, true, false, List, [], ◌∷◌}
use alpha_exchange.Base.Float.{Float}

-- What the score reads of a LatencyWindow.
pub record LatencyWindow (W : Type 0) : Type 0 where
  pub tps : W
  pub p99_us : ℕ
  pub correctness_rate : W

module _ {W : Type 0} (f : Float W) where
  unfoldable pub norm : W → W → W → W
  norm v min max = if f.eq max min then f.of_ℕ 1 else f.div (f.sub v min) (f.sub max min)

  unfoldable pub clamp : W → W → W → W
  clamp v lo hi = if f.lt v lo then lo else if f.lt hi v then hi else v

  unfoldable pub round2 : W → ℕ
  round2 v = f.trunc (f.add (f.mul v (f.of_ℕ 100)) f.half)

  unfoldable pub lowest : (LatencyWindow W → W) → W → List (LatencyWindow W) → W
  lowest q min [] = min
  lowest q min (m ∷ ms) = lowest q (if f.lt (q m) min then q m else min) ms

  unfoldable pub highest : (LatencyWindow W → W) → W → List (LatencyWindow W) → W
  highest q max [] = max
  highest q max (m ∷ ms) = highest q (if f.lt max (q m) then q m else max) ms

  unfoldable pub tps_of : LatencyWindow W → W
  tps_of m = m.tps

  unfoldable pub p99_of : LatencyWindow W → W
  p99_of m = f.of_ℕ m.p99_us

  -- The field is not empty.
  unfoldable pub score_against : LatencyWindow W → LatencyWindow W → List (LatencyWindow W) → ℕ
  unfolding norm clamp round2 lowest highest tps_of p99_of
  score_against metrics first rest =
      let all = first ∷ rest in
      let norm_tps =
        norm metrics.tps (lowest tps_of (tps_of first) all) (highest tps_of (tps_of first) all) in
      let norm_inv_p99 = f.sub (f.of_ℕ 1) (
        norm (f.of_ℕ metrics.p99_us) (lowest p99_of (p99_of first) all)
          (highest p99_of (p99_of first) all)) in
      let score =
        f.add (f.add (f.mul f.two_fifths norm_tps) (f.mul f.two_fifths norm_inv_p99))
          (f.mul f.fifth metrics.correctness_rate) in
      round2 (clamp (f.mul score (f.of_ℕ 100)) (f.of_ℕ 0) (f.of_ℕ 100))

  unfoldable pub compute_composite_score : LatencyWindow W → List (LatencyWindow W) → ℕ
  unfolding score_against
  compute_composite_score metrics [] = score_against metrics metrics []
  compute_composite_score metrics (m ∷ ms) = score_against metrics m ms
