-- ===== src/Orchestrator/Scorer/Single.antt =====
-- The score that a test gets at its end, when the field is the contestant's own window.
use alpha_exchange.Base.{ℕ, ◌≡◌, refl, sym, ap, ◌∙◌, true, [], ◌∷◌}
use alpha_exchange.Base.Float.{Float, IsComparable}
use alpha_exchange.Orchestrator.Scorer.{
  LatencyWindow, norm, lowest, highest, tps_of, p99_of, score_against, compute_composite_score,
  clamp, round2,
}

module _ {W : Type 0} (f : Float W) (c : IsComparable W f) where
  -- A window is the lowest and the highest of the field of itself.
  norm-single :
      (q : LatencyWindow W → W) (m : LatencyWindow W)
      → c.is_plain (q m) ≡ true
      → norm f (q m) (lowest f q (q m) (m ∷ [])) (highest f q (q m) (m ∷ [])) ≡ f.of_ℕ 1
  unfolding norm lowest highest
  norm-single q m p = rw (c.lt_irrefl (q m) p, c.eq_refl (q m) p) refl

  -- The score of the normalized quantities.
  combine : W → W → W → ℕ
  combine rate nt np = round2 f (
      clamp f
        (f.mul
          (f.add (f.add (f.mul f.two_fifths nt) (f.mul f.two_fifths (f.sub (f.of_ℕ 1) np)))
            (f.mul f.fifth rate))
          (f.of_ℕ 100))
        (f.of_ℕ 0) (f.of_ℕ 100))

  score-combine :
      (m : LatencyWindow W)
      → compute_composite_score f m (m ∷ [])
        ≡ combine m.correctness_rate
            (norm f
              (tps_of f m)
              (lowest f (tps_of f) (tps_of f m) (m ∷ []))
              (highest f (tps_of f) (tps_of f m) (m ∷ [])))
            (norm f
              (p99_of f m)
              (lowest f (p99_of f) (p99_of f m) (m ∷ []))
              (highest f (p99_of f) (p99_of f m) (m ∷ [])))
  unfolding compute_composite_score score_against combine tps_of p99_of
  score-combine m = refl

  p99_of-plain : (m : LatencyWindow W) → c.is_plain (p99_of f m) ≡ true
  unfolding p99_of
  p99_of-plain m = c.of_ℕ_plain m.p99_us

  tps_of-plain : (m : LatencyWindow W) → c.is_plain m.tps ≡ true → c.is_plain (tps_of f m) ≡ true
  unfolding tps_of
  tps_of-plain m p = p

  score-single :
      (m : LatencyWindow W)
      → c.is_plain m.tps ≡ true
      → compute_composite_score f m (m ∷ []) ≡ combine m.correctness_rate (f.of_ℕ 1) (f.of_ℕ 1)
  score-single m p =
      rw
        (
          score-combine m,
          norm-single (tps_of f) m (tps_of-plain m p),
          norm-single (p99_of f) m (p99_of-plain m),
        )
        refl

  -- Where the compared numbers are plain: two windows of one correctness rate get the same score
  -- against the field of themselves, whatever their throughputs and their latencies are.
  pub score-own_field :
      (m n : LatencyWindow W)
      → c.is_plain m.tps ≡ true
      → c.is_plain n.tps ≡ true
      → m.correctness_rate ≡ n.correctness_rate
      → compute_composite_score f m (m ∷ []) ≡ compute_composite_score f n (n ∷ [])
  score-own_field m n p q e =
      score-single m p ∙ ap (λ r. combine r (f.of_ℕ 1) (f.of_ℕ 1)) e ∙ sym (score-single n q)
