-- ===== src/Leaderboard/Scorer/Scores.antt =====
-- The scores of the leaderboard and of the orchestrator.
use alpha_exchange.Base.{◌≡◌, refl, ap, ◌∙◌, if◌then◌else◌, Bool, true, List, [], ◌∷◌, arith, All}
use alpha_exchange.Base.Float.{Float, IsComparable}
use alpha_exchange.Leaderboard.Scorer as board
use alpha_exchange.Leaderboard.Scorer.{
  Entry, min_f, max_f, min_over, max_over, score_each, compute_scores,
}
use alpha_exchange.Orchestrator.Scorer as final
use alpha_exchange.Orchestrator.Scorer.{
  LatencyWindow, lowest, highest, score_against, compute_composite_score,
}

module _ {W : Type 0} where
  -- What the orchestrator reads of an entry.
  unfoldable pub window : Entry W → LatencyWindow W
  window e = record { tps = e.tps; p99_us = e.p99_us; correctness_rate = e.correctness_rate }

  unfoldable pub windows : List (Entry W) → List (LatencyWindow W)
  unfolding window
  windows [] = []
  windows (e ∷ es) = window e ∷ windows es

  module _ (f : Float W) (c : IsComparable W f) where
    abbrev pub PlainTps : Entry W → Type 0
    PlainTps e = c.is_plain e.tps ≡ true

    -- The two ways to keep the smaller of two numbers.
    pub min_lem :
        (a b : W)
        → c.is_plain a ≡ true
        → c.is_plain b ≡ true
        → min_f f a b ≡ (if f.lt b a then b else a)
    unfolding min_f
    min_lem a b p q = ground (arith, c.lt_asym a b p q, c.lt_asym b a q p, c.lt_tri a b p q)

    pub max_lem :
        (a b : W)
        → c.is_plain a ≡ true
        → c.is_plain b ≡ true
        → max_f f a b ≡ (if f.lt a b then b else a)
    unfolding max_f
    max_lem a b p q = ground (arith, c.lt_asym a b p q, c.lt_asym b a q p, c.lt_tri a b p q)

    pub pick_plain :
        (b : Bool) (x y : W)
        → c.is_plain x ≡ true
        → c.is_plain y ≡ true
        → c.is_plain (if b then x else y) ≡ true
    pick_plain b x y p q = ground (arith, p, q)

    -- A quantity that both read alike.
    module _ (q : Entry W → W) (r : LatencyWindow W → W)
        (same : (e : Entry W) → q e ≡ r (window e)) where
      min_over-lowest :
          (es : List (Entry W)) (m : W)
          → c.is_plain m ≡ true
          → All (λ e. c.is_plain (q e) ≡ true) es
          → min_over f q m es ≡ lowest f r m (windows es)
      unfolding min_over lowest windows
      min_over-lowest [] m p h = refl
      min_over-lowest (e ∷ es) m p (h, k) =
          min_over-lowest es (min_f f m (q e))
            (rw (min_lem m (q e) p h) (pick_plain (f.lt (q e) m) (q e) m h p)) k
          ∙ ap (λ x. lowest f r x (windows es)) (min_lem m (q e) p h ∙ rw (same e) refl)

      max_over-highest :
          (es : List (Entry W)) (m : W)
          → c.is_plain m ≡ true
          → All (λ e. c.is_plain (q e) ≡ true) es
          → max_over f q m es ≡ highest f r m (windows es)
      unfolding max_over highest windows
      max_over-highest [] m p h = refl
      max_over-highest (e ∷ es) m p (h, k) =
          max_over-highest es (max_f f m (q e))
            (rw (max_lem m (q e) p h) (pick_plain (f.lt m (q e)) (q e) m h p)) k
          ∙ ap (λ x. highest f r x (windows es)) (max_lem m (q e) p h ∙ rw (same e) refl)

    -- The score of an entry against the extremes, in the words of the two services.
    composite_lem :
        (e : Entry W) (first : LatencyWindow W) (rest : List (LatencyWindow W)) (t t' l l' : W)
        → t ≡ lowest f (final.tps_of f) (final.tps_of f first) (first ∷ rest)
        → t' ≡ highest f (final.tps_of f) (final.tps_of f first) (first ∷ rest)
        → l ≡ lowest f (final.p99_of f) (final.p99_of f first) (first ∷ rest)
        → l' ≡ highest f (final.p99_of f) (final.p99_of f first) (first ∷ rest)
        → board.composite f
            (board.norm f (board.tps_of f e) t t')
            (board.norm f (board.p99_of f e) l l')
            e.correctness_rate
          ≡ score_against f (window e) first rest
    unfolding board.composite board.norm board.tps_of board.p99_of score_against final.norm
        board.clamp board.round2 final.clamp final.round2 window
    composite_lem e first rest t t' l l' et et' el el' = rw (et, et', el, el') refl

    -- The entries with the scores that the orchestrator gives their windows.
    unfoldable pub rescored : List (LatencyWindow W) → List (Entry W) → List (Entry W)
    rescored field [] = []
    rescored field (e ∷ es) =
        record e { score = compute_composite_score f (window e) field } ∷ rescored field es

    score_each-rescored :
        (es : List (Entry W)) (first : LatencyWindow W) (rest : List (LatencyWindow W))
        (t t' l l' : W)
        → t ≡ lowest f (final.tps_of f) (final.tps_of f first) (first ∷ rest)
        → t' ≡ highest f (final.tps_of f) (final.tps_of f first) (first ∷ rest)
        → l ≡ lowest f (final.p99_of f) (final.p99_of f first) (first ∷ rest)
        → l' ≡ highest f (final.p99_of f) (final.p99_of f first) (first ∷ rest)
        → score_each f t t' l l' es ≡ rescored (first ∷ rest) es
    unfolding score_each rescored compute_composite_score
    score_each-rescored [] first rest t t' l l' et et' el el' = refl
    score_each-rescored (e ∷ es) first rest t t' l l' et et' el el' =
        rw
          (
            composite_lem e first rest t t' l l' et et' el el',
            score_each-rescored es first rest t t' l l' et et' el el',
          )
          refl

    p99_plain : (es : List (Entry W)) → All (λ e. c.is_plain (board.p99_of f e) ≡ true) es
    unfolding board.p99_of
    p99_plain [] = tt
    p99_plain (e ∷ es) = (c.of_ℕ_plain e.p99_us, p99_plain es)

    tps_same : (e : Entry W) → board.tps_of f e ≡ final.tps_of f (window e)
    unfolding board.tps_of final.tps_of window
    tps_same e = refl

    p99_same : (e : Entry W) → board.p99_of f e ≡ final.p99_of f (window e)
    unfolding board.p99_of final.p99_of window
    p99_same e = refl

    tps_plain :
        (es : List (Entry W)) → All PlainTps es → All (λ e. c.is_plain (board.tps_of f e) ≡ true) es
    unfolding board.tps_of
    tps_plain es h = h

    -- Where the compared numbers are plain: the leaderboard gives each of its entries the score that
    -- the orchestrator computes for its window against the windows of all entries, and changes
    -- nothing else.
    pub compute_scores-rescored :
        (es : List (Entry W)) → All PlainTps es → compute_scores f es ≡ rescored (windows es) es
    unfolding compute_scores windows
    compute_scores-rescored [] h = unfold rescored in refl
    compute_scores-rescored (e ∷ es) (h, k) =
        let tps = tps_plain (e ∷ es) (h, k) in
        let p99 = p99_plain (e ∷ es) in
        score_each-rescored (e ∷ es) (window e) (windows es)
          (min_over f (board.tps_of f) (board.tps_of f e) (e ∷ es))
          (max_over f (board.tps_of f) (board.tps_of f e) (e ∷ es))
          (min_over f (board.p99_of f) (board.p99_of f e) (e ∷ es))
          (max_over f (board.p99_of f) (board.p99_of f e) (e ∷ es))
          (min_over-lowest (board.tps_of f) (final.tps_of f) tps_same (e ∷ es) (board.tps_of f e)
              tps.0 tps
            ∙ ap (λ x. lowest f (final.tps_of f) x (windows (e ∷ es))) (tps_same e))
          (max_over-highest (board.tps_of f) (final.tps_of f) tps_same (e ∷ es) (board.tps_of f e)
              tps.0 tps
            ∙ ap (λ x. highest f (final.tps_of f) x (windows (e ∷ es))) (tps_same e))
          (min_over-lowest (board.p99_of f) (final.p99_of f) p99_same (e ∷ es) (board.p99_of f e)
              p99.0 p99
            ∙ ap (λ x. lowest f (final.p99_of f) x (windows (e ∷ es))) (p99_same e))
          (max_over-highest (board.p99_of f) (final.p99_of f) p99_same (e ∷ es) (board.p99_of f e)
              p99.0 p99
            ∙ ap (λ x. highest f (final.p99_of f) x (windows (e ∷ es))) (p99_same e))
