-- ===== src/Leaderboard/Scorer.antt =====
-- services/leaderboard-api/scorer/scorer.go: `Compute` and `ComputeScores` over what Redis holds.
-- Scores stand in hundredths, the integers that `round2` divides by 100 at its end; the other
-- floats are those of an arithmetic `f`. The numbers of a hash stand parsed, 0 where they are
-- missing, and an int64 latency is not negative. `Run`, which publishes the entries on a ticker,
-- the broadcasts and the texts of an entry beyond its name are left out.
pub mod Ranks
pub mod Scores
use alpha_exchange.Base.{
  ℕ, ◌+◌, ◌==◌, ltb, if◌then◌else◌, Bool, true, false, List, [], ◌∷◌, Option, none, some, String,
  str_eq, sort_stable,
}
use alpha_exchange.Base.Float.{Float}

-- The hash metrics:<id>.
pub record Metrics (W : Type 0) : Type 0 where
  pub contestant_name : String
  pub p99_us : ℕ
  pub tps : W
  pub correctness_rate : W

pub record Entry (W : Type 0) : Type 0 where
  pub rank : ℕ
  pub contestant_id : String
  pub contestant_name : String
  pub score : ℕ
  pub p99_us : ℕ
  pub tps : W
  pub correctness_rate : W

unfoldable pub or_default : String → String → String
or_default s d = if str_eq s "" then d else s

module _ {W : Type 0} (f : Float W) where
  unfoldable pub norm : W → W → W → W
  norm v min max = if f.eq max min then f.of_ℕ 1 else f.div (f.sub v min) (f.sub max min)

  unfoldable pub min_f : W → W → W
  min_f a b = if f.lt a b then a else b

  unfoldable pub max_f : W → W → W
  max_f a b = if f.lt b a then a else b

  unfoldable pub clamp : W → W → W → W
  clamp v lo hi = if f.lt v lo then lo else if f.lt hi v then hi else v

  -- In hundredths.
  unfoldable pub round2 : W → ℕ
  round2 v = f.trunc (f.add (f.mul v (f.of_ℕ 100)) f.half)

  -- The loop over the entries, for a quantity of them.
  unfoldable pub min_over : (Entry W → W) → W → List (Entry W) → W
  unfolding min_f
  min_over q min [] = min
  min_over q min (e ∷ es) = min_over q (min_f min (q e)) es

  unfoldable pub max_over : (Entry W → W) → W → List (Entry W) → W
  unfolding max_f
  max_over q max [] = max
  max_over q max (e ∷ es) = max_over q (max_f max (q e)) es

  unfoldable pub tps_of : Entry W → W
  tps_of e = e.tps

  unfoldable pub p99_of : Entry W → W
  p99_of e = f.of_ℕ e.p99_us

  -- The score of an entry with the normalized quantities.
  unfoldable pub composite : W → W → W → ℕ
  unfolding clamp round2
  composite nt np rate =
      let score =
        f.add (f.add (f.mul f.two_fifths nt) (f.mul f.two_fifths (f.sub (f.of_ℕ 1) np)))
          (f.mul f.fifth rate) in
      round2 (clamp (f.mul score (f.of_ℕ 100)) (f.of_ℕ 0) (f.of_ℕ 100))

  unfoldable pub score_each : W → W → W → W → List (Entry W) → List (Entry W)
  unfolding norm composite tps_of p99_of
  score_each min_tps max_tps min_p99 max_p99 [] = []
  score_each min_tps max_tps min_p99 max_p99 (e ∷ es) =
      record e {
        score =
            composite (norm (tps_of e) min_tps max_tps) (norm (p99_of e) min_p99 max_p99)
              e.correctness_rate;
      }
      ∷ score_each min_tps max_tps min_p99 max_p99 es

  unfoldable pub compute_scores : List (Entry W) → List (Entry W)
  unfolding min_over max_over score_each
  compute_scores [] = []
  compute_scores (e ∷ es) =
      score_each (min_over tps_of (tps_of e) (e ∷ es)) (max_over tps_of (tps_of e) (e ∷ es))
        (min_over p99_of (p99_of e) (e ∷ es)) (max_over p99_of (p99_of e) (e ∷ es)) (e ∷ es)

  -- The comparison of the sort.
  unfoldable pub goes_before : Entry W → Entry W → Bool
  goes_before a b =
      if a.score == b.score
      then (if f.eq a.correctness_rate b.correctness_rate
          then ltb a.p99_us b.p99_us
          else f.lt b.correctness_rate a.correctness_rate)
      else ltb b.score a.score

  -- The loop of the ranks, past the first entry: the index, the rank and the score before.
  unfoldable pub rank_from : ℕ → ℕ → ℕ → List (Entry W) → List (Entry W)
  rank_from i rank prev [] = []
  rank_from i rank prev (e ∷ es) =
      let r = if prev == e.score then rank else i + 1 in
      record e { rank = r } ∷ rank_from (i + 1) r e.score es

  unfoldable pub rank_all : List (Entry W) → List (Entry W)
  unfolding rank_from
  rank_all [] = []
  rank_all (e ∷ es) = record e { rank = 1 } ∷ rank_from 1 1 e.score es

  -- The entries of the contestants whose hash is not empty.
  unfoldable pub read_entries : List (String × Option (Metrics W)) → List (Entry W)
  unfolding or_default
  read_entries [] = []
  read_entries ((id, m) ∷ rest) =
      let others = read_entries rest in
      elim m [
        | none ↦ others
        | some h ↦
            record {
              rank = 0;
              contestant_id = id;
              contestant_name = or_default h.contestant_name id;
              score = 0;
              p99_us = h.p99_us;
              tps = h.tps;
              correctness_rate = h.correctness_rate;
            }
            ∷ others
      ]

  -- `none` where Redis does not list the contestants. The hashes come in the order of that list;
  -- `range` is the order in which the loop over the Go map of the answers meets them, and may be any.
  unfoldable pub compute :
      (List (String × Option (Metrics W)) → List (String × Option (Metrics W)))
      → Option (List (String × Option (Metrics W)))
      → Option (List (Entry W))
  unfolding read_entries compute_scores goes_before sort_stable rank_all
  compute range none = none
  compute range (some hashes) =
      some (rank_all (sort_stable goes_before (compute_scores (read_entries (range hashes)))))
