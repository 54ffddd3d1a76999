-- ===== src/SubmissionApi/Board.antt =====
-- services/submission-api/handlers/leaderboard.go: the public leaderboard, over what Redis holds and
-- the float arithmetic `f`. Entries and hashes are those of the leaderboard's scorer, the scores in
-- hundredths; an entry keeps the name of its hash as it is. The clock and the JSON text are left
-- out, so what is cached is the board itself; its expiry is the caller's.
pub mod Agreement
use alpha_exchange.Base.{
  ℕ, ◌+◌, ◌==◌, ltb, if◌then◌else◌, Bool, true, false, List, [], ◌∷◌, Option, none, some, String,
  sort_stable,
}
use alpha_exchange.Base.Float.{Float}
use alpha_exchange.Leaderboard.Scorer.{Metrics, Entry}

module _ {W : Type 0} (f : Float W) where
  unfoldable pub normalize : W → W → W → W
  normalize v min max = if f.eq max min then f.of_ℕ 1 else f.div (f.sub v min) (f.sub max min)

  unfoldable pub clamp : W → W → W → W
  clamp v lo hi = if f.lt v lo then lo else if f.lt hi v then hi else v

  unfoldable pub round2 : W → ℕ
  round2 v = f.trunc (f.add (f.mul v (f.of_ℕ 100)) f.half)

  -- The loop over the entries, for a quantity of them.
  unfoldable pub lowest : (Entry W → W) → W → List (Entry W) → W
  lowest q min [] = min
  lowest q min (e ∷ es) = lowest q (if f.lt (q e) min then q e else min) es

  unfoldable pub highest : (Entry W → W) → W → List (Entry W) → W
  highest q max [] = max
  highest q max (e ∷ es) = highest q (if f.lt max (q e) then q e else max) es

  unfoldable pub tps_of : Entry W → W
  tps_of e = e.tps

  unfoldable pub p99_of : Entry W → W
  p99_of e = f.of_ℕ e.p99_us

  unfoldable pub score_one : W → W → W → W → Entry W → Entry W
  unfolding normalize clamp round2 tps_of p99_of
  score_one min_tps max_tps min_p99 max_p99 e =
      let nt = normalize (tps_of e) min_tps max_tps in
      let np = normalize (p99_of e) min_p99 max_p99 in
      let score =
        f.add (f.add (f.mul f.two_fifths nt) (f.mul f.two_fifths (f.sub (f.of_ℕ 1) np)))
          (f.mul f.fifth e.correctness_rate) in
      record e { score = round2 (clamp (f.mul score (f.of_ℕ 100)) (f.of_ℕ 0) (f.of_ℕ 100)) }

  unfoldable pub score_each : W → W → W → W → List (Entry W) → List (Entry W)
  unfolding score_one
  score_each min_tps max_tps min_p99 max_p99 [] = []
  score_each min_tps max_tps min_p99 max_p99 (e ∷ es) =
      score_one min_tps max_tps min_p99 max_p99 e ∷ score_each min_tps max_tps min_p99 max_p99 es

  unfoldable pub compute_scores : List (Entry W) → List (Entry W)
  unfolding lowest highest score_each
  compute_scores [] = []
  compute_scores (e ∷ es) =
      score_each (lowest tps_of (tps_of e) (e ∷ es)) (highest tps_of (tps_of e) (e ∷ es))
        (lowest p99_of (p99_of e) (e ∷ es)) (highest p99_of (p99_of e) (e ∷ es)) (e ∷ es)

  unfoldable pub goes_before : Entry W → Entry W → Bool
  goes_before a b =
      if a.score == b.score
      then (if f.eq a.correctness_rate b.correctness_rate
          then ltb a.p99_us b.p99_us
          else f.lt b.correctness_rate a.correctness_rate)
      else ltb b.score a.score

  unfoldable pub rank_from : ℕ → ℕ → ℕ → List (Entry W) → List (Entry W)
  rank_from i rank prev [] = []
  rank_from i rank prev (e ∷ es) =
      let r = if prev == e.score then rank else i + 1 in
      record e { rank = r } ∷ rank_from (i + 1) r e.score es

  unfoldable pub rank_all : List (Entry W) → List (Entry W)
  unfolding rank_from
  rank_all [] = []
  rank_all (e ∷ es) = record e { rank = 1 } ∷ rank_from 1 1 e.score es

  unfoldable pub read_entries : List (String × Option (Metrics W)) → List (Entry W)
  read_entries [] = []
  read_entries ((id, m) ∷ rest) =
      let others = read_entries rest in
      elim m [
        | none ↦ others
        | some h ↦
            record {
              rank = 0;
              contestant_id = id;
              contestant_name = h.contestant_name;
              score = 0;
              p99_us = h.p99_us;
              tps = h.tps;
              correctness_rate = h.correctness_rate;
            }
            ∷ others
      ]

  -- `none` where Redis does not list the contestants, or there is no Redis.
  unfoldable pub compute_leaderboard : Option (List (String × Option (Metrics W))) → List (Entry W)
  unfolding read_entries compute_scores goes_before sort_stable rank_all
  compute_leaderboard none = []
  compute_leaderboard (some hashes) =
      rank_all (sort_stable goes_before (compute_scores (read_entries hashes)))

  -- The board that is answered, and the one that is cached then.
  unfoldable pub get_leaderboard :
      Option (List (Entry W))
      → Option (List (String × Option (Metrics W)))
      → List (Entry W) × Option (List (Entry W))
  unfolding compute_leaderboard
  get_leaderboard (some cached) hashes = (cached, some cached)
  get_leaderboard none hashes = let board = compute_leaderboard hashes in (board, some board)
