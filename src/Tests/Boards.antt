-- ===== src/Tests/Boards.antt =====
-- The scores, the ranks and the commentary at concrete inputs. The numbers of the arithmetic are
-- natural ones, its constants tenths.
use alpha_exchange.Base.{
  ℕ, ◌+◌, ◌-◌, ◌*◌, ◌/◌, ◌^◌, ◌<◌, ◌==◌, ◌≡◌, refl, ltb, true, List, [], ◌∷◌, Option, none, some,
  String, arith, All, Chain,
}
use alpha_exchange.Base.Int.{pos, negsuc}
use alpha_exchange.Base.Float.{Float, IsComparable}
use alpha_exchange.Leaderboard.Scorer.{Entry, Metrics, compute, compute_scores, rank_all}
use alpha_exchange.Leaderboard.Scorer.Ranks.{NotBelow, better, sorted_entries, compute-ranks}
use alpha_exchange.Leaderboard.Scorer.Scores.{windows, rescored, compute_scores-rescored}
use alpha_exchange.Leaderboard.Commentary.{itoa}
use alpha_exchange.Leaderboard.Commentary.Decimals.{Denotes, itoa-read}
use alpha_exchange.Leaderboard.Predictor.{new_predictor, history_of, record_entries}
use alpha_exchange.Leaderboard.Predictor.History.{EndsWith, scores_of, record_entries-history}
use alpha_exchange.SubmissionApi.Board.{compute_leaderboard}
use alpha_exchange.SubmissionApi.Board.Agreement.{IsProper, compute_leaderboard-compute}

abbrev pub tenths : Float ℕ
tenths = record {
  add = λ a b. a + b;
  sub = λ a b. a - b;
  mul = λ a b. a * b;
  div = λ a b. a / b;
  lt = λ a b. ltb a b;
  eq = λ a b. a == b;
  of_ℕ = λ n. n;
  two_fifths = 4;
  three_tenths = 3;
  fifth = 2;
  tenth = 1;
  half = 0;
  trunc = λ n. n;
}

unfoldable tenths-IsComparable : IsComparable ℕ tenths
tenths-IsComparable = record {
  is_plain = λ n. true;
  lt_irrefl = λ n p. ground arith;
  lt_asym = λ m n p q l. ground (arith, l);
  lt_tri = λ m n p q l r. ground (arith, l, r);
  eq_refl = λ n p. ground arith;
  of_ℕ_plain = λ n. refl;
}

abbrev fast : Metrics ℕ
fast = record { contestant_name = "fast"; p99_us = 100; tps = 900; correctness_rate = 1 }

abbrev slow : Metrics ℕ
slow = record { contestant_name = ""; p99_us = 800; tps = 20; correctness_rate = 1 }

abbrev hashes : List (String × Option (Metrics ℕ))
hashes = ("a", some slow) ∷ ("b", none) ∷ ("c", some fast) ∷ []

compute-ranks_example :
    (compute tenths (λ l. l) (some hashes) ≡ some (rank_all tenths (sorted_entries tenths hashes)))
    × Chain NotBelow (sorted_entries tenths hashes)
    × All
        (λ e. e.rank ≡ 1 + better e.score (sorted_entries tenths hashes))
        (rank_all tenths (sorted_entries tenths hashes))
compute-ranks_example = compute-ranks tenths (λ l. l) hashes

abbrev entry_a : Entry ℕ
entry_a = record {
  rank = 1;
  contestant_id = "a";
  contestant_name = "a";
  score = 70;
  p99_us = 100;
  tps = 900;
  correctness_rate = 1;
}

abbrev entry_b : Entry ℕ
entry_b = record {
  rank = 2;
  contestant_id = "b";
  contestant_name = "b";
  score = 20;
  p99_us = 800;
  tps = 20;
  correctness_rate = 1;
}

compute_scores-rescored_example :
    compute_scores tenths (entry_a ∷ entry_b ∷ [])
    ≡ rescored tenths tenths-IsComparable
        (windows (entry_a ∷ entry_b ∷ []))
        (entry_a ∷ entry_b ∷ [])
unfolding tenths-IsComparable
compute_scores-rescored_example =
    compute_scores-rescored tenths tenths-IsComparable (entry_a ∷ entry_b ∷ []) (refl, (refl, tt))

itoa-read_example :
    (405 < 10 ^ 12 → (t : List ℕ) × (itoa (pos 405) ≡ some t) × Denotes t 405)
    × (405 + 1 < 10 ^ 11
        → (t : List ℕ) × (itoa (negsuc 405) ≡ some (b'-' ∷ t)) × Denotes t (405 + 1))
itoa-read_example = itoa-read 405

record_entries-history_example :
    EndsWith 60
      (scores_of "a" (entry_a ∷ entry_b ∷ entry_a ∷ []))
      (history_of "a" (record_entries (entry_a ∷ entry_b ∷ entry_a ∷ []) new_predictor))
record_entries-history_example = record_entries-history "a" (entry_a ∷ entry_b ∷ entry_a ∷ [])

abbrev named : List (String × Option (Metrics ℕ))
named = ("a", some (record slow { contestant_name = "slow" })) ∷ ("b", none) ∷ ("c", some fast) ∷ []

compute_leaderboard-compute_example :
    compute tenths (λ l. l) (some named) ≡ some (compute_leaderboard tenths (some named))
unfolding tenths-IsComparable IsProper
compute_leaderboard-compute_example =
    compute_leaderboard-compute tenths tenths-IsComparable (λ l. l) named refl
      ((refl, refl), (tt, ((refl, refl), tt)))
