-- ===== src/SubmissionApi/Board/Agreement.antt =====
-- The board of the submission api and that of the leaderboard.
use alpha_exchange.Base.{
  ℕ, ◌+◌, ◌≡◌, refl, sym, ap, ◌∙◌, ◌==◌, if◌then◌else◌, true, false, List, [], ◌∷◌, Option, none,
  some, String, str_eq, All, sort_stable,
}
use alpha_exchange.Base.Float.{Float, IsComparable}
use alpha_exchange.Leaderboard.Scorer as ranking
use alpha_exchange.Leaderboard.Scorer.{Metrics, Entry}
use alpha_exchange.Leaderboard.Scorer.Scores.{PlainTps, min_lem, max_lem, pick_plain}
use alpha_exchange.SubmissionApi.Board.{
  normalize, clamp, round2, lowest, highest, tps_of, p99_of, score_one, score_each, compute_scores,
  goes_before, rank_from, rank_all, read_entries, compute_leaderboard,
}

module _ {W : Type 0} (f : Float W) (c : IsComparable W f) where
  lowest-min_over :
      (q : Entry W → W) (es : List (Entry W)) (m : W)
      → c.is_plain m ≡ true
      → All (λ e. c.is_plain (q e) ≡ true) es
      → lowest f q m es ≡ ranking.min_over f q m es
  unfolding lowest ranking.min_over
  lowest-min_over q [] m p h = refl
  lowest-min_over q (e ∷ es) m p (h, k) =
      lowest-min_over q es (if f.lt (q e) m then q e else m)
        (pick_plain f c (f.lt (q e) m) (q e) m h p) k
      ∙ ap (λ x. ranking.min_over f q x es) (sym (min_lem f c m (q e) p h))

  highest-max_over :
      (q : Entry W → W) (es : List (Entry W)) (m : W)
      → c.is_plain m ≡ true
      → All (λ e. c.is_plain (q e) ≡ true) es
      → highest f q m es ≡ ranking.max_over f q m es
  unfolding highest ranking.max_over
  highest-max_over q [] m p h = refl
  highest-max_over q (e ∷ es) m p (h, k) =
      highest-max_over q es (if f.lt m (q e) then q e else m)
        (pick_plain f c (f.lt m (q e)) (q e) m h p) k
      ∙ ap (λ x. ranking.max_over f q x es) (sym (max_lem f c m (q e) p h))

  score_each-agrees :
      (t t' l l' : W) (es : List (Entry W))
      → score_each f t t' l l' es ≡ ranking.score_each f t t' l l' es
  unfolding score_each score_one ranking.score_each ranking.composite ranking.norm normalize clamp
      round2 ranking.clamp ranking.round2 tps_of p99_of ranking.tps_of ranking.p99_of
  score_each-agrees t t' l l' [] = refl
  score_each-agrees t t' l l' (e ∷ es) = rw (score_each-agrees t t' l l' es) refl

  p99_plain : (es : List (Entry W)) → All (λ e. c.is_plain (p99_of f e) ≡ true) es
  unfolding p99_of
  p99_plain [] = tt
  p99_plain (e ∷ es) = (c.of_ℕ_plain e.p99_us, p99_plain es)

  tps_plain :
      (es : List (Entry W)) → All (PlainTps f c) es → All (λ e. c.is_plain (tps_of f e) ≡ true) es
  unfolding tps_of
  tps_plain es h = h

  same_tps : tps_of f ≡ ranking.tps_of f
  unfolding tps_of ranking.tps_of
  same_tps = refl

  same_p99 : p99_of f ≡ ranking.p99_of f
  unfolding p99_of ranking.p99_of
  same_p99 = refl

  score_each-same :
      (t t' l l' u u' m m' : W) (es : List (Entry W))
      → t ≡ u
      → t' ≡ u'
      → l ≡ m
      → l' ≡ m'
      → score_each f t t' l l' es ≡ ranking.score_each f u u' m m' es
  score_each-same t t' l l' u u' m m' es et et' el el' =
      rw (et, et', el, el') (score_each-agrees u u' m m' es)

  compute_scores-agrees :
      (es : List (Entry W))
      → All (PlainTps f c) es
      → compute_scores f es ≡ ranking.compute_scores f es
  unfolding compute_scores ranking.compute_scores
  compute_scores-agrees [] h = refl
  compute_scores-agrees (e ∷ es) (h, k) =
      let tps = tps_plain (e ∷ es) (h, k) in
      let p99 = p99_plain (e ∷ es) in
      score_each-same _ _ _ _ _ _ _ _ (e ∷ es)
        (lowest-min_over (tps_of f) (e ∷ es) (tps_of f e) tps.0 tps
          ∙ ap (λ q. ranking.min_over f q (q e) (e ∷ es)) same_tps)
        (highest-max_over (tps_of f) (e ∷ es) (tps_of f e) tps.0 tps
          ∙ ap (λ q. ranking.max_over f q (q e) (e ∷ es)) same_tps)
        (lowest-min_over (p99_of f) (e ∷ es) (p99_of f e) p99.0 p99
          ∙ ap (λ q. ranking.min_over f q (q e) (e ∷ es)) same_p99)
        (highest-max_over (p99_of f) (e ∷ es) (p99_of f e) p99.0 p99
          ∙ ap (λ q. ranking.max_over f q (q e) (e ∷ es)) same_p99)

  same_order : goes_before f ≡ ranking.goes_before f
  unfolding goes_before ranking.goes_before
  same_order = refl

  rank_from-agrees :
      (i rank prev : ℕ) (es : List (Entry W))
      → rank_from f i rank prev es ≡ ranking.rank_from f i rank prev es
  unfolding rank_from ranking.rank_from
  rank_from-agrees i rank prev [] = refl
  rank_from-agrees i rank prev (e ∷ es) =
      let r = if prev == e.score then rank else i + 1 in
      rw (rank_from-agrees (i + 1) r e.score es) refl

  rank_all-agrees : (es : List (Entry W)) → rank_all f es ≡ ranking.rank_all f es
  unfolding rank_all ranking.rank_all
  rank_all-agrees [] = refl
  rank_all-agrees (e ∷ es) = rw (rank_from-agrees 1 1 e.score es) refl

-- A hash with a name and a throughput that is a plain number, or an empty hash.
module _ {W : Type 0} (f : Float W) (c : IsComparable W f) where
  unfoldable pub IsProper : String × Option (Metrics W) → Type 0
  IsProper (id, none) = Unit {0}
  IsProper (id, some h) = (str_eq h.contestant_name "" ≡ false) × (c.is_plain h.tps ≡ true)

  read_entries-agrees :
      (hashes : List (String × Option (Metrics W)))
      → All IsProper hashes
      → (read_entries f hashes ≡ ranking.read_entries f hashes)
        × All (PlainTps f c) (read_entries f hashes)
  unfolding read_entries ranking.read_entries ranking.or_default IsProper
  read_entries-agrees [] h = (refl, tt)
  read_entries-agrees ((id, none) ∷ rest) (h, k) = read_entries-agrees rest k
  read_entries-agrees ((id, some m) ∷ rest) ((named, plain), k) =
      let (same, all) = read_entries-agrees rest k in (rw (named, same) refl, (plain, all))

  -- Where every hash in Redis has a name and a plain throughput, and the leaderboard's loop over its
  -- map meets the contestants in the order in which Redis lists them: the board that the submission
  -- api computes is the one that the leaderboard publishes, with the same scores, order and ranks.
  pub compute_leaderboard-compute :
      (range : List (String × Option (Metrics W)) → List (String × Option (Metrics W)))
      (hashes : List (String × Option (Metrics W)))
      → range hashes ≡ hashes
      → All IsProper hashes
      → ranking.compute f range (some hashes) ≡ some (compute_leaderboard f (some hashes))
  unfolding ranking.compute compute_leaderboard
  compute_leaderboard-compute range hashes met h =
      let (same, plain) = read_entries-agrees hashes h in
      ap
        (λ l. some (
          ranking.rank_all f (
            sort_stable (ranking.goes_before f)
              (ranking.compute_scores f (ranking.read_entries f l)))))
        met
      ∙ ap some (
          sym (
            rank_all-agrees f c
              (sort_stable (goes_before f) (compute_scores f (read_entries f hashes)))
            ∙ ap
                (λ b. ranking.rank_all f (sort_stable b (compute_scores f (read_entries f hashes))))
                (same_order f c)
            ∙ ap (λ l. ranking.rank_all f (sort_stable (ranking.goes_before f) l))
                (compute_scores-agrees f c (read_entries f hashes) plain
                  ∙ ap (ranking.compute_scores f) same)))
