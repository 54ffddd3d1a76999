-- ===== src/Leaderboard/Scorer/Ranks.antt =====
-- The ranks of the leaderboard.
use alpha_exchange.Base.{
  ℕ, ◌+◌, ◌≤◌, ◌<◌, ◌≡◌, refl, ap, ◌∙◌, ◌==◌, ltb, if◌then◌else◌, true, false, List, [], ◌∷◌,
  length, Option, some, String, arith, All, All-map, Chain, sort_stable, sort_stable-Chain,
  Bool-cases, inl, inr,
}
use alpha_exchange.Base.Float.{Float}
use alpha_exchange.Leaderboard.Scorer.{
  Metrics, Entry, goes_before, rank_from, rank_all, compute, compute_scores, read_entries,
}

module _ {W : Type 0} where
  abbrev pub NotBelow : Entry W → Entry W → Type 0
  NotBelow a b = b.score ≤ a.score

  -- How many entries have a higher score.
  pub better : ℕ → List (Entry W) → ℕ
  better s [] = 0
  better s (e ∷ es) = if ltb s e.score then better s es + 1 else better s es

  better-none : (s : ℕ) (es : List (Entry W)) → All (λ e. e.score ≤ s) es → better s es ≡ 0
  unfolding better
  better-none s [] h = refl
  better-none s (e ∷ es) (h, k) = ground (arith, better-none s es k)

  better-All : (s : ℕ) (es : List (Entry W)) → All (λ e. s < e.score) es → better s es ≡ length es
  unfolding better
  better-All s [] h = refl
  better-All s (e ∷ es) (h, k) = ground (arith, better-All s es k)

  abbrev Ranked : List (Entry W) → List (Entry W) → Entry W → Type 0
  Ranked before es e = e.rank ≡ 1 + (better e.score before + better e.score es)

  next_rank_lem :
      (e : Entry W) (before : List (Entry W)) (i rank prev : ℕ)
      → i ≡ length before
      → All (λ b. prev ≤ b.score) before
      → rank ≡ 1 + better prev before
      → e.score ≤ prev
      → (if prev == e.score then rank else i + 1) ≡ 1 + better e.score before
  next_rank_lem e before i rank prev ei above er le = elim (Bool-cases (prev == e.score)) [
    | inl same ↦
        let q : prev ≡ e.score = ground (arith, same) in
        rw (same) (er ∙ ap (λ s. 1 + better s before) q)
    | inr apart ↦
        let lower : e.score < prev = ground (arith, apart, le) in
        let all =
          All-map (λ b. prev ≤ b.score) (λ b. e.score < b.score) (λ b h. omega (arith, lower, h))
            before above in
        rw (apart) (omega (arith, ei, better-All e.score before all))
  ]

  Ranked-shift :
      (before es : List (Entry W)) (e x : Entry W)
      → Ranked (e ∷ before) es x
      → Ranked before (e ∷ es) x
  unfolding better
  Ranked-shift before es e x h = ground (arith, h)

  rank_from-Ranked :
      (f : Float W) (before es : List (Entry W)) (i rank prev : ℕ)
      → i ≡ length before
      → All (λ e. prev ≤ e.score) before
      → rank ≡ 1 + better prev before
      → All (λ e. e.score ≤ prev) es
      → Chain NotBelow es
      → All (Ranked before es) (rank_from f i rank prev es)
  unfolding rank_from
  rank_from-Ranked f before [] i rank prev ei above er below c = tt
  rank_from-Ranked f before (e ∷ es) i rank prev ei above er (le, below) (c, cs) =
      let r = if prev == e.score then rank else i + 1 in
      let er' = next_rank_lem e before i rank prev ei above er le in
      let lower =
        All-map (λ b. prev ≤ b.score) (λ b. e.score ≤ b.score) (λ b h. omega (arith, le, h)) before
          above in
      let own : better e.score (e ∷ es) ≡ 0 = better-none e.score (e ∷ es) (omega arith, c) in
      let own_before : better e.score (e ∷ before) ≡ better e.score before =
        unfold better in ground arith in
      (
        omega (arith, er', own),
        All-map (Ranked (e ∷ before) es) (Ranked before (e ∷ es)) (Ranked-shift before es e)
            (rank_from f (i + 1) r e.score es)
            (rank_from-Ranked f (e ∷ before) es (i + 1) r e.score (omega (arith, ei))
              (omega arith, lower) (omega (arith, er', own_before)) c cs),
      )

  rank_all-Ranked :
      (f : Float W) (es : List (Entry W)) → Chain NotBelow es → All (Ranked [] es) (rank_all f es)
  unfolding rank_all
  rank_all-Ranked f [] c = tt
  rank_all-Ranked f (e ∷ es) (c, cs) =
      let own : better e.score (e ∷ es) ≡ 0 = better-none e.score (e ∷ es) (omega arith, c) in
      let own_before : better e.score (e ∷ []) ≡ 0 = unfold better in ground arith in
      let none_before : better e.score [] ≡ 0 = unfold better in refl in
      (
        omega (arith, own, none_before),
        All-map (Ranked (e ∷ []) es) (Ranked [] (e ∷ es)) (Ranked-shift [] es e)
            (rank_from f 1 1 e.score es)
            (rank_from-Ranked f (e ∷ []) es 1 1 e.score refl (omega arith)
              (omega (arith, own_before)) c cs),
      )

  goes_before-NotBelow : (f : Float W) (a b : Entry W) → goes_before f a b ≡ true → NotBelow a b
  unfolding goes_before
  goes_before-NotBelow f a b e = ground (arith, e)

  not_before-NotBelow : (f : Float W) (a b : Entry W) → goes_before f a b ≡ false → NotBelow b a
  unfolding goes_before
  not_before-NotBelow f a b e = ground (arith, e)

  sorted-Chain :
      (f : Float W) (es : List (Entry W)) → Chain NotBelow (sort_stable (goes_before f) es)
  sorted-Chain f =
      sort_stable-Chain (goes_before f) NotBelow (λ x y z h k. omega (arith, h, k))
        (goes_before-NotBelow f) (not_before-NotBelow f)

  -- The leaderboard before its ranks are written.
  abbrev pub sorted_entries : Float W → List (String × Option (Metrics W)) → List (Entry W)
  sorted_entries f hashes = sort_stable (goes_before f) (compute_scores f (read_entries f hashes))

  -- For whatever Redis holds, in whatever order the loop meets it, and whatever the arithmetic is: the
  -- leaderboard is sorted by falling scores, and the rank of each of its entries is 1 more than the number of entries that have a
  -- higher score, so that equal scores share a rank.
  pub compute-ranks :
      (f : Float W)
      (range : List (String × Option (Metrics W)) → List (String × Option (Metrics W)))
      (hashes : List (String × Option (Metrics W)))
      → (compute f range (some hashes) ≡ some (rank_all f (sorted_entries f (range hashes))))
        × Chain NotBelow (sorted_entries f (range hashes))
        × All
            (λ e. e.rank ≡ 1 + better e.score (sorted_entries f (range hashes)))
            (rank_all f (sorted_entries f (range hashes)))
  unfolding compute
  compute-ranks f range hashes =
      let es = sorted_entries f (range hashes) in
      (
        refl,
        sorted-Chain f (compute_scores f (read_entries f (range hashes))),
        All-map (Ranked [] es) (λ e. e.rank ≡ 1 + better e.score es)
            (λ e h. unfold better in omega (arith, h)) (rank_all f es)
            (rank_all-Ranked f es
              (sorted-Chain f (compute_scores f (read_entries f (range hashes))))),
      )
