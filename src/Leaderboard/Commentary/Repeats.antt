-- ===== src/Leaderboard/Commentary/Repeats.antt =====
-- Commentary on a board that has not changed.
use alpha_exchange.Base.{
  ◌≡◌, refl, ◌∙◌, false, List, [], ◌∷◌, some, str_eq, arith, All, All-map, eq_iff,
}
use alpha_exchange.Base.Dict.{lookup, lookup-insert, lookup-insert_self, lookup-insert_other}
use alpha_exchange.Base.Float.{Float}
use alpha_exchange.Leaderboard.Scorer.{Entry}
use alpha_exchange.Leaderboard.Commentary.{
  Generator, rank_events, rate_events, entry_events, both, or_zero, remember, diff_each, close_race,
  diff,
}

module _ {W : Type 0} where
  -- No two entries are of one contestant.
  unfoldable pub Distinct : List (Entry W) → Type 0
  Distinct [] = Unit {0}
  Distinct (e ∷ es) = All (λ o. str_eq o.contestant_id e.contestant_id ≡ false) es × Distinct es

  abbrev Remembers : Generator → Entry W → Type 0
  Remembers g e =
      (lookup e.contestant_id g.prev_rank ≡ some e.rank)
      × (lookup e.contestant_id g.prev_score ≡ some e.score)

  module _ (f : Float W) where
    remember-Remembers : (g : Generator) (e : Entry W) → Remembers (remember f g e) e
    unfolding remember
    remember-Remembers g e = (
      lookup-insert_self e.contestant_id e.rank g.prev_rank,
      lookup-insert_self e.contestant_id e.score g.prev_score,
    )

    -- What is remembered of another contestant stays.
    remember-other :
        (g : Generator) (e o : Entry W)
        → str_eq o.contestant_id e.contestant_id ≡ false
        → Remembers g e
        → Remembers (remember f g o) e
    unfolding remember
    remember-other g e o apart (r, s) = (
      lookup-insert_other o.contestant_id e.contestant_id o.rank g.prev_rank apart ∙ r,
      lookup-insert_other o.contestant_id e.contestant_id o.score g.prev_score apart ∙ s,
    )

    diff_each-other :
        (es : List (Entry W)) (g : Generator) (e : Entry W)
        → All (λ o. str_eq o.contestant_id e.contestant_id ≡ false) es
        → Remembers g e
        → Remembers (diff_each f g es).1 e
    unfolding diff_each
    diff_each-other [] g e apart r = r
    diff_each-other (o ∷ es) g e (h, apart) r =
        diff_each-other es (remember f g o) e apart (remember-other g e o h r)

    diff_each-Remembers :
        (es : List (Entry W)) (g : Generator)
        → Distinct es
        → All (Remembers (diff_each f g es).1) es
    unfolding diff_each Distinct
    diff_each-Remembers [] g d = tt
    diff_each-Remembers (e ∷ es) g (apart, d) = (
      diff_each-other es (remember f g e) e apart (remember-Remembers g e),
      diff_each-Remembers es (remember f g e) d,
    )

    -- An entry that is remembered has no news.
    entry_events-none : (g : Generator) (e : Entry W) → Remembers g e → entry_events f g e ≡ some []
    unfolding entry_events rank_events rate_events both or_zero
    entry_events-none g e (r, s) = rw (r, s) ground arith

    -- A second entry of the same contestant would have to be the same one.
    remember-again :
        (g : Generator) (o e : Entry W)
        → Remembers g o
        → Remembers g e
        → Remembers (remember f g o) e
    unfolding remember
    remember-again g o e (ro, so) (re, se) = (
      ground (
        arith,
        lookup-insert o.contestant_id e.contestant_id o.rank g.prev_rank,
        eq_iff o.contestant_id e.contestant_id,
        ro,
        re,
      ),
      ground (
        arith,
        lookup-insert o.contestant_id e.contestant_id o.score g.prev_score,
        eq_iff o.contestant_id e.contestant_id,
        so,
        se,
      ),
    )

    diff_each-none :
        (es : List (Entry W)) (g : Generator)
        → All (Remembers g) es
        → (diff_each f g es).0 ≡ some []
    unfolding diff_each both
    diff_each-none [] g all = refl
    diff_each-none (e ∷ es) g (r, all) =
        rw
          (
            entry_events-none g e r,
            diff_each-none es (remember f g e) (
                All-map (Remembers g) (Remembers (remember f g e)) (λ o. remember-again g e o r) es
                  all),
          )
          refl

    -- For a board on which no contestant stands twice, and whatever was remembered before: when the
    -- board is told a second time, nothing is said but the callout of a close race.
    pub diff-repeat :
        (g : Generator) (es : List (Entry W))
        → Distinct es
        → (diff f (diff f g es).1 es).0 ≡ some (close_race f es)
    unfolding diff
    diff-repeat g es d =
        rw (diff_each-none es (diff_each f g es).1 (diff_each-Remembers es g d)) unfold both in refl
