-- ===== src/Leaderboard/Commentary.antt =====
-- services/leaderboard-api/commentary/generator.go: the generator of the ticker and its `itoa`.
-- A message stands as its code points, an event without its constant type and its time. Scores are
-- the hundredths of the scorer; where the code subtracts two of them, the float arithmetic `f` does.
pub mod Decimals
pub mod Repeats
use alpha_exchange.Base.{
  ℕ, zero, suc, ◌+◌, ◌-◌, ◌/◌, ◌%◌, ◌^◌, ◌==◌, ltb, leb, if◌then◌else◌, Bool, true, false, ◌&&◌,
  ◌||◌, List, [], ◌∷◌, ◌++◌, Option, none, some, String,
}
use alpha_exchange.Base.Dict.{Dict, insert, lookup}
use alpha_exchange.Base.Int.{ℤ, pos, negsuc}
use alpha_exchange.Base.Text.{codes}
use alpha_exchange.Base.Float.{Float}
use alpha_exchange.Leaderboard.Scorer.{Entry}

-- The loop that fills the buffer from its end, with `i` bytes left; `none` is the panic of an index
-- below 0.
unfoldable pub write_digits : ℕ → ℕ → List ℕ → Option (List ℕ × ℕ)
write_digits i zero text = some (text, i)
write_digits zero (suc n) text = none
write_digits (suc i) (suc n) text = write_digits i (suc n / 10) ((b'0' + suc n % 10) ∷ text)

-- The sign of a negative number.
unfoldable pub write_sign : Option (List ℕ × ℕ) → Option (List ℕ)
write_sign none = none
write_sign (some (text, zero)) = none
write_sign (some (text, suc i)) = some (b'-' ∷ text)

unfoldable pub written : Option (List ℕ × ℕ) → Option (List ℕ)
written none = none
written (some (text, i)) = some text

-- The negation of the least int64 is itself, which the loop leaves alone.
unfoldable pub magnitude : ℕ → ℕ
magnitude n = if n + 1 == 2 ^ 63 then 0 else n + 1

-- Of an int64.
unfoldable pub itoa : ℤ → Option (List ℕ)
unfolding write_digits write_sign written magnitude
itoa (pos zero) = some (b'0' ∷ [])
itoa (pos (suc n)) = written (write_digits 12 (suc n) [])
itoa (negsuc n) = write_sign (write_digits 12 (magnitude n) [])

pub record Event : Type 0 where
  pub message : List ℕ
  pub priority : ℕ

pub record Generator : Type 0 where
  pub prev_rank : Dict ℕ
  pub prev_score : Dict ℕ

unfoldable pub new : Generator
new = record { prev_rank = []; prev_score = [] }

-- An event whose message ends with a number.
unfoldable pub announce : List ℕ → Option (List ℕ) → ℕ → Option Event
announce text none priority = none
announce text (some digits) priority =
    some (record { message = text ++ digits; priority = priority })

-- An event whose message starts with a number, past a plus sign.
unfoldable pub announce_climb : Option (List ℕ) → List ℕ → Option (List ℕ) → Option Event
announce_climb none text number = none
announce_climb (some digits) text none = none
announce_climb (some digits) text (some number) =
    some (record { message = (b'+' ∷ digits) ++ (codes ": " ++ (text ++ number)); priority = 3 })

unfoldable pub one : Option Event → Option (List Event)
one none = none
one (some e) = some (e ∷ [])

unfoldable pub both : Option (List Event) → Option (List Event) → Option (List Event)
both none later = none
both (some es) none = none
both (some es) (some later) = some (es ++ later)

-- The triangles that point up and down, with their space.
unfoldable pub up : List ℕ
up = 9650 ∷ b' ' ∷ []

unfoldable pub down : List ℕ
down = 9660 ∷ b' ' ∷ []

module _ {W : Type 0} (f : Float W) where
  -- The switch on the rank before.
  unfoldable pub rank_events : Option ℕ → Entry W → Option (List Event)
  unfolding itoa announce announce_climb one up down
  rank_events none e =
      if ltb 0 e.score
      then one (
          announce (codes "NEW: " ++ (codes e.contestant_name ++ codes " enters the board at #"))
            (itoa (pos e.rank)) 2)
      else some []
  rank_events (some prev) e =
      if ltb (e.rank + 2) prev
      then one (
          announce_climb (itoa (pos (prev - e.rank)))
            (codes e.contestant_name ++ codes " climbs to #") (itoa (pos e.rank)))
      else if ltb e.rank prev
      then one (
          announce (up ++ (codes e.contestant_name ++ codes " moves up to #")) (itoa (pos e.rank))
            1)
      else if ltb prev e.rank
      then one (
          announce (down ++ (codes e.contestant_name ++ codes " drops to #")) (itoa (pos e.rank)) 1)
      else some []

  -- A missing key of a Go map is 0.
  unfoldable pub or_zero : Option ℕ → ℕ
  or_zero none = 0
  or_zero (some n) = n

  unfoldable pub rate_events : Option ℕ → Entry W → List Event
  unfolding or_zero
  rate_events prev e =
      if (f.lt (f.of_ℕ 10000) e.tps || f.eq e.tps (f.of_ℕ 10000)) && ltb (or_zero prev) e.score
      then record {
        message = codes e.contestant_name ++ codes " clears 10,000 orders/sec";
        priority = 2;
      }
        ∷ []
      else []

  -- The events of an entry.
  unfoldable pub entry_events : Generator → Entry W → Option (List Event)
  unfolding rank_events rate_events both
  entry_events g e =
      both (rank_events (lookup e.contestant_id g.prev_rank) e)
        (some (rate_events (lookup e.contestant_id g.prev_score) e))

  unfoldable pub remember : Generator → Entry W → Generator
  unfolding insert
  remember g e = record {
    prev_rank = insert e.contestant_id e.rank g.prev_rank;
    prev_score = insert e.contestant_id e.score g.prev_score;
  }

  -- The loop over the entries; `none` where `itoa` panics.
  unfoldable pub diff_each : Generator → List (Entry W) → Option (List Event) × Generator
  unfolding entry_events remember both
  diff_each g [] = (some [], g)
  diff_each g (e ∷ es) =
      let later = diff_each (remember g e) es in (both (entry_events g e) later.0, later.1)

  unfoldable pub score_of : Entry W → W
  score_of e = f.div (f.of_ℕ e.score) (f.of_ℕ 100)

  -- The callout of a close race.
  unfoldable pub close_race : List (Entry W) → List Event
  unfolding score_of
  close_race (a ∷ b ∷ c ∷ rest) =
      if f.lt (f.sub (score_of a) (score_of c)) (f.of_ℕ 5) && ltb 0 a.score
      then record { message = codes "Top 3 separated by less than 5 points"; priority = 2 } ∷ []
      else []
  close_race few = []

  unfoldable pub diff : Generator → List (Entry W) → Option (List Event) × Generator
  unfolding diff_each close_race both
  diff g entries = let r = diff_each g entries in (both r.0 (some (close_race entries)), r.1)
