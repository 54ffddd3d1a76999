-- ===== src/Leaderboard/Predictor.antt =====
-- services/leaderboard-api/scorer/prediction.go: the rolling history of the predictor, and the
-- answers of `Predict` that need no regression. Scores are the hundredths of the scorer.
pub mod History
use alpha_exchange.Base.{
  ℕ, zero, suc, ◌-◌, ltb, if◌then◌else◌, Bool, true, false, List, [], ◌∷◌, ◌++◌, length, Option,
  none, some, String,
}
use alpha_exchange.Base.Dict.{Dict, insert, lookup}
use alpha_exchange.Leaderboard.Scorer.{Entry}

pub record Predictor : Type 0 where
  pub history : Dict (List ℕ)
  pub max_len : ℕ

unfoldable pub new_predictor : Predictor
new_predictor = record { history = []; max_len = 60 }

-- `h[n:]`.
unfoldable pub drop : ℕ → List ℕ → List ℕ
drop zero h = h
drop (suc n) [] = []
drop (suc n) (x ∷ h) = drop n h

unfoldable pub or_nil : Option (List ℕ) → List ℕ
or_nil none = []
or_nil (some h) = h

-- The scores of a contestant; a missing key is an empty slice.
unfoldable pub history_of : String → Predictor → List ℕ
unfolding or_nil
history_of id p = or_nil (lookup id p.history)

unfoldable pub trim : ℕ → List ℕ → List ℕ
unfolding drop
trim max_len h = if ltb max_len (length h) then drop (length h - max_len) h else h

unfoldable pub record_score : String → ℕ → Predictor → Predictor
unfolding history_of trim insert
record_score id score p = record p {
  history = insert id (trim p.max_len (history_of id p ++ (score ∷ []))) p.history;
}

unfoldable pub record_entries : {W : Type 0} → List (Entry W) → Predictor → Predictor
unfolding record_score
record_entries [] p = p
record_entries (e ∷ es) p = record_entries es (record_score e.contestant_id e.score p)
