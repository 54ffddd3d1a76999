-- ===== src/BotFleet/Runner.antt =====
-- services/bot-fleet/test_runner.go: what a runner is made of, and the personas of its bots over
-- the float arithmetic `f`. The bots, the reset of the order book and the timer are left out.
pub mod Shares
use alpha_exchange.Base.{
  ℕ, zero, suc, ◌-◌, if◌then◌else◌, Bool, true, false, List, [], ◌∷◌, ◌++◌, length, Option, none,
  some, String, str_eq,
}
use alpha_exchange.Base.Float.{Float}

-- events.go; the address of the target is left out.
pub record StartTestEvent : Type 0 where
  pub test_id : String
  pub contestant_id : String
  pub bot_count : ℕ
  pub bot_personas : List String
  pub duration_seconds : ℕ

pub record TestRunner : Type 0 where
  pub test_id : String
  pub contestant_id : String
  pub bot_count : ℕ
  pub personas : List String
  pub duration : ℕ

unfoldable pub default_personas : List String
default_personas = "market_maker" ∷ "aggressive_taker" ∷ "spammer" ∷ "whale" ∷ []

unfoldable pub or_defaults : List String → List String
unfolding default_personas
or_defaults [] = default_personas
or_defaults (p ∷ ps) = p ∷ ps

unfoldable pub new_test_runner : StartTestEvent → TestRunner
unfolding or_defaults
new_test_runner ev = record {
  test_id = ev.test_id;
  contestant_id = ev.contestant_id;
  bot_count = ev.bot_count;
  personas = or_defaults ev.bot_personas;
  duration = ev.duration_seconds;
}

-- `n` times the same persona.
unfoldable pub repeat : ℕ → String → List String
repeat zero p = []
repeat (suc n) p = p ∷ repeat n p

-- `out[:n]`, of a slice that is not shorter.
unfoldable pub take : ℕ → List String → List String
take zero ps = []
take (suc n) [] = []
take (suc n) (p ∷ ps) = p ∷ take n ps

module _ {W : Type 0} (f : Float W) where
  -- The table of the ratios, and the even share of a persona that it lacks.
  unfoldable pub persona_ratio : ℕ → String → W
  persona_ratio count p =
      if str_eq p "market_maker"
      then f.two_fifths
      else if str_eq p "aggressive_taker"
      then f.three_tenths
      else if str_eq p "spammer"
      then f.fifth
      else if str_eq p "whale"
      then f.tenth
      else f.div (f.of_ℕ 1) (f.of_ℕ count)

  unfoldable pub share_out : ℕ → ℕ → List String → List String
  unfolding persona_ratio repeat
  share_out bot_count count [] = []
  share_out bot_count count (p ∷ ps) =
      repeat (f.trunc (f.mul (f.of_ℕ bot_count) (persona_ratio count p))) p
      ++ share_out bot_count count ps

  -- The loop that fills up with the first persona, where one is missing.
  unfoldable pub fill_up : ℕ → List String → List String → Option (List String)
  unfolding repeat
  fill_up zero personas out = some out
  fill_up (suc missing) [] out = none
  fill_up (suc missing) (p ∷ ps) out = some (out ++ repeat (suc missing) p)

  unfoldable pub cut : ℕ → Option (List String) → Option (List String)
  unfolding take
  cut n none = none
  cut n (some out) = some (take n out)

  -- `none` is the panic on an empty list of personas.
  unfoldable pub assign_personas : TestRunner → Option (List String)
  unfolding share_out fill_up cut
  assign_personas r =
      let out = share_out r.bot_count (length r.personas) r.personas in
      cut r.bot_count (fill_up (r.bot_count - length out) r.personas out)
