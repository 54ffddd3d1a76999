-- ===== src/Tests/Services.antt =====
-- The circuit breaker, the hub and the archive tests at concrete inputs.
use alpha_exchange.Base.{◌≡◌, refl, [], ◌∷◌, none, some, false, arith}
use alpha_exchange.BotFleet.ShadowBook.{Status, ExpectedFill}
use alpha_exchange.BotFleet.CircuitBreaker.{CircuitBreaker, open_state}
use alpha_exchange.BotFleet.CircuitBreaker.Cooldown.{
  ask, outcome, let_through, Within, time_of, let_through-open,
}
use alpha_exchange.Leaderboard.Hub.{Hub, new_hub, handle, registers, broadcasts, count}
use alpha_exchange.Leaderboard.Hub.Channels.{
  IsFresh, served, closings, handle-IsSound, handle-count,
}
use alpha_exchange.Security.{
  File, check_zip_bomb, check_sizes, is_unsafe, contains_dots, has_slash, add_int64, exceeds,
  ratio_exceeds,
}
use alpha_exchange.Security.Bombs.{
  IsPlain, IsWithin, check_zip_bomb-IsWithin, check_zip_bomb-wrapped,
}

abbrev tripped : CircuitBreaker
tripped = record {
  state = open_state;
  window_start = 0;
  total = 20;
  failures = 11;
  opened_at = 1_000;
  half_open_ok = 0;
}

abbrev expected_ten : ExpectedFill
expected_ten = record { status = Status.filled; price = 10; quantity = 2; remaining = 0 }

let_through-open_example :
    let_through (ask 1_000 ∷ outcome 2_000 false ∷ ask 4_000_000_000 ∷ []) tripped ≡ 0
unfolding Within time_of
let_through-open_example =
    let_through-open (ask 1_000 ∷ outcome 2_000 false ∷ ask 4_000_000_000 ∷ []) 1_000 5_000_001_000
      tripped (record { is_open = refl; begun = omega arith; lasts = omega arith })
      (omega arith, omega arith, (omega arith, omega arith, (omega arith, omega arith, tt)))

abbrev small_hub : Hub
small_hub = record { clients = []; closed = []; max_clients = 1; last = some "m" }

handle-IsSound_example :
    alpha_exchange.Leaderboard.Hub.Channels.IsSound (handle (registers "x") small_hub)
unfolding IsFresh served closings
handle-IsSound_example =
    handle-IsSound (registers "x") small_hub refl (record { once = λ id. omega arith })

abbrev entry : File
entry = record { name = 97 ∷ []; uncompressed_size64 = 1_000; compressed_size64 = 500 }

check_zip_bomb-IsWithin_example : IsWithin (entry ∷ [])
unfolding check_zip_bomb check_sizes is_unsafe contains_dots has_slash add_int64 exceeds
    ratio_exceeds IsPlain
check_zip_bomb-IsWithin_example = check_zip_bomb-IsWithin (entry ∷ []) (omega arith, tt) refl

abbrev huge : File
huge = record {
  name = 97 ∷ [];
  uncompressed_size64 = 9_223_372_036_854_775_808;
  compressed_size64 = 500;
}

check_zip_bomb-wrapped_example : check_zip_bomb (huge ∷ []) ≡ none
unfolding is_unsafe contains_dots has_slash
check_zip_bomb-wrapped_example = check_zip_bomb-wrapped huge refl (omega arith) (omega arith)
