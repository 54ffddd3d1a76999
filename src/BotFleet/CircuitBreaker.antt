-- ===== src/BotFleet/CircuitBreaker.antt =====
-- services/bot-fleet/client/circuit_breaker.go. The fields that NewCircuitBreaker sets once are
-- constants; the clock, in nanoseconds, is an argument, and `time.Since` stops at 0 since the
-- clock is monotonic. The rate, a quotient of floats above 0.5, is a comparison of integers.
pub mod Trips
pub mod Cooldown
use alpha_exchange.Base.{ℕ, ◌+◌, ◌-◌, ◌*◌, ltb, leb, if◌then◌else◌, Bool, true, false, not, ◌&&◌}

-- The type `State`.
pub data State : Type 0 where
  closed_state open_state half_open_state : State

pub record CircuitBreaker : Type 0 where
  pub state : State
  pub window_start : ℕ
  pub total : ℕ
  pub failures : ℕ
  pub opened_at : ℕ
  pub half_open_ok : ℕ

abbrev pub min_traffic : ℕ
min_traffic = 20

abbrev pub open_cooldown : ℕ
open_cooldown = 5_000_000_000

abbrev pub half_open_needed : ℕ
half_open_needed = 3

abbrev pub window_length : ℕ
window_length = 10_000_000_000

unfoldable pub new_circuit_breaker : ℕ → CircuitBreaker
new_circuit_breaker now = record {
  state = closed_state;
  window_start = now;
  total = 0;
  failures = 0;
  opened_at = 0;
  half_open_ok = 0;
}

-- The switch of `Allow`.
unfoldable pub allow_in : State → ℕ → CircuitBreaker → CircuitBreaker × Bool
allow_in closed_state now cb = (cb, true)
allow_in half_open_state now cb = (cb, true)
allow_in open_state now cb =
    if leb open_cooldown (now - cb.opened_at)
    then (record cb { state = half_open_state; half_open_ok = 0 }, true)
    else (cb, false)

unfoldable pub allow : ℕ → CircuitBreaker → CircuitBreaker × Bool
unfolding allow_in
allow now cb = allow_in cb.state now cb

unfoldable pub trip : ℕ → CircuitBreaker → CircuitBreaker
trip now cb = record cb { state = open_state; opened_at = now }

-- The reset of the window, at the start of the method `Record`.
unfoldable pub roll_window : ℕ → CircuitBreaker → CircuitBreaker
roll_window now cb =
    if ltb window_length (now - cb.window_start)
    then record cb { window_start = now; total = 0; failures = 0 }
    else cb

unfoldable pub record_probe : ℕ → Bool → CircuitBreaker → CircuitBreaker
unfolding trip
record_probe now false cb = trip now cb
record_probe now true cb =
    if leb half_open_needed (cb.half_open_ok + 1)
    then record cb {
      state = closed_state;
      total = 0;
      failures = 0;
      half_open_ok = cb.half_open_ok + 1;
    }
    else record cb { half_open_ok = cb.half_open_ok + 1 }

unfoldable pub too_many : ℕ → ℕ → Bool
too_many failures total = leb min_traffic total && ltb total (2 * failures)

unfoldable pub record_traffic : ℕ → Bool → CircuitBreaker → CircuitBreaker
unfolding trip too_many
record_traffic now success cb =
    let failures = if success then cb.failures else cb.failures + 1 in
    let counted : CircuitBreaker = record cb { total = cb.total + 1; failures = failures } in
    if too_many failures (cb.total + 1) then trip now counted else counted

-- The switch of the method `Record`.
unfoldable pub record_in : State → ℕ → Bool → CircuitBreaker → CircuitBreaker
unfolding record_probe record_traffic
record_in half_open_state now success cb = record_probe now success cb
record_in closed_state now success cb = record_traffic now success cb
record_in open_state now success cb = record_traffic now success cb

-- The method `Record`.
unfoldable pub record_outcome : ℕ → Bool → CircuitBreaker → CircuitBreaker
unfolding roll_window record_in
record_outcome now success cb =
    let rolled = roll_window now cb in record_in rolled.state now success rolled
