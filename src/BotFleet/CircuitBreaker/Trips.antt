-- ===== src/BotFleet/CircuitBreaker/Trips.antt =====
-- When the circuit breaker is open, and when it closes again.
use alpha_exchange.Base.{
  ℕ, ◌+◌, ◌-◌, ◌≤◌, ◌<◌, ◌≡◌, refl, ltb, leb, if◌then◌else◌, Bool, true, false, arith, Bool-cases,
  inl, inr,
}
use alpha_exchange.BotFleet.CircuitBreaker.{
  State, closed_state, open_state, half_open_state, CircuitBreaker, new_circuit_breaker, allow_in,
  allow, trip, record_in, roll_window, record_probe, too_many, record_traffic, record_outcome,
}

-- A closed breaker has not seen too many failures, a half-open one not yet three successes.
pub record IsSound (cb : CircuitBreaker) : Type 0 where
  pub counted : cb.failures ≤ cb.total
  pub calm : cb.state ≡ closed_state → too_many cb.failures cb.total ≡ false
  pub probing : cb.state ≡ half_open_state → cb.half_open_ok < 3

-- A new breaker is sound.
pub new_circuit_breaker-IsSound : (now : ℕ) → IsSound (new_circuit_breaker now)
unfolding new_circuit_breaker too_many
new_circuit_breaker-IsSound now = record {
  counted = omega arith;
  calm = λ e. refl;
  probing = λ e. ground arith;
}

allow_in-IsSound :
    (s : State) (now : ℕ) (cb : CircuitBreaker) → IsSound cb → IsSound (allow_in s now cb).0
unfolding allow_in
allow_in-IsSound closed_state now cb k = k
allow_in-IsSound half_open_state now cb k = k
allow_in-IsSound open_state now cb k = elim (Bool-cases (leb 5_000_000_000 (now - cb.opened_at))) [
  | inl e ↦
      rw (e)
        (record { counted = k.counted; calm = λ q. ground (arith, q); probing = λ q. ground arith })
  | inr e ↦ rw (e) k
]

too_many-zero : too_many 0 0 ≡ false
unfolding too_many
too_many-zero = refl

roll_window-IsSound : (now : ℕ) (cb : CircuitBreaker) → IsSound cb → IsSound (roll_window now cb)
unfolding roll_window
roll_window-IsSound now cb k = elim (Bool-cases (ltb 10_000_000_000 (now - cb.window_start))) [
  | inl e ↦
      rw (e) (record { counted = omega arith; calm = λ q. too_many-zero; probing = k.probing })
  | inr e ↦ rw (e) k
]

record_probe-IsSound :
    (now : ℕ) (success : Bool) (cb : CircuitBreaker)
    → cb.state ≡ half_open_state
    → IsSound cb
    → IsSound (record_probe now success cb)
unfolding record_probe trip
record_probe-IsSound now false cb e k = record {
  counted = k.counted;
  calm = λ q. ground (arith, q);
  probing = λ q. ground (arith, q);
}
record_probe-IsSound now true cb e k = elim (Bool-cases (leb 3 (cb.half_open_ok + 1))) [
  | inl q ↦ rw (q) (record {
    counted = omega arith;
    calm = λ r. too_many-zero;
    probing = λ r. ground (arith, r);
  })
  | inr q ↦ rw (q) (record {
    counted = k.counted;
    calm = λ r. ground (arith, e, r);
    probing = λ r. ground (arith, q);
  })
]

record_traffic-IsSound :
    (now : ℕ) (success : Bool) (cb : CircuitBreaker)
    → (cb.state ≡ half_open_state → ⊥)
    → IsSound cb
    → IsSound (record_traffic now success cb)
unfolding record_traffic trip
record_traffic-IsSound now success cb ne k =
    let counted : (if success then cb.failures else cb.failures + 1) ≤ cb.total + 1 =
      ground (arith, k.counted) in
    elim (Bool-cases (too_many (if success then cb.failures else cb.failures + 1) (cb.total + 1))) [
      | inl e ↦ rw (e) (record {
        counted = counted;
        calm = λ q. ground (arith, q);
        probing = λ q. ground (arith, q);
      })
      | inr e ↦ rw (e) (record { counted = counted; calm = λ q. e; probing = λ q. absurd (ne q) })
    ]

record_in-IsSound :
    (s : State) (now : ℕ) (success : Bool) (cb : CircuitBreaker)
    → cb.state ≡ s
    → IsSound cb
    → IsSound (record_in s now success cb)
unfolding record_in
record_in-IsSound half_open_state now success cb e k = record_probe-IsSound now success cb e k
record_in-IsSound closed_state now success cb e k =
    record_traffic-IsSound now success cb (λ q. ground (arith, e, q)) k
record_in-IsSound open_state now success cb e k =
    record_traffic-IsSound now success cb (λ q. ground (arith, e, q)) k

-- `Allow` and `Record`, at any time and with any outcome, keep a breaker sound.
pub step-IsSound :
    (now : ℕ) (success : Bool) (cb : CircuitBreaker)
    → IsSound cb
    → IsSound (allow now cb).0 × IsSound (record_outcome now success cb)
unfolding allow record_outcome
step-IsSound now success cb k = (
  allow_in-IsSound cb.state now cb k,
  record_in-IsSound _ now success (roll_window now cb) refl (roll_window-IsSound now cb k),
)
