-- ===== src/BuildWorker/Pipeline/Probing.antt =====
-- The health probe: its fuel is enough, and what its answers mean.
use alpha_exchange.Base.{
  ◌≢◌, ℕ, zero, suc, ◌+◌, ◌*◌, ◌≤◌, ◌<◌, ◌≡◌, true, none, some, arith, Bool-cases, inl, inr, ◌⊎◌,
}
use alpha_exchange.BuildWorker.Pipeline.{Environment, probe, probe_fuel, wait_healthy}

-- Each round that goes on waits for two seconds.
unfoldable pub Waits : Environment → Type 0
Waits env = (round : ℕ) → env.clock round + 2_000_000_000 ≤ env.clock (suc round)

probe-ne-none :
    (env : Environment) (deadline round fuel : ℕ)
    → Waits env
    → deadline ≤ env.clock round + fuel * 2_000_000_000
    → probe env deadline round (suc fuel) ≢ none
unfolding probe Waits
probe-ne-none env deadline round zero waits near = ground arith
probe-ne-none env deadline round (suc fuel) waits near =
    ground (arith, waits round, probe-ne-none env deadline (suc round) fuel waits)

-- A round whose request is answered by 200, before the deadline.
pub record IsUp (env : Environment) (deadline : ℕ) : Type 0 where
  pub round : ℕ
  pub answered : env.healthy round ≡ true
  pub in_time : env.clock round < deadline

probe-step :
    (env : Environment) (deadline round fuel : ℕ)
    → probe env deadline round (suc fuel) ≡ some true
    → (env.healthy round ≡ true) × (env.clock round < deadline)
      ⊎ (probe env deadline (suc round) fuel ≡ some true)
unfolding probe
probe-step env deadline round fuel e = elim (Bool-cases (env.healthy round)) [
  | inl up ↦ inl (up, ground (arith, e))
  | inr down ↦ inr (ground (arith, e, down))
]

probe-IsUp :
    (env : Environment) (deadline round fuel : ℕ)
    → probe env deadline round fuel ≡ some true
    → IsUp env deadline
unfolding probe
probe-IsUp env deadline round zero e = absurd (ground (arith, e))
probe-IsUp env deadline round (suc fuel) e = elim (probe-step env deadline round fuel e) [
  | inl (up, soon) ↦ record { round = round; answered = up; in_time = soon }
  | inr later ↦ probe-IsUp env deadline (suc round) fuel later
]

wait_healthy-probe :
    (env : Environment) (port : ℕ)
    → wait_healthy env port ≡ true
    → probe env (env.clock 0 + 30_000_000_000) 0 16 ≡ some true
unfolding wait_healthy
wait_healthy-probe env port e = ground (arith, e)

-- Where each round that goes on waits for two seconds: the probe ends within its fuel, after
-- sixteen rounds at the latest; and it answers that the sandbox is healthy only where a request
-- was answered by 200 whose round began within thirty seconds.
pub wait_healthy_ends :
    (env : Environment) (port : ℕ)
    → Waits env
    → (probe env (env.clock 0 + 30_000_000_000) 0 probe_fuel ≢ none)
      × (wait_healthy env port ≡ true → IsUp env (env.clock 0 + 30_000_000_000))
wait_healthy_ends env port waits = (
  probe-ne-none env (env.clock 0 + 30_000_000_000) 0 15 waits (omega arith),
  λ e. probe-IsUp env (env.clock 0 + 30_000_000_000) 0 16 (wait_healthy-probe env port e),
)
