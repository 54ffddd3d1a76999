-- ===== src/BotFleet/CircuitBreaker/Cooldown.antt =====
-- What an open breaker refuses.
use alpha_exchange.Base.{
  ℕ, ◌+◌, ◌-◌, ◌≤◌, ◌<◌, ◌≡◌, refl, sym, ◌∙◌, subst, leb, if◌then◌else◌, Bool, false, List, [], ◌∷◌,
  arith, Bool-cases, inl, inr,
}
use alpha_exchange.BotFleet.CircuitBreaker.{
  open_state, CircuitBreaker, allow_in, allow, trip, record_in, roll_window, too_many,
  record_traffic, record_outcome,
}

-- What a bot does with the breaker: it asks, or it reports.
pub data Use : Type 0 where
  ask : ℕ → Use
  outcome : ℕ → Bool → Use

unfoldable pub time_of : Use → ℕ
time_of (ask now) = now
time_of (outcome now success) = now

-- The requests that were let through.
pub let_through : List Use → CircuitBreaker → ℕ
let_through [] cb = 0
let_through (ask now ∷ us) cb =
    let n = let_through us (allow now cb).0 in if (allow now cb).1 then n + 1 else n
let_through (outcome now success ∷ us) cb = let_through us (record_outcome now success cb)

-- The times lie from the first on in order, and before the second.
unfoldable pub Within : ℕ → ℕ → List Use → Type 0
Within from until [] = Unit
Within from until (u ∷ us) = (from ≤ time_of u) × (time_of u < until) × Within (time_of u) until us

-- Open, for at least until a time.
pub record IsOpenFrom (from until : ℕ) (cb : CircuitBreaker) : Type 0 where
  pub is_open : cb.state ≡ open_state
  pub begun : cb.opened_at ≤ from
  pub lasts : until ≤ cb.opened_at + 5_000_000_000

not-due : (now opened : ℕ) → now < opened + 5_000_000_000 → leb 5_000_000_000 (now - opened) ≡ false
not-due now opened lt = elim (Bool-cases (leb 5_000_000_000 (now - opened))) [
  | inl e ↦ absurd (ground (arith, e, lt))
  | inr e ↦ e
]

allow_in-refuses :
    (now : ℕ) (cb : CircuitBreaker)
    → now < cb.opened_at + 5_000_000_000
    → allow_in open_state now cb ≡ (cb, false)
unfolding allow_in
allow_in-refuses now cb lt = rw (not-due now cb.opened_at lt) refl

allow-refuses :
    (now : ℕ) (cb : CircuitBreaker)
    → cb.state ≡ open_state
    → now < cb.opened_at + 5_000_000_000
    → allow now cb ≡ (cb, false)
unfolding allow
allow-refuses now cb e lt =
    subst (λ s. allow_in s now cb ≡ (cb, false)) (sym e) (allow_in-refuses now cb lt)

roll_window-state : (now : ℕ) (cb : CircuitBreaker) → (roll_window now cb).state ≡ cb.state
unfolding roll_window
roll_window-state now cb = ground arith

roll_window-opened_at :
    (now : ℕ) (cb : CircuitBreaker) → (roll_window now cb).opened_at ≡ cb.opened_at
unfolding roll_window
roll_window-opened_at now cb = ground arith

record_traffic-IsOpenFrom :
    (now from until : ℕ) (success : Bool) (cb : CircuitBreaker)
    → from ≤ now
    → IsOpenFrom from until cb
    → IsOpenFrom now until (record_traffic now success cb)
unfolding record_traffic trip
record_traffic-IsOpenFrom now from until success cb le k =
    let bad = if success then cb.failures else cb.failures + 1 in
    elim (Bool-cases (too_many bad (cb.total + 1))) [
      | inl e ↦ rw (e) (record {
        is_open = refl;
        begun = omega arith;
        lasts = omega (arith, k.begun, k.lasts, le);
      })
      | inr e ↦
          rw (e)
            (record { is_open = k.is_open; begun = omega (arith, k.begun, le); lasts = k.lasts })
    ]

record_outcome-IsOpenFrom :
    (now from until : ℕ) (success : Bool) (cb : CircuitBreaker)
    → from ≤ now
    → IsOpenFrom from until cb
    → IsOpenFrom now until (record_outcome now success cb)
unfolding record_outcome record_in
record_outcome-IsOpenFrom now from until success cb le k =
    subst (λ s. IsOpenFrom now until (record_in s now success (roll_window now cb)))
      (sym (roll_window-state now cb ∙ k.is_open))
      (record_traffic-IsOpenFrom now from until success (roll_window now cb) le (record {
        is_open = roll_window-state now cb ∙ k.is_open;
        begun = omega (arith, roll_window-opened_at now cb, k.begun);
        lasts = omega (arith, roll_window-opened_at now cb, k.lasts);
      }))

-- For a breaker that is open from a time on: of the uses at times in order, all of them less
-- than five seconds after the opening, no request is let through, whatever outcomes of earlier
-- requests come in between.
pub let_through-open :
    (us : List Use) (from until : ℕ) (cb : CircuitBreaker)
    → IsOpenFrom from until cb
    → Within from until us
    → let_through us cb ≡ 0
unfolding let_through Within time_of
let_through-open [] from until cb k w = refl
let_through-open (ask now ∷ us) from until cb k (ge, lt, w) =
    rw (allow-refuses now cb k.is_open (omega (arith, k.lasts, lt))) (
      let_through-open us now until cb
        (record { is_open = k.is_open; begun = omega (arith, k.begun, ge); lasts = k.lasts }) w)
let_through-open (outcome now success ∷ us) from until cb k (ge, lt, w) =
    let_through-open us now until (record_outcome now success cb)
      (record_outcome-IsOpenFrom now from until success cb ge k) w
