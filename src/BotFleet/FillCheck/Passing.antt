-- ===== src/BotFleet/FillCheck/Passing.antt =====
-- What an answer that passes keeps to.
use alpha_exchange.Base.{◌+◌, ◌≡◌, ltb, true, false, not, ◌&&◌, ◌⊎◌, inl, inr, arith, Bool-cases}
use alpha_exchange.Base.Int.{ℤ, is_negative, below}
use alpha_exchange.BotFleet.ShadowBook.{filled, partial, pending, ExpectedFill}
use alpha_exchange.BotFleet.FillCheck.{
  Answered, passes, same, answers, is_off, validate_amounts, validate_fill,
}

-- The amounts of an answer that passes.
pub record IsWithin (e : ExpectedFill) (price qty : ℤ) : Type 0 where
  pub no_overfill : (below (e.quantity + 1) qty && not (same e.status pending)) ≡ false
  pub not_negative : is_negative qty ≡ false
  pub near_price :
      (same e.status filled && ltb 0 e.price && below 0 price && is_off e.price price) ≡ false

validate_amounts-IsWithin :
    (e : ExpectedFill) (price qty : ℤ)
    → validate_amounts e price qty ≡ passes
    → IsWithin e price qty
unfolding validate_amounts
validate_amounts-IsWithin e price qty k = record {
  no_overfill = ground (arith, k);
  not_negative = ground (arith, k);
  near_price = ground (arith, k);
}

-- An answer that passes ValidateFill has the expected status, or PARTIAL for an expected
-- FILLED; its quantity is no overfill beyond 1e-9 unless PENDING was expected, and not negative;
-- and its price is within 0.01 of that of an expected FILLED where both are positive.
pub validate_fill-passes :
    (e : ExpectedFill) (a : Answered) (price qty : ℤ)
    → validate_fill e a price qty ≡ passes
    → ((answers a e.status ≡ true) ⊎ (same e.status filled ≡ true) × (answers a partial ≡ true))
      × IsWithin e price qty
unfolding validate_fill
validate_fill-passes e a price qty k = elim (Bool-cases (answers a e.status)) [
  | inl q ↦ (inl q, validate_amounts-IsWithin e price qty (ground (arith, k, q)))
  | inr q ↦ elim (Bool-cases (same e.status filled && answers a partial)) [
    | inl r ↦ (
      inr (ground (arith, r), ground (arith, r)),
      validate_amounts-IsWithin e price qty (ground (arith, k, q, r)),
    )
    | inr r ↦ absurd (ground (arith, k, q, r))
  ]
]
