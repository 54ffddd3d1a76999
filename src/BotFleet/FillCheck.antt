-- ===== src/BotFleet/FillCheck.antt =====
-- services/bot-fleet/bots/shadow_book.go, ValidateFill: a bot's own look at an answer. The
-- numbers are as in BotFleet.ShadowBook, so that 1e-9 is 1 and 0.01 is 10000000. The reasons, texts
-- for people, are an enumeration.
pub mod Passing
use alpha_exchange.Base.{
  ℕ, ◌+◌, ◌-◌, ltb, leb, if◌then◌else◌, Bool, true, false, not, ◌&&◌, ◌||◌, String,
}
use alpha_exchange.Base.Int.{ℤ, pos, negsuc, is_negative, below}
use alpha_exchange.BotFleet.ShadowBook.{
  Status, filled, partial, pending, cancelled, rejected, ExpectedFill,
}

-- The status of the answer: one of the book's or another string.
pub data Answered : Type 0 where
  known : Status → Answered
  unknown : String → Answered

pub data Reason : Type 0 where
  status_mismatch overfill negative_quantity wrong_price : Reason

pub data Outcome : Type 0 where
  passes : Outcome
  fails : Reason → Outcome

unfoldable pub same : Status → Status → Bool
same filled filled = true
same partial partial = true
same pending pending = true
same cancelled cancelled = true
same rejected rejected = true
same _ _ = false

unfoldable pub answers : Answered → Status → Bool
unfolding same
answers (known t) s = same t s
answers (unknown text) s = false

-- `diff > 0.01 || diff < -0.01`.
unfoldable pub is_off : ℕ → ℤ → Bool
is_off expected (pos actual) =
    ltb 10_000_000 (expected - actual) || ltb 10_000_000 (actual - expected)
is_off expected (negsuc n) = leb 10_000_000 (expected + n)

-- The tests on the amounts.
unfoldable pub validate_amounts : ExpectedFill → ℤ → ℤ → Outcome
unfolding same is_off
validate_amounts expected price qty =
    if below (expected.quantity + 1) qty && not (same expected.status pending)
    then fails overfill
    else if is_negative qty
    then fails negative_quantity
    else if same expected.status filled
        && ltb 0 expected.price
        && below 0 price
        && is_off expected.price price
    then fails wrong_price
    else passes

unfoldable pub validate_fill : ExpectedFill → Answered → ℤ → ℤ → Outcome
unfolding answers same validate_amounts
validate_fill expected status price qty =
    let amounts = validate_amounts expected price qty in
    if answers status expected.status
    then amounts
    else if same expected.status filled && answers status partial
    then amounts
    else fails status_mismatch
