-- ===== src/Ingester/Validator.antt =====
-- services/telemetry-ingester/shadowbook/correctness_validator.go and model/types of its events.
-- Prices and quantities stand in billionths, so that the tolerance 1e-9 is 1 and 0.01 is
-- 10000000. The reason of a verdict, a text for people, is an enumeration of the texts.
pub mod Verdicts
pub mod Replay
use alpha_exchange.Base.{
  ℕ, ◌+◌, ◌-◌, ltb, leb, if◌then◌else◌, Bool, true, false, not, ◌&&◌, ◌||◌, List, [], ◌∷◌, Option,
  none, some, String, str_eq, sort_stable,
}
use alpha_exchange.Base.Dict.{Dict, insert, lookup}
use alpha_exchange.Base.Int.{ℤ, pos, negsuc, is_negative, to_nat, below}
use alpha_exchange.Ingester.Book.{
  OrderType, Order, OrderBook, ExpectedFill, Status, filled, partial, pending, rejected, cancelled,
  not_found, new_order_book, process_order,
}

-- The status that a contestant's server reported: the empty string, one of the book's, or
-- another; `ALREADY_FILLED` is one more that the code names.
pub data Reported : Type 0 where
  missing already_filled : Reported
  known : Status → Reported
  unknown : String → Reported

pub record Fill : Type 0 where
  pub status : Reported
  pub price : ℤ
  pub quantity : ℤ

-- The fields that the validator and the aggregator read.
pub record TelemetryEvent : Type 0 where
  pub contestant_id : String
  pub test_id : String
  pub order_id : String
  pub order_type : OrderType
  pub price : ℕ
  pub quantity : ℕ
  pub actual_fill : Fill
  pub sequence_number : ℕ
  pub latency_us : ℤ
  pub timed_out : Bool

pub data Reason : Type 0 where
  missing_fill cancel_mismatch not_found_mismatch market_mismatch status_mismatch : Reason
  negative_quantity overfill wrong_price : Reason

-- `ValidationResult`: correct, or a reason.
pub data Verdict : Type 0 where
  correct : Verdict
  wrong : Reason → Verdict

abbrev pub is_correct : Verdict → Bool
is_correct correct = true
is_correct (wrong reason) = false

-- Equality of two statuses, as strings.
unfoldable pub same : Status → Status → Bool
same filled filled = true
same partial partial = true
same pending pending = true
same rejected rejected = true
same cancelled cancelled = true
same not_found not_found = true
same _ _ = false

-- The string equals the status.
unfoldable pub reports : Reported → Status → Bool
unfolding same
reports missing s = false
reports already_filled s = false
reports (known t) s = same t s
reports (unknown text) s = false

abbrev pub is_already_filled : Reported → Bool
is_already_filled missing = false
is_already_filled already_filled = true
is_already_filled (known s) = false
is_already_filled (unknown text) = false

-- The difference of two prices lies beyond 0.01 on either side.
unfoldable pub far_apart : ℕ → ℤ → Bool
far_apart expected (pos actual) =
    ltb 10_000_000 (expected - actual) || ltb 10_000_000 (actual - expected)
far_apart expected (negsuc n) = leb 10_000_000 (expected + n)

-- What follows the tests on the status.
unfoldable pub check_amounts : ExpectedFill → Fill → Verdict
unfolding same far_apart
check_amounts expected actual =
    if is_negative actual.quantity
    then wrong negative_quantity
    else if same expected.status filled && below (expected.filled_qty + 1) actual.quantity
    then wrong overfill
    else if same expected.status filled
        && ltb 0 expected.filled_price
        && below 0 actual.price
        && far_apart expected.filled_price actual.price
    then wrong wrong_price
    else correct

-- The branch of a status other than the expected one.
unfoldable pub check_mismatch : ExpectedFill → Fill → Verdict
unfolding same reports check_amounts
check_mismatch expected actual =
    let a = actual.status in
    if same expected.status filled && reports a partial
    then check_amounts expected actual
    else if same expected.status pending && (reports a filled || reports a partial)
    then correct
    else if same expected.status filled && reports a pending
    then correct
    else wrong status_mismatch

-- `compare` below the test for an empty status.
unfoldable pub compare_present : ExpectedFill → Fill → Verdict
unfolding same reports check_amounts check_mismatch
compare_present expected actual =
    let a = actual.status in
    let gone = reports a cancelled || reports a not_found || is_already_filled a in
    if same expected.status cancelled
    then (if gone then correct else wrong cancel_mismatch)
    else if same expected.status not_found
    then (if gone then correct else wrong not_found_mismatch)
    else if same expected.status rejected
    then (if reports a rejected || reports a partial || reports a filled
        then correct
        else wrong market_mismatch)
    else if not (reports a expected.status)
    then check_mismatch expected actual
    else check_amounts expected actual

unfoldable pub compare : ExpectedFill → Fill → Verdict
unfolding compare_present
compare expected actual = elim actual.status [
  | missing ↦ wrong missing_fill
  | already_filled ↦ compare_present expected actual
  | known s ↦ compare_present expected actual
  | unknown text ↦ compare_present expected actual
]

pub record CorrectnessValidator : Type 0 where
  pub books : Dict OrderBook
  pub last_test_id : Dict String

unfoldable pub new_validator : CorrectnessValidator
new_validator = record { books = []; last_test_id = [] }

-- The choice of the book, from what the maps hold for the contestant: a new one for a new
-- contestant or a new test.
unfoldable pub choose_book : Option OrderBook → Option String → String → OrderBook
unfolding new_order_book
choose_book none seen test_id = new_order_book
choose_book (some book) none test_id = book
choose_book (some book) (some prev) test_id = if str_eq prev test_id then book else new_order_book

unfoldable pub book_for : CorrectnessValidator → TelemetryEvent → OrderBook
unfolding choose_book
book_for v e =
    choose_book (lookup e.contestant_id v.books) (lookup e.contestant_id v.last_test_id) e.test_id

unfoldable pub order_of : TelemetryEvent → Order
order_of e = record {
  id = e.order_id;
  contestant_id = e.contestant_id;
  order_type = e.order_type;
  price = e.price;
  quantity = e.quantity;
  remaining_qty = 0;
  submitted_at = e.sequence_number;
}

-- The body of the loop. The book is shared by pointer, so the processed book is the stored one.
unfoldable pub validate_event :
    TelemetryEvent → CorrectnessValidator → CorrectnessValidator × Verdict
unfolding insert book_for order_of process_order compare
validate_event e v =
    let (book, expected) = process_order (book_for v e) (order_of e) in
    (
      record {
        books = insert e.contestant_id book v.books;
        last_test_id = insert e.contestant_id e.test_id v.last_test_id;
      },
      compare expected e.actual_fill,
    )

unfoldable pub validate_all :
    List TelemetryEvent → CorrectnessValidator → CorrectnessValidator × List Verdict
unfolding validate_event
validate_all [] v = (v, [])
validate_all (e ∷ es) v =
    let (v1, verdict) = validate_event e v in
    let (v2, verdicts) = validate_all es v1 in (v2, verdict ∷ verdicts)

unfoldable pub earlier : TelemetryEvent → TelemetryEvent → Bool
earlier a b = ltb a.sequence_number b.sequence_number

unfoldable pub validate_batch :
    List TelemetryEvent → CorrectnessValidator → CorrectnessValidator × List Verdict
unfolding earlier sort_stable validate_all
validate_batch events v = validate_all (sort_stable earlier events) v
