-- ===== src/Ingester/Book.antt =====
-- services/telemetry-ingester/shadowbook/order_book.go: the authoritative matching engine.
-- Prices and quantities are whole billionths, and sums are exact, as those of float64 are for
-- quantities that are multiples of 1/512 and together below 2 ^ 44 (Grid). On other quantities
-- float64 may round `filled` and `o.RemainingQty`, so that the code may leave a residue, and with it
-- another status, rest and resting order, where exact sums leave none. Prices are only compared and
-- copied. A `*Order` in a level and the one in the map are one object, but no operation reads an
-- order through the map, so of the map the key set is kept. The mutex makes each call atomic, so a
-- call is a function of the book.
pub mod Fill
pub mod Sweep
pub mod Depth
pub mod Place
pub mod Removal
pub mod Valid
pub mod Outcomes
pub mod Fills
pub mod Grid
pub mod Queue
use alpha_exchange.Base.{
  ℕ, ◌+◌, ◌-◌, ◌==◌, ltb, leb, if◌then◌else◌, is_empty, Bool, true, false, not, List, [], ◌∷◌, ◌++◌,
  Option, none, some, String, str_eq, has, delete, assign, sort_stable,
}

-- The strings of the `switch`; any other string reaches its default.
pub data OrderType : Type 0 where
  market_buy market_sell limit_buy limit_sell cancel_order : OrderType
  other_type : String → OrderType

-- `SubmittedAt` is an int64 sequence number, which the book stores and does not read.
pub record Order : Type 0 where
  pub id : String
  pub contestant_id : String
  pub order_type : OrderType
  pub price : ℕ
  pub quantity : ℕ
  pub remaining_qty : ℕ
  pub submitted_at : ℕ

pub data Status : Type 0 where
  filled partial pending rejected cancelled not_found : Status

pub record ExpectedFill : Type 0 where
  pub status : Status
  pub filled_price : ℕ
  pub filled_qty : ℕ
  pub remaining_qty : ℕ

-- `ExpectedFill{Status: s}`: the other fields are zero.
abbrev pub only : Status → ExpectedFill
only s = record { status = s; filled_price = 0; filled_qty = 0; remaining_qty = 0 }

pub record PriceLevel : Type 0 where
  pub price : ℕ
  pub orders : List Order

pub record OrderBook : Type 0 where
  pub bids : List PriceLevel
  pub asks : List PriceLevel
  pub keys : List String  -- of the map `orders`

unfoldable pub new_order_book : OrderBook
new_order_book = record { bids = []; asks = []; keys = [] }

unfoldable pub min_f : ℕ → ℕ → ℕ
min_f a b = if ltb a b then a else b

-- What the two loops of a match change beside the levels: `filled`, `lastPx`, `o.RemainingQty`
-- and the map.
pub record Taker : Type 0 where
  pub filled : ℕ
  pub last_px : ℕ
  pub remaining : ℕ
  pub keys : List String

abbrev pub start : ℕ → List String → Taker
start qty keys = record { filled = 0; last_px = 0; remaining = qty; keys = keys }

-- One trade with the first resting order of a level, without the deletion from the map.
unfoldable pub trade : ℕ → ℕ → Taker → Taker
trade px m t = record t { filled = t.filled + m; last_px = px; remaining = t.remaining - m }

-- The inner loop. Where the resting order keeps a quantity, `o.RemainingQty` is 0 and the loop
-- ends (`match_orders-stops`).
unfoldable pub match_orders : ℕ → List Order → Taker → List Order × Taker
unfolding trade min_f
match_orders px [] t = ([], t)
match_orders px (r ∷ rs) t =
    let m = min_f t.remaining r.remaining_qty in
    let t' = trade px m t in
    let rest = match_orders px rs (record t' { keys = delete r.id t.keys }) in
    if t.remaining == 0
    then (r ∷ rs, t)
    else if r.remaining_qty - m == 0
    then rest
    else (record r { remaining_qty = r.remaining_qty - m } ∷ rs, t')

-- The outer loop of `matchMarket`. A level that keeps orders ends it, since `o.RemainingQty` is 0.
unfoldable pub match_market_loop : List PriceLevel → Taker → List PriceLevel × Taker
match_market_loop [] t = ([], t)
match_market_loop (l ∷ ls) t =
    let (os, t') = match_orders l.price l.orders t in
    let rest = match_market_loop ls t' in
    if t.remaining == 0
    then (l ∷ ls, t)
    else if is_empty os
    then rest
    else (record l { orders = os } ∷ ls, t')

unfoldable pub crosses : Bool → ℕ → ℕ → Bool
crosses true limit px = leb px limit
crosses false limit px = leb limit px

-- The outer loop of `matchLimit`.
unfoldable pub match_limit_loop : Bool → ℕ → List PriceLevel → Taker → List PriceLevel × Taker
match_limit_loop is_buy limit [] t = ([], t)
match_limit_loop is_buy limit (l ∷ ls) t =
    let (os, t') = match_orders l.price l.orders t in
    let rest = match_limit_loop is_buy limit ls t' in
    if t.remaining == 0
    then (l ∷ ls, t)
    else if not (crosses is_buy limit l.price)
    then (l ∷ ls, t)
    else if is_empty os
    then rest
    else (record l { orders = os } ∷ ls, t')

-- The tail of both matches, with the status of an order that traded nothing.
unfoldable pub report : ExpectedFill → Taker → ExpectedFill
report nothing t =
    if t.filled == 0
    then nothing
    else if ltb 0 t.remaining
    then record {
      status = partial;
      filled_price = t.last_px;
      filled_qty = t.filled;
      remaining_qty = t.remaining;
    }
    else record {
      status = filled;
      filled_price = t.last_px;
      filled_qty = t.filled;
      remaining_qty = 0;
    }

abbrev pub pending_fill : ℕ → ExpectedFill
pending_fill qty = record (only pending) { remaining_qty = qty }

-- A match returns its fill, the levels and the taker as the loops leave them.
unfoldable pub match_market :
    Order → List PriceLevel → List String → ExpectedFill × List PriceLevel × Taker
match_market o levels keys =
    let (ls, t) = match_market_loop levels (start o.remaining_qty keys) in
    (report (only rejected) t, ls, t)

unfoldable pub match_limit :
    Order → List PriceLevel → List String → Bool → ExpectedFill × List PriceLevel × Taker
match_limit o levels keys is_buy =
    let (ls, t) = match_limit_loop is_buy o.price levels (start o.remaining_qty keys) in
    (report (pending_fill t.remaining) t, ls, t)

-- The loop of `insert`: `none` where no level has the price.
unfoldable pub append_at : Order → List PriceLevel → Option (List PriceLevel)
append_at o [] = none
append_at o (l ∷ ls) =
    if l.price == o.price
    then some (record l { orders = l.orders ++ o ∷ [] } ∷ ls)
    else elim (append_at o ls) [ none ↦ none | some ms ↦ some (l ∷ ms) ]

unfoldable pub level_less : Bool → PriceLevel → PriceLevel → Bool
level_less true l m = ltb l.price m.price
level_less false l m = ltb m.price l.price

-- The levels after `insert`, which also sets `b.orders[o.ID]`.
unfoldable pub insert : List PriceLevel → Order → Bool → List PriceLevel
insert levels o ascending = elim (append_at o levels) [
  | none ↦
      sort_stable (level_less ascending)
        (levels ++ record { price = o.price; orders = o ∷ [] } ∷ [])
  | some ls ↦ ls
]

-- The inner loop of `cancel`: `none` where the level has no such order.
unfoldable pub remove_order : String → List Order → Option (List Order)
remove_order order_id [] = none
remove_order order_id (o ∷ os) =
    if str_eq o.id order_id
    then some os
    else elim (remove_order order_id os) [ none ↦ none | some rs ↦ some (o ∷ rs) ]

unfoldable pub remove_level : String → List PriceLevel → Option (List PriceLevel)
remove_level order_id [] = none
remove_level order_id (l ∷ ls) = elim (remove_order order_id l.orders) [
  | some os ↦ some (record l { orders = os } ∷ ls)
  | none ↦ elim (remove_level order_id ls) [ none ↦ none | some ms ↦ some (l ∷ ms) ]
]

-- The first side that has the order loses it; `true` is returned also where neither has.
unfoldable pub cancel : OrderBook → String → OrderBook × Bool
cancel b order_id =
    if has order_id b.keys
    then (
      elim (remove_level order_id b.bids) [
        | some ls ↦ record b { bids = ls; keys = delete order_id b.keys }
        | none ↦ elim (remove_level order_id b.asks) [
          | some ls ↦ record b { asks = ls; keys = delete order_id b.keys }
          | none ↦ record b { keys = delete order_id b.keys }
        ]
      ],
      true,
    )
    else (b, false)

-- The case "LIMIT_BUY", "LIMIT_SELL": match the other side, then rest what is left.
unfoldable pub limit_buys : OrderBook → Order → OrderBook × ExpectedFill
limit_buys b o =
    let (f, asks, t) = match_limit o b.asks b.keys true in
    let rested = record o { remaining_qty = t.remaining } in
    if ltb 0 t.remaining
    then (record { bids = insert b.bids rested false; asks = asks; keys = assign o.id t.keys }, f)
    else (record b { asks = asks; keys = t.keys }, f)

unfoldable pub limit_sells : OrderBook → Order → OrderBook × ExpectedFill
limit_sells b o =
    let (f, bids, t) = match_limit o b.bids b.keys false in
    let rested = record o { remaining_qty = t.remaining } in
    if ltb 0 t.remaining
    then (record { bids = bids; asks = insert b.asks rested true; keys = assign o.id t.keys }, f)
    else (record b { bids = bids; keys = t.keys }, f)

unfoldable pub market_buys : OrderBook → Order → OrderBook × ExpectedFill
market_buys b o =
    let (f, asks, t) = match_market o b.asks b.keys in (record b { asks = asks; keys = t.keys }, f)

unfoldable pub market_sells : OrderBook → Order → OrderBook × ExpectedFill
market_sells b o =
    let (f, bids, t) = match_market o b.bids b.keys in (record b { bids = bids; keys = t.keys }, f)

abbrev pub cancel_fill : Bool → ExpectedFill
cancel_fill true = only cancelled
cancel_fill false = only not_found

unfoldable pub dispatch : OrderType → OrderBook → Order → OrderBook × ExpectedFill
dispatch market_buy b o = market_buys b o
dispatch market_sell b o = market_sells b o
dispatch limit_buy b o = limit_buys b o
dispatch limit_sell b o = limit_sells b o
dispatch cancel_order b o = let (b', found) = cancel b o.id in (b', cancel_fill found)
dispatch (other_type s) b o = (b, only rejected)

unfoldable pub process_order : OrderBook → Order → OrderBook × ExpectedFill
unfolding dispatch
process_order b o = dispatch o.order_type b (record o { remaining_qty = o.quantity })
