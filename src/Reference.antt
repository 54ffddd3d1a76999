-- ===== src/Reference.antt =====
-- services/shadow-orderbook/orderbook.go: the stand-alone reference engine, which the ingester's
-- book restates. As there, prices and quantities are whole billionths, and of the map
-- `lookup` the key set is kept.
pub mod Agreement
use alpha_exchange.Base.{
  ℕ, ◌+◌, ◌-◌, ◌==◌, ltb, if◌then◌else◌, is_empty, Bool, true, false, List, [], ◌∷◌, ◌++◌, ◌&&◌,
  ◌||◌, not, Option, none, some, String, str_eq, has, delete, assign, sort_stable,
}

pub data Status : Type 0 where
  filled partial pending rejected cancelled not_found : Status

-- The strings of the `switch`; any other string reaches its end, "CANCEL" too.
pub data OrderType : Type 0 where
  market_buy market_sell limit_buy limit_sell : OrderType
  other_type : String → OrderType

pub record Order : Type 0 where
  pub id : String
  pub order_type : OrderType
  pub price : ℕ
  pub quantity : ℕ
  pub remaining_qty : ℕ
  pub seq : ℕ

pub record Fill : Type 0 where
  pub status : Status
  pub price : ℕ
  pub quantity : ℕ
  pub remaining_qty : ℕ

abbrev pub only : Status → Fill
only s = record { status = s; price = 0; quantity = 0; remaining_qty = 0 }

pub record Level : Type 0 where
  pub price : ℕ
  pub orders : List Order

pub record OrderBook : Type 0 where
  pub bids : List Level
  pub asks : List Level
  pub lookup : List String

new : OrderBook
new = record { bids = []; asks = []; lookup = [] }

min_f : ℕ → ℕ → ℕ
min_f a b = if ltb a b then a else b

-- The locals `filled` and `last`, `o.RemainingQty` and the map.
pub record Taker : Type 0 where
  pub filled : ℕ
  pub last : ℕ
  pub remaining : ℕ
  pub lookup : List String

abbrev pub start : ℕ → List String → Taker
start qty lookup = record { filled = 0; last = 0; remaining = qty; lookup = lookup }

trade : ℕ → ℕ → Taker → Taker
trade px m t = record t { filled = t.filled + m; last = px; remaining = t.remaining - m }

-- The inner loop. It ends where the resting order keeps a quantity, `o.RemainingQty` being 0.
match_orders : ℕ → List Order → Taker → List Order × Taker
unfolding trade min_f
match_orders px [] t = ([], t)
match_orders px (r ∷ rs) t =
    let m = min_f t.remaining r.remaining_qty in
    let t' = trade px m t in
    let rest = match_orders px rs (record t' { lookup = delete r.id t.lookup }) in
    if t.remaining == 0
    then (r ∷ rs, t)
    else if r.remaining_qty - m == 0
    then rest
    else (record r { remaining_qty = r.remaining_qty - m } ∷ rs, t')

match_market_loop : List Level → Taker → List Level × Taker
match_market_loop [] t = ([], t)
match_market_loop (l ∷ ls) t =
    let (os, t') = match_orders l.price l.orders t in
    let rest = match_market_loop ls t' in
    if t.remaining == 0
    then (l ∷ ls, t)
    else if is_empty os
    then rest
    else (record l { orders = os } ∷ ls, t')

-- The test of the `break`.
misses : Bool → ℕ → ℕ → Bool
misses is_buy px limit = (is_buy && ltb limit px) || (not is_buy && ltb px limit)

match_limit_loop : Bool → ℕ → List Level → Taker → List Level × Taker
unfolding misses
match_limit_loop is_buy limit [] t = ([], t)
match_limit_loop is_buy limit (l ∷ ls) t =
    let (os, t') = match_orders l.price l.orders t in
    let rest = match_limit_loop is_buy limit ls t' in
    if t.remaining == 0
    then (l ∷ ls, t)
    else if misses is_buy l.price limit
    then (l ∷ ls, t)
    else if is_empty os
    then rest
    else (record l { orders = os } ∷ ls, t')

report : Fill → Taker → Fill
report nothing t =
    if t.filled == 0
    then nothing
    else if ltb 0 t.remaining
    then record {
      status = partial;
      price = t.last;
      quantity = t.filled;
      remaining_qty = t.remaining;
    }
    else record { status = filled; price = t.last; quantity = t.filled; remaining_qty = 0 }

match_market : Order → List Level → List String → Fill × List Level × Taker
match_market o levels lookup =
    let (ls, t) = match_market_loop levels (start o.remaining_qty lookup) in
    (report (only rejected) t, ls, t)

match_limit : Order → List Level → List String → Bool → Fill × List Level × Taker
match_limit o levels lookup is_buy =
    let (ls, t) = match_limit_loop is_buy o.price levels (start o.remaining_qty lookup) in
    (report (record (only pending) { remaining_qty = t.remaining }) t, ls, t)

append_at : Order → List Level → Option (List Level)
append_at o [] = none
append_at o (l ∷ ls) =
    if l.price == o.price
    then some (record l { orders = l.orders ++ o ∷ [] } ∷ ls)
    else elim (append_at o ls) [ none ↦ none | some ms ↦ some (l ∷ ms) ]

level_less : Bool → Level → Level → Bool
level_less ascending l m = if ascending then ltb l.price m.price else ltb m.price l.price

-- The levels after `rest`, which also sets `b.lookup[o.ID]`.
rest_order : List Level → Order → Bool → List Level
rest_order levels o ascending = elim (append_at o levels) [
  | none ↦
      sort_stable (level_less ascending)
        (levels ++ record { price = o.price; orders = o ∷ [] } ∷ [])
  | some ls ↦ ls
]

remove_order : String → List Order → Option (List Order)
remove_order order_id [] = none
remove_order order_id (o ∷ os) =
    if str_eq o.id order_id
    then some os
    else elim (remove_order order_id os) [ none ↦ none | some rs ↦ some (o ∷ rs) ]

remove_level : String → List Level → Option (List Level)
remove_level order_id [] = none
remove_level order_id (l ∷ ls) = elim (remove_order order_id l.orders) [
  | some os ↦ some (record l { orders = os } ∷ ls)
  | none ↦ elim (remove_level order_id ls) [ none ↦ none | some ms ↦ some (l ∷ ms) ]
]

pub cancel : OrderBook → String → OrderBook × Fill
cancel b order_id =
    if has order_id b.lookup
    then (
      elim (remove_level order_id b.bids) [
        | some ls ↦ record b { bids = ls; lookup = delete order_id b.lookup }
        | none ↦ elim (remove_level order_id b.asks) [
          | some ls ↦ record b { asks = ls; lookup = delete order_id b.lookup }
          | none ↦ record b { lookup = delete order_id b.lookup }
        ]
      ],
      only cancelled,
    )
    else (b, only not_found)

limit_buys : OrderBook → Order → OrderBook × Fill
unfolding match_limit
limit_buys b o =
    let (f, asks, t) = match_limit o b.asks b.lookup true in
    let rested = record o { remaining_qty = t.remaining } in
    if ltb 0 t.remaining
    then (
      record { bids = rest_order b.bids rested false; asks = asks; lookup = assign o.id t.lookup },
      f,
    )
    else (record b { asks = asks; lookup = t.lookup }, f)

limit_sells : OrderBook → Order → OrderBook × Fill
unfolding match_limit
limit_sells b o =
    let (f, bids, t) = match_limit o b.bids b.lookup false in
    let rested = record o { remaining_qty = t.remaining } in
    if ltb 0 t.remaining
    then (
      record { bids = bids; asks = rest_order b.asks rested true; lookup = assign o.id t.lookup },
      f,
    )
    else (record b { bids = bids; lookup = t.lookup }, f)

submit_as : OrderType → OrderBook → Order → OrderBook × Fill
unfolding match_market limit_buys limit_sells
submit_as market_buy b o =
    let (f, asks, t) = match_market o b.asks b.lookup in
    (record b { asks = asks; lookup = t.lookup }, f)
submit_as market_sell b o =
    let (f, bids, t) = match_market o b.bids b.lookup in
    (record b { bids = bids; lookup = t.lookup }, f)
submit_as limit_buy b o = limit_buys b o
submit_as limit_sell b o = limit_sells b o
submit_as (other_type s) b o = (b, only rejected)

pub submit : OrderBook → Order → OrderBook × Fill
unfolding submit_as
submit b o = submit_as o.order_type b (record o { remaining_qty = o.quantity })
