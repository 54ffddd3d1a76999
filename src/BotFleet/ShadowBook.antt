-- ===== src/BotFleet/ShadowBook.antt =====
-- services/bot-fleet/bots/shadow_book.go: the book that one bot keeps to form its expectations.
-- Numbers are as in the ingester's book. `sort.Slice` sorts levels of distinct prices, of which
-- there is one sorted order, so the stable sort stands for it.
pub mod Agreement
use alpha_exchange.Base.{
  ℕ, ◌+◌, ◌-◌, ◌==◌, ltb, leb, if◌then◌else◌, is_empty, Bool, true, false, not, List, [], ◌∷◌, ◌++◌,
  Option, none, some, String, str_eq, sort_stable,
}

pub data Status : Type 0 where
  filled partial pending cancelled rejected : Status

pub data OrderType : Type 0 where
  market_buy market_sell limit_buy limit_sell cancel_order : OrderType
  other_type : String → OrderType

pub record ExpectedFill : Type 0 where
  pub status : Status
  pub price : ℕ
  pub quantity : ℕ
  pub remaining : ℕ

abbrev pub only : Status → ExpectedFill
only s = record { status = s; price = 0; quantity = 0; remaining = 0 }

-- `Time` is stored and not read.
pub record Order : Type 0 where
  pub order_id : String
  pub order_type : OrderType
  pub price : ℕ
  pub quantity : ℕ
  pub time : ℕ

pub record PriceLevel : Type 0 where
  pub price : ℕ
  pub orders : List Order

pub record ShadowBook : Type 0 where
  pub bids : List PriceLevel
  pub asks : List PriceLevel

pub new_shadow_book : ShadowBook
new_shadow_book = record { bids = []; asks = [] }

min_f : ℕ → ℕ → ℕ
min_f a b = if ltb a b then a else b

-- The locals `filled`, `lastPx` and `qty` or `remaining`.
pub record Taker : Type 0 where
  pub filled : ℕ
  pub last_px : ℕ
  pub qty : ℕ

abbrev pub start : ℕ → Taker
start qty = record { filled = 0; last_px = 0; qty = qty }

trade : ℕ → ℕ → Taker → Taker
trade px m t = record { filled = t.filled + m; last_px = px; qty = t.qty - m }

-- The inner loop. It ends where the first order keeps a quantity, `qty` being 0.
match_orders : ℕ → List Order → Taker → List Order × Taker
unfolding trade min_f
match_orders px [] t = ([], t)
match_orders px (r ∷ rs) t =
    let m = min_f t.qty r.quantity in
    let t' = trade px m t in
    let rest = match_orders px rs t' in
    if t.qty == 0
    then (r ∷ rs, t)
    else if r.quantity - m == 0
    then rest
    else (record r { quantity = r.quantity - m } ∷ rs, t')

match_market_loop : List PriceLevel → Taker → List PriceLevel × Taker
match_market_loop [] t = ([], t)
match_market_loop (l ∷ ls) t =
    let (os, t') = match_orders l.price l.orders t in
    let rest = match_market_loop ls t' in
    if t.qty == 0
    then (l ∷ ls, t)
    else if is_empty os
    then rest
    else (record l { orders = os } ∷ ls, t')

crosses : Bool → ℕ → ℕ → Bool
crosses true limit px = leb px limit
crosses false limit px = leb limit px

match_limit_loop : Bool → ℕ → List PriceLevel → Taker → List PriceLevel × Taker
match_limit_loop is_buy limit [] t = ([], t)
match_limit_loop is_buy limit (l ∷ ls) t =
    let (os, t') = match_orders l.price l.orders t in
    let rest = match_limit_loop is_buy limit ls t' in
    if t.qty == 0
    then (l ∷ ls, t)
    else if not (crosses is_buy limit l.price)
    then (l ∷ ls, t)
    else if is_empty os
    then rest
    else (record l { orders = os } ∷ ls, t')

report : ExpectedFill → Taker → ExpectedFill
report nothing t = if t.filled == 0 then nothing else record {
  status = if ltb 0 t.qty then partial else filled;
  price = t.last_px;
  quantity = t.filled;
  remaining = t.qty;
}

match_market : List PriceLevel → ℕ → ExpectedFill × List PriceLevel
match_market levels qty =
    let (ls, t) = match_market_loop levels (start qty) in (report (only rejected) t, ls)

match_limit : List PriceLevel → Order → Bool → ExpectedFill × List PriceLevel
match_limit levels o is_buy =
    let (ls, t) = match_limit_loop is_buy o.price levels (start o.quantity) in
    (report (record (only pending) { remaining = t.qty }) t, ls)

append_at : Order → List PriceLevel → Option (List PriceLevel)
append_at o [] = none
append_at o (l ∷ ls) =
    if l.price == o.price
    then some (record l { orders = l.orders ++ o ∷ [] } ∷ ls)
    else elim (append_at o ls) [ none ↦ none | some ms ↦ some (l ∷ ms) ]

level_less : Bool → PriceLevel → PriceLevel → Bool
level_less true l m = ltb l.price m.price
level_less false l m = ltb m.price l.price

insert : List PriceLevel → Order → Bool → List PriceLevel
insert levels o ascending = elim (append_at o levels) [
  | none ↦
      sort_stable (level_less ascending)
        (levels ++ record { price = o.price; orders = o ∷ [] } ∷ [])
  | some ls ↦ ls
]

remove_order : String → List Order → Option (List Order)
remove_order order_id [] = none
remove_order order_id (o ∷ os) =
    if str_eq o.order_id order_id
    then some os
    else elim (remove_order order_id os) [ none ↦ none | some rs ↦ some (o ∷ rs) ]

remove_level : String → List PriceLevel → Option (List PriceLevel)
remove_level order_id [] = none
remove_level order_id (l ∷ ls) = elim (remove_order order_id l.orders) [
  | some os ↦ some (record l { orders = os } ∷ ls)
  | none ↦ elim (remove_level order_id ls) [ none ↦ none | some ms ↦ some (l ∷ ms) ]
]

-- The result of `cancel` is dropped by its caller.
cancel : ShadowBook → String → ShadowBook
cancel b order_id = elim (remove_level order_id b.bids) [
  | some ls ↦ record b { bids = ls }
  | none ↦ elim (remove_level order_id b.asks) [ some ls ↦ record b { asks = ls } | none ↦ b ]
]

limit_buys : ShadowBook → Order → ShadowBook × ExpectedFill
unfolding match_limit
limit_buys b o =
    let (f, asks) = match_limit b.asks o true in
    let rested = record o { quantity = f.remaining } in
    if ltb 0 f.remaining
    then (record { bids = insert b.bids rested false; asks = asks }, f)
    else (record b { asks = asks }, f)

limit_sells : ShadowBook → Order → ShadowBook × ExpectedFill
unfolding match_limit
limit_sells b o =
    let (f, bids) = match_limit b.bids o false in
    let rested = record o { quantity = f.remaining } in
    if ltb 0 f.remaining
    then (record { bids = bids; asks = insert b.asks rested true }, f)
    else (record b { bids = bids }, f)

add_as : OrderType → ShadowBook → Order → ShadowBook × ExpectedFill
unfolding match_market limit_buys limit_sells
add_as market_buy b o =
    let (f, asks) = match_market b.asks o.quantity in (record b { asks = asks }, f)
add_as market_sell b o =
    let (f, bids) = match_market b.bids o.quantity in (record b { bids = bids }, f)
add_as limit_buy b o = limit_buys b o
add_as limit_sell b o = limit_sells b o
add_as cancel_order b o = (cancel b o.order_id, only cancelled)
add_as (other_type s) b o = (b, only rejected)

pub add_order : ShadowBook → Order → ShadowBook × ExpectedFill
unfolding add_as
add_order b o = add_as o.order_type b o
