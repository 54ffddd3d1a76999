-- ===== src/BotFleet/ShadowBook/Agreement.antt =====
-- What a bot expects of its orders is what the ingester's book answers.
use mathlib.Core.Option
use alpha_exchange.Base.{
  ℕ, ◌≡◌, refl, ap, List, [], ◌∷◌, ◌++◌, arith, Bool, true, false, String, has, sort_stable,
  insert_sorted, is_empty,
}
use alpha_exchange.BotFleet.ShadowBook.{
  Status, filled, partial, pending, cancelled, rejected, OrderType, market_buy, market_sell,
  limit_buy, limit_sell, cancel_order, other_type, ExpectedFill, Order, PriceLevel, ShadowBook,
  Taker, match_orders, match_market_loop, match_limit_loop, crosses, report, match_market,
  append_at, level_less, insert, remove_order, remove_level, cancel, limit_buys, limit_sells,
  add_as, add_order,
}
use alpha_exchange.Ingester.Book as Ingester
use alpha_exchange.Ingester.Book.Fill.{used}

abbrev pub bot_type : Ingester.OrderType → OrderType
bot_type Ingester.market_buy = market_buy
bot_type Ingester.market_sell = market_sell
bot_type Ingester.limit_buy = limit_buy
bot_type Ingester.limit_sell = limit_sell
bot_type Ingester.cancel_order = cancel_order
bot_type (Ingester.other_type s) = other_type s

-- What the bot's book keeps of an order: the quantity that is left.
abbrev pub bot_order : Ingester.Order → Order
bot_order o = record {
  order_id = o.id;
  order_type = bot_type o.order_type;
  price = o.price;
  quantity = o.remaining_qty;
  time = o.submitted_at;
}

abbrev pub bot_orders : List Ingester.Order → List Order
bot_orders [] = []
bot_orders (o ∷ os) = bot_order o ∷ bot_orders os

abbrev pub bot_level : Ingester.PriceLevel → PriceLevel
bot_level l = record { price = l.price; orders = bot_orders l.orders }

abbrev pub bot_levels : List Ingester.PriceLevel → List PriceLevel
bot_levels [] = []
bot_levels (l ∷ ls) = bot_level l ∷ bot_levels ls

abbrev pub bot_book : Ingester.OrderBook → ShadowBook
bot_book b = record { bids = bot_levels b.bids; asks = bot_levels b.asks }

abbrev bot_taker : Ingester.Taker → Taker
bot_taker t = record { filled = t.filled; last_px = t.last_px; qty = t.remaining }

-- The bot does not tell an unknown order from a cancelled one.
abbrev pub bot_status : Ingester.Status → Status
bot_status Ingester.filled = filled
bot_status Ingester.partial = partial
bot_status Ingester.pending = pending
bot_status Ingester.rejected = rejected
bot_status Ingester.cancelled = cancelled
bot_status Ingester.not_found = cancelled

abbrev pub bot_fill : Ingester.ExpectedFill → ExpectedFill
bot_fill f = record {
  status = bot_status f.status;
  price = f.filled_price;
  quantity = f.filled_qty;
  remaining = f.remaining_qty;
}

match_orders-agrees :
    (px : ℕ) (rs : List Ingester.Order) (t : Ingester.Taker)
    → let (os, t') = Ingester.match_orders px rs t in
      match_orders px (bot_orders rs) (bot_taker t) ≡ (bot_orders os, bot_taker t')
unfolding match_orders Ingester.match_orders
match_orders-agrees px [] t = refl
match_orders-agrees px (r ∷ rs) t =
    unfold Ingester.trade Ingester.min_f in ground (arith, match_orders-agrees px rs (used px r t))

is_empty-agrees : (os : List Ingester.Order) → is_empty (bot_orders os) ≡ is_empty os
is_empty-agrees [] = refl
is_empty-agrees (o ∷ os) = refl

match_market_loop-agrees :
    (ls : List Ingester.PriceLevel) (t : Ingester.Taker)
    → let (ms, t') = Ingester.match_market_loop ls t in
      match_market_loop (bot_levels ls) (bot_taker t) ≡ (bot_levels ms, bot_taker t')
unfolding match_market_loop Ingester.match_market_loop
match_market_loop-agrees [] t = refl
match_market_loop-agrees (l ∷ ls) t =
    let (os, t') = Ingester.match_orders l.price l.orders t in
    ground (
      arith,
      match_orders-agrees l.price l.orders t,
      is_empty-agrees os,
      match_market_loop-agrees ls t',
    )

crosses-agrees :
    (is_buy : Bool) (limit px : ℕ) → crosses is_buy limit px ≡ Ingester.crosses is_buy limit px
unfolding crosses Ingester.crosses
crosses-agrees true limit px = refl
crosses-agrees false limit px = refl

match_limit_loop-agrees :
    (is_buy : Bool) (limit : ℕ) (ls : List Ingester.PriceLevel) (t : Ingester.Taker)
    → let (ms, t') = Ingester.match_limit_loop is_buy limit ls t in
      match_limit_loop is_buy limit (bot_levels ls) (bot_taker t) ≡ (bot_levels ms, bot_taker t')
unfolding match_limit_loop Ingester.match_limit_loop
match_limit_loop-agrees is_buy limit [] t = refl
match_limit_loop-agrees is_buy limit (l ∷ ls) t =
    let (os, t') = Ingester.match_orders l.price l.orders t in
    ground (
      arith,
      crosses-agrees is_buy limit l.price,
      match_orders-agrees l.price l.orders t,
      is_empty-agrees os,
      match_limit_loop-agrees is_buy limit ls t',
    )

append-agrees :
    (os : List Ingester.Order) (o : Ingester.Order)
    → bot_orders (os ++ o ∷ []) ≡ bot_orders os ++ bot_order o ∷ []
append-agrees [] o = refl
append-agrees (x ∷ os) o = ap (◌∷◌ (bot_order x)) (append-agrees os o)

append_at-agrees :
    (o : Ingester.Order) (ls : List Ingester.PriceLevel)
    → append_at (bot_order o) (bot_levels ls) ≡ Option.map bot_levels (Ingester.append_at o ls)
unfolding append_at Ingester.append_at
append_at-agrees o [] = refl
append_at-agrees o (l ∷ ls) = ground (arith, append-agrees l.orders o, append_at-agrees o ls)

insert_sorted-agrees :
    (asc : Bool) (l : Ingester.PriceLevel) (ls : List Ingester.PriceLevel)
    → insert_sorted (level_less asc) (bot_level l) (bot_levels ls)
      ≡ bot_levels (insert_sorted (Ingester.level_less asc) l ls)
unfolding insert_sorted level_less Ingester.level_less
insert_sorted-agrees asc l [] = refl
insert_sorted-agrees true l (m ∷ ls) = ground (arith, insert_sorted-agrees true l ls)
insert_sorted-agrees false l (m ∷ ls) = ground (arith, insert_sorted-agrees false l ls)

sort_stable-agrees :
    (asc : Bool) (ls : List Ingester.PriceLevel) (l : Ingester.PriceLevel)
    → sort_stable (level_less asc) (bot_levels ls ++ bot_level l ∷ [])
      ≡ bot_levels (sort_stable (Ingester.level_less asc) (ls ++ l ∷ []))
unfolding sort_stable
sort_stable-agrees asc [] l = refl
sort_stable-agrees asc (m ∷ ls) l = rw (sort_stable-agrees asc ls l) (insert_sorted-agrees asc m _)

insert-agrees :
    (ls : List Ingester.PriceLevel) (o : Ingester.Order) (asc : Bool)
    → insert (bot_levels ls) (bot_order o) asc ≡ bot_levels (Ingester.insert ls o asc)
unfolding insert Ingester.insert
insert-agrees ls o asc = ground (
  arith,
  append_at-agrees o ls,
  sort_stable-agrees asc ls (record { price = o.price; orders = o ∷ [] }),
)

remove_order-agrees :
    (k : String) (os : List Ingester.Order)
    → remove_order k (bot_orders os) ≡ Option.map bot_orders (Ingester.remove_order k os)
unfolding remove_order Ingester.remove_order
remove_order-agrees k [] = refl
remove_order-agrees k (o ∷ os) = ground (arith, remove_order-agrees k os)

remove_level-agrees :
    (k : String) (ls : List Ingester.PriceLevel)
    → remove_level k (bot_levels ls) ≡ Option.map bot_levels (Ingester.remove_level k ls)
unfolding remove_level Ingester.remove_level
remove_level-agrees k [] = refl
remove_level-agrees k (l ∷ ls) =
    ground (arith, remove_order-agrees k l.orders, remove_level-agrees k ls)

report-agrees :
    (f : Ingester.ExpectedFill) (t : Ingester.Taker)
    → report (bot_fill f) (bot_taker t) ≡ bot_fill (Ingester.report f t)
unfolding report Ingester.report
report-agrees f t = ground arith

abbrev pub bot_result : Ingester.OrderBook × Ingester.ExpectedFill → ShadowBook × ExpectedFill
bot_result r = (bot_book r.0, bot_fill r.1)

report-remaining :
    (t : Ingester.Taker)
    → (Ingester.report (Ingester.pending_fill t.remaining) t).remaining_qty ≡ t.remaining
unfolding Ingester.report
report-remaining t = ground arith

limit_buys-agrees :
    (b : Ingester.OrderBook) (o : Ingester.Order)
    → limit_buys (bot_book b) (bot_order o) ≡ bot_result (Ingester.limit_buys b o)
unfolding limit_buys Ingester.limit_buys Ingester.match_limit
limit_buys-agrees b o =
    let s = Ingester.start o.remaining_qty b.keys in
    let t = (Ingester.match_limit_loop true o.price b.asks s).1 in
    rw (match_limit_loop-agrees true o.price b.asks s) (
      rw (report-agrees (Ingester.pending_fill t.remaining) t, report-remaining t)
        (ground (arith, insert-agrees b.bids (record o { remaining_qty = t.remaining }) false)))

limit_sells-agrees :
    (b : Ingester.OrderBook) (o : Ingester.Order)
    → limit_sells (bot_book b) (bot_order o) ≡ bot_result (Ingester.limit_sells b o)
unfolding limit_sells Ingester.limit_sells Ingester.match_limit
limit_sells-agrees b o =
    let s = Ingester.start o.remaining_qty b.keys in
    let t = (Ingester.match_limit_loop false o.price b.bids s).1 in
    rw (match_limit_loop-agrees false o.price b.bids s) (
      rw (report-agrees (Ingester.pending_fill t.remaining) t, report-remaining t)
        (ground (arith, insert-agrees b.asks (record o { remaining_qty = t.remaining }) true)))

cancel-agrees :
    (b : Ingester.OrderBook) (k : String)
    → has k b.keys ≡ true
    → cancel (bot_book b) k ≡ bot_book (Ingester.cancel b k).0
unfolding cancel Ingester.cancel
cancel-agrees b k h = ground (arith, remove_level-agrees k b.bids, remove_level-agrees k b.asks)

add_as-agrees :
    (ty : Ingester.OrderType) (b : Ingester.OrderBook) (o : Ingester.Order)
    → (ty ≡ Ingester.cancel_order → has o.id b.keys ≡ true)
    → add_as (bot_type ty) (bot_book b) (bot_order o) ≡ bot_result (Ingester.dispatch ty b o)
unfolding add_as match_market Ingester.dispatch Ingester.market_buys Ingester.market_sells
    Ingester.match_market
add_as-agrees Ingester.market_buy b o h =
    let s = Ingester.start o.remaining_qty b.keys in
    rw (match_market_loop-agrees b.asks s) (
      ground (
        arith,
        report-agrees (Ingester.only Ingester.rejected) (Ingester.match_market_loop b.asks s).1,
      ))
add_as-agrees Ingester.market_sell b o h =
    let s = Ingester.start o.remaining_qty b.keys in
    rw (match_market_loop-agrees b.bids s) (
      ground (
        arith,
        report-agrees (Ingester.only Ingester.rejected) (Ingester.match_market_loop b.bids s).1,
      ))
add_as-agrees Ingester.limit_buy b o h = limit_buys-agrees b o
add_as-agrees Ingester.limit_sell b o h = limit_sells-agrees b o
add_as-agrees Ingester.cancel_order b o h = rw (cancel-agrees b o.id (h refl)) (ground arith)
add_as-agrees (Ingester.other_type s) b o h = refl

-- A bot's book that holds what the ingester's book holds stays so under every order, and expects
-- the fill that the ingester's book answers, if a "CANCEL" is for an order that the ingester's
-- book tracks.
pub add_order-process_order :
    (b : Ingester.OrderBook) (o : Ingester.Order)
    → (o.order_type ≡ Ingester.cancel_order → has o.id b.keys ≡ true)
    → add_order (bot_book b) (bot_order (record o { remaining_qty = o.quantity }))
      ≡ bot_result (Ingester.process_order b o)
unfolding add_order Ingester.process_order
add_order-process_order b o h =
    add_as-agrees o.order_type b (record o { remaining_qty = o.quantity }) h
