-- ===== src/Reference/Agreement.antt =====
-- The reference engine and the ingester's book do the same.
use alpha_exchange.Base.{
  ℕ, ◌≡◌, refl, ap, List, [], ◌∷◌, ◌++◌, arith, Bool, true, false, not, if◌then◌else◌, str_eq,
  String, delete, sort_stable, insert_sorted, is_empty,
}
use alpha_exchange.Reference.{
  Status, filled, partial, pending, rejected, match_market, cancelled, not_found, OrderType,
  market_buy, market_sell, limit_buy, limit_sell, other_type, Order, Fill, Level, OrderBook, Taker,
  only, start, match_orders, match_market_loop, misses, match_limit_loop, report, append_at,
  level_less, rest_order, remove_order, remove_level, cancel, limit_buys, limit_sells, submit_as,
  submit, min_f, trade,
}
use mathlib.Core.Option
use alpha_exchange.Ingester.Book as Ingester

abbrev pub ingester_status : Status → Ingester.Status
ingester_status filled = Ingester.filled
ingester_status partial = Ingester.partial
ingester_status pending = Ingester.pending
ingester_status rejected = Ingester.rejected
ingester_status cancelled = Ingester.cancelled
ingester_status not_found = Ingester.not_found

abbrev pub ingester_type : OrderType → Ingester.OrderType
ingester_type market_buy = Ingester.market_buy
ingester_type market_sell = Ingester.market_sell
ingester_type limit_buy = Ingester.limit_buy
ingester_type limit_sell = Ingester.limit_sell
ingester_type (other_type s) =
    if str_eq s "CANCEL" then Ingester.cancel_order else Ingester.other_type s

-- The string that the reference engine does not know and the ingester's book does.
abbrev pub is_cancel : OrderType → Bool
is_cancel (other_type s) = str_eq s "CANCEL"
is_cancel _ = false

abbrev pub ingester_fill : Fill → Ingester.ExpectedFill
ingester_fill f = record {
  status = ingester_status f.status;
  filled_price = f.price;
  filled_qty = f.quantity;
  remaining_qty = f.remaining_qty;
}

abbrev ingester_taker : Taker → Ingester.Taker
ingester_taker t = record {
  filled = t.filled;
  last_px = t.last;
  remaining = t.remaining;
  keys = t.lookup;
}

module _ (contestant : String) where
  -- The reference engine has no contestants: all orders of a book are one contestant's.
  abbrev pub ingester_order : Order → Ingester.Order
  ingester_order o = record {
    id = o.id;
    contestant_id = contestant;
    order_type = ingester_type o.order_type;
    price = o.price;
    quantity = o.quantity;
    remaining_qty = o.remaining_qty;
    submitted_at = o.seq;
  }

  abbrev pub ingester_orders : List Order → List Ingester.Order
  ingester_orders [] = []
  ingester_orders (o ∷ os) = ingester_order o ∷ ingester_orders os

  abbrev pub ingester_level : Level → Ingester.PriceLevel
  ingester_level l = record { price = l.price; orders = ingester_orders l.orders }

  abbrev pub ingester_levels : List Level → List Ingester.PriceLevel
  ingester_levels [] = []
  ingester_levels (l ∷ ls) = ingester_level l ∷ ingester_levels ls

  match_orders-agrees :
      (px : ℕ) (rs : List Order) (t : Taker)
      → Ingester.match_orders px (ingester_orders rs) (ingester_taker t)
        ≡ (ingester_orders (match_orders px rs t).0, ingester_taker (match_orders px rs t).1)
  unfolding match_orders Ingester.match_orders
  match_orders-agrees px [] t = refl
  match_orders-agrees px (r ∷ rs) t =
      let m = min_f t.remaining r.remaining_qty in
      ground
        (arith, match_orders-agrees px rs (record (trade px m t) { lookup = delete r.id t.lookup }))

  is_empty-agrees : (os : List Order) → is_empty (ingester_orders os) ≡ is_empty os
  is_empty-agrees [] = refl
  is_empty-agrees (o ∷ os) = refl

  match_market_loop-agrees :
      (ls : List Level) (t : Taker)
      → Ingester.match_market_loop (ingester_levels ls) (ingester_taker t)
        ≡ (ingester_levels (match_market_loop ls t).0, ingester_taker (match_market_loop ls t).1)
  unfolding match_market_loop Ingester.match_market_loop
  match_market_loop-agrees [] t = refl
  match_market_loop-agrees (l ∷ ls) t = ground (
    arith,
    match_orders-agrees l.price l.orders t,
    is_empty-agrees (match_orders l.price l.orders t).0,
    match_market_loop-agrees ls (match_orders l.price l.orders t).1,
  )

  misses-crosses :
      (is_buy : Bool) (px limit : ℕ)
      → misses is_buy px limit ≡ not (Ingester.crosses is_buy limit px)
  unfolding misses Ingester.crosses
  misses-crosses true px limit = ground arith
  misses-crosses false px limit = ground arith

  match_limit_loop-agrees :
      (is_buy : Bool) (limit : ℕ) (ls : List Level) (t : Taker)
      → Ingester.match_limit_loop is_buy limit (ingester_levels ls) (ingester_taker t) ≡ (
        ingester_levels (match_limit_loop is_buy limit ls t).0,
        ingester_taker (match_limit_loop is_buy limit ls t).1,
      )
  unfolding match_limit_loop Ingester.match_limit_loop
  match_limit_loop-agrees is_buy limit [] t = refl
  match_limit_loop-agrees is_buy limit (l ∷ ls) t = ground (
    arith,
    misses-crosses is_buy l.price limit,
    match_orders-agrees l.price l.orders t,
    is_empty-agrees (match_orders l.price l.orders t).0,
    match_limit_loop-agrees is_buy limit ls (match_orders l.price l.orders t).1,
  )

  append-agrees :
      (os : List Order) (o : Order)
      → ingester_orders (os ++ o ∷ []) ≡ ingester_orders os ++ ingester_order o ∷ []
  append-agrees [] o = refl
  append-agrees (x ∷ os) o = ap (◌∷◌ (ingester_order x)) (append-agrees os o)

  append_at-agrees :
      (o : Order) (ls : List Level)
      → Ingester.append_at (ingester_order o) (ingester_levels ls)
        ≡ Option.map ingester_levels (append_at o ls)
  unfolding append_at Ingester.append_at
  append_at-agrees o [] = refl
  append_at-agrees o (l ∷ ls) = ground (arith, append-agrees l.orders o, append_at-agrees o ls)

  insert_sorted-agrees :
      (asc : Bool) (l : Level) (ls : List Level)
      → insert_sorted (Ingester.level_less asc) (ingester_level l) (ingester_levels ls)
        ≡ ingester_levels (insert_sorted (level_less asc) l ls)
  unfolding insert_sorted level_less Ingester.level_less
  insert_sorted-agrees asc l [] = refl
  insert_sorted-agrees true l (m ∷ ls) = ground (arith, insert_sorted-agrees true l ls)
  insert_sorted-agrees false l (m ∷ ls) = ground (arith, insert_sorted-agrees false l ls)

  sort_stable-agrees :
      (asc : Bool) (ls : List Level) (l : Level)
      → sort_stable (Ingester.level_less asc) (ingester_levels ls ++ ingester_level l ∷ [])
        ≡ ingester_levels (sort_stable (level_less asc) (ls ++ l ∷ []))
  unfolding sort_stable
  sort_stable-agrees asc [] l = refl
  sort_stable-agrees asc (m ∷ ls) l =
      rw (sort_stable-agrees asc ls l) (insert_sorted-agrees asc m _)

  rest_order-agrees :
      (ls : List Level) (o : Order) (asc : Bool)
      → Ingester.insert (ingester_levels ls) (ingester_order o) asc
        ≡ ingester_levels (rest_order ls o asc)
  unfolding rest_order Ingester.insert
  rest_order-agrees ls o asc = ground (
    arith,
    append_at-agrees o ls,
    sort_stable-agrees asc ls (record { price = o.price; orders = o ∷ [] }),
  )

  remove_order-agrees :
      (k : String) (os : List Order)
      → Ingester.remove_order k (ingester_orders os)
        ≡ Option.map ingester_orders (remove_order k os)
  unfolding remove_order Ingester.remove_order
  remove_order-agrees k [] = refl
  remove_order-agrees k (o ∷ os) = ground (arith, remove_order-agrees k os)

  remove_level-agrees :
      (k : String) (ls : List Level)
      → Ingester.remove_level k (ingester_levels ls)
        ≡ Option.map ingester_levels (remove_level k ls)
  unfolding remove_level Ingester.remove_level
  remove_level-agrees k [] = refl
  remove_level-agrees k (l ∷ ls) =
      ground (arith, remove_order-agrees k l.orders, remove_level-agrees k ls)

  abbrev pub ingester_book : OrderBook → Ingester.OrderBook
  ingester_book b = record {
    bids = ingester_levels b.bids;
    asks = ingester_levels b.asks;
    keys = b.lookup;
  }

  abbrev pub ingester_result : OrderBook × Fill → Ingester.OrderBook × Ingester.ExpectedFill
  ingester_result r = (ingester_book r.0, ingester_fill r.1)

  report-agrees :
      (f : Fill) (t : Taker)
      → Ingester.report (ingester_fill f) (ingester_taker t) ≡ ingester_fill (report f t)
  unfolding report Ingester.report
  report-agrees f t = ground arith

  limit_buys-agrees :
      (b : OrderBook) (o : Order)
      → Ingester.limit_buys (ingester_book b) (ingester_order o) ≡ ingester_result (limit_buys b o)
  unfolding limit_buys Ingester.limit_buys Ingester.match_limit
  limit_buys-agrees b o =
      let t = (match_limit_loop true o.price b.asks (start o.remaining_qty b.lookup)).1 in
      rw (match_limit_loop-agrees true o.price b.asks (start o.remaining_qty b.lookup)) (
        ground (
          arith,
          report-agrees (record (only pending) { remaining_qty = t.remaining }) t,
          rest_order-agrees b.bids (record o { remaining_qty = t.remaining }) false,
        ))

  limit_sells-agrees :
      (b : OrderBook) (o : Order)
      → Ingester.limit_sells (ingester_book b) (ingester_order o)
        ≡ ingester_result (limit_sells b o)
  unfolding limit_sells Ingester.limit_sells Ingester.match_limit
  limit_sells-agrees b o =
      let t = (match_limit_loop false o.price b.bids (start o.remaining_qty b.lookup)).1 in
      rw (match_limit_loop-agrees false o.price b.bids (start o.remaining_qty b.lookup)) (
        ground (
          arith,
          report-agrees (record (only pending) { remaining_qty = t.remaining }) t,
          rest_order-agrees b.asks (record o { remaining_qty = t.remaining }) true,
        ))

  submit_as-agrees :
      (ty : OrderType) (b : OrderBook) (o : Order)
      → is_cancel ty ≡ false
      → Ingester.dispatch (ingester_type ty) (ingester_book b) (ingester_order o)
        ≡ ingester_result (submit_as ty b o)
  unfolding submit_as match_market Ingester.dispatch Ingester.market_buys Ingester.market_sells
      Ingester.match_market
  submit_as-agrees market_buy b o other =
      rw (match_market_loop-agrees b.asks (start o.remaining_qty b.lookup)) (
        ground (
          arith,
          report-agrees (only rejected)
              (match_market_loop b.asks (start o.remaining_qty b.lookup)).1,
        ))
  submit_as-agrees market_sell b o other =
      rw (match_market_loop-agrees b.bids (start o.remaining_qty b.lookup)) (
        ground (
          arith,
          report-agrees (only rejected)
              (match_market_loop b.bids (start o.remaining_qty b.lookup)).1,
        ))
  submit_as-agrees limit_buy b o other = limit_buys-agrees b o
  submit_as-agrees limit_sell b o other = limit_sells-agrees b o
  submit_as-agrees (other_type s) b o other = rw (other) refl

  -- `Submit` of the reference engine and `ProcessOrder` of the ingester's book do the same on the
  -- same book, for every order whose type is not "CANCEL": the same fill, the same levels and the
  -- same keys.
  pub submit-process_order :
      (b : OrderBook) (o : Order)
      → is_cancel o.order_type ≡ false
      → Ingester.process_order (ingester_book b) (ingester_order o) ≡ ingester_result (submit b o)
  unfolding submit Ingester.process_order
  submit-process_order b o other =
      submit_as-agrees o.order_type b (record o { remaining_qty = o.quantity }) other

  abbrev pub cancel_request : String → Ingester.Order
  cancel_request k = record {
    id = k;
    contestant_id = contestant;
    order_type = Ingester.cancel_order;
    price = 0;
    quantity = 0;
    remaining_qty = 0;
    submitted_at = 0;
  }

  -- `Cancel` of the reference engine does what `ProcessOrder` does with a "CANCEL" for the order.
  pub cancel-process_order :
      (b : OrderBook) (k : String)
      → Ingester.process_order (ingester_book b) (cancel_request k) ≡ ingester_result (cancel b k)
  unfolding cancel Ingester.process_order Ingester.cancel
  cancel-process_order b k =
      ground (arith, remove_level-agrees k b.bids, remove_level-agrees k b.asks)
