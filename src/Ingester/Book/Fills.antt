-- ===== src/Ingester/Book/Fills.antt =====
-- What an order is told: the traded quantity, the rest, the status and the price, on the amounts
-- that float64 holds exactly (Grid).
use alpha_exchange.Base.{ℕ, ◌+◌, ◌≡◌, sym, subst, arith, Bool, true, false}
use alpha_exchange.Ingester.Book.{
  OrderBook, Order, market_buy, market_sell, limit_buy, limit_sell, ExpectedFill, crosses, dispatch,
  process_order,
}
use alpha_exchange.Ingester.Book.Sweep.{side_volume}
use alpha_exchange.Ingester.Book.Valid.{IsValid}
use alpha_exchange.Ingester.Book.Grid.{
  IsExact, IsExactSide, Fits, depth-IsExact, min-IsExact, difference-IsExact,
}
use alpha_exchange.Ingester.Book.Outcomes.{
  opposite, limit_type, market_type, LimitOutcome, MarketOutcome, limit_buys-outcome,
  limit_sells-outcome, market_buys-outcome, market_sells-outcome,
}

opposite-IsExact :
    (is_buy : Bool) (b : OrderBook) (qty : ℕ) → Fits b qty → IsExactSide (opposite is_buy b)
opposite-IsExact true b qty h = h.asks
opposite-IsExact false b qty h = h.bids

limit-IsExact :
    (is_buy : Bool) (limit qty : ℕ) (b b' : OrderBook) (f : ExpectedFill)
    → Fits b qty
    → LimitOutcome is_buy limit qty b b' f
    → LimitOutcome is_buy limit qty b b' f × IsExact f.filled_qty × IsExact f.remaining_qty
limit-IsExact is_buy limit qty b b' f h r =
    let offered = depth-IsExact (crosses is_buy limit) _ (opposite-IsExact is_buy b qty h) in
    let traded = subst IsExact (sym r.traded) (min-IsExact qty _ h.quantity offered) in
    (r, traded, difference-IsExact f.filled_qty f.remaining_qty qty r.left traded h.quantity)

market-IsExact :
    (is_buy : Bool) (qty : ℕ) (b b' : OrderBook) (f : ExpectedFill)
    → Fits b qty
    → MarketOutcome is_buy qty b b' f
    → MarketOutcome is_buy qty b b' f
      × IsExact f.filled_qty
      × IsExact (side_volume (opposite is_buy b'))
market-IsExact is_buy qty b b' f h r =
    let offered = depth-IsExact (λ p. true) _ (opposite-IsExact is_buy b qty h) in
    let traded = subst IsExact (sym r.traded) (min-IsExact qty _ h.quantity offered) in
    let left : f.filled_qty + side_volume (opposite is_buy b') ≡ side_volume (opposite is_buy b) =
      omega (arith, r.taken) in
    (r, traded, difference-IsExact f.filled_qty _ _ left traded offered)

limit_buys-lem :
    (b : OrderBook) (o : Order)
    → IsValid b
    → o.order_type ≡ limit_buy
    → LimitOutcome true o.price o.quantity b (process_order b o).0 (process_order b o).1
unfolding process_order
limit_buys-lem b o v e = rw (e, dispatch) (limit_buys-outcome b _ v)

limit_sells-lem :
    (b : OrderBook) (o : Order)
    → IsValid b
    → o.order_type ≡ limit_sell
    → LimitOutcome false o.price o.quantity b (process_order b o).0 (process_order b o).1
unfolding process_order
limit_sells-lem b o v e = rw (e, dispatch) (limit_sells-outcome b _ v)

market_buys-lem :
    (b : OrderBook) (o : Order)
    → IsValid b
    → o.order_type ≡ market_buy
    → MarketOutcome true o.quantity b (process_order b o).0 (process_order b o).1
unfolding process_order
market_buys-lem b o v e = rw (e, dispatch) (market_buys-outcome b _ v)

market_sells-lem :
    (b : OrderBook) (o : Order)
    → IsValid b
    → o.order_type ≡ market_sell
    → MarketOutcome false o.quantity b (process_order b o).0 (process_order b o).1
unfolding process_order
market_sells-lem b o v e = rw (e, dispatch) (market_sells-outcome b _ v)

-- On a valid book, where the amounts of the book and of the order are multiples of 1/512 and
-- together below 2 ^ 44, so that float64 rounds none of them: a limit order trades the lesser of
-- its quantity and what the opposite side offers within its limit, at a price within the limit; it
-- is told what is left, and as its status pending, partial or filled accordingly; the opposite
-- side loses what was traded and its own side gains what is left; and what was traded and what is
-- left are multiples of 1/512 again.
pub process_order-limit :
    (is_buy : Bool) (b : OrderBook) (o : Order)
    → IsValid b
    → Fits b o.quantity
    → o.order_type ≡ limit_type is_buy
    → let (b', f) = process_order b o in
      LimitOutcome is_buy o.price o.quantity b b' f × IsExact f.filled_qty × IsExact f.remaining_qty
process_order-limit true b o v h e =
    limit-IsExact true o.price o.quantity b _ _ h (limit_buys-lem b o v e)
process_order-limit false b o v h e =
    limit-IsExact false o.price o.quantity b _ _ h (limit_sells-lem b o v e)

-- On a valid book, where the amounts of the book and of the order are multiples of 1/512 and
-- together below 2 ^ 44, so that float64 rounds none of them: a market order trades the lesser of
-- its quantity and all that the opposite side holds; it is rejected if that is nothing, and else
-- told whether it is filled, and what is left if it is not; the opposite side loses what was traded
-- and its own side stays as it is; and what was traded and what the opposite side then holds are
-- multiples of 1/512 again.
pub process_order-market :
    (is_buy : Bool) (b : OrderBook) (o : Order)
    → IsValid b
    → Fits b o.quantity
    → o.order_type ≡ market_type is_buy
    → let (b', f) = process_order b o in
      MarketOutcome is_buy o.quantity b b' f
      × IsExact f.filled_qty
      × IsExact (side_volume (opposite is_buy b'))
process_order-market true b o v h e =
    market-IsExact true o.quantity b _ _ h (market_buys-lem b o v e)
process_order-market false b o v h e =
    market-IsExact false o.quantity b _ _ h (market_sells-lem b o v e)
