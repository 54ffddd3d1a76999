-- ===== src/Tests/Book.antt =====
-- The matching engine on a small book.
use alpha_exchange.Base.{ℕ, ◌*◌, ◌≤◌, ◌≡◌, refl, List, [], ◌∷◌, arith, true, false, String}
use alpha_exchange.Ingester.Book.{
  OrderBook, Order, OrderType, limit_buy, limit_sell, market_sell, PriceLevel, partial,
  process_order, limit_buys, match_limit, match_limit_loop, match_orders, report, crosses,
}
use alpha_exchange.Reference
use alpha_exchange.Reference.Agreement.{
  ingester_book, ingester_order, ingester_result, submit-process_order,
}
use alpha_exchange.BotFleet.ShadowBook.{add_order}
use alpha_exchange.BotFleet.ShadowBook.Agreement.{
  bot_book, bot_order, bot_result, add_order-process_order,
}
use alpha_exchange.Ingester.Book.Valid.{IsValid, process_order-IsValid}
use alpha_exchange.Ingester.Book.Outcomes.{LimitOutcome, MarketOutcome}
use alpha_exchange.Ingester.Book.Fills.{process_order-limit, process_order-market}
use alpha_exchange.Ingester.Book.Sweep.{side_volume}
use alpha_exchange.Ingester.Book.Grid.{IsExact, Fits}
use alpha_exchange.Ingester.Book.Queue.{queues}
use alpha_exchange.Ingester.Book.Queue.Refinement.{observe, serve, process_order-serve}

abbrev order : String → OrderType → ℕ → ℕ → Order
order id ty price qty = record {
  id = id;
  contestant_id = "c";
  order_type = ty;
  price = price;
  quantity = qty;
  remaining_qty = qty;
  submitted_at = 1;
}

abbrev level : ℕ → List Order → PriceLevel
level price orders = record { price = price; orders = orders }

abbrev two_sided : OrderBook
two_sided = record {
  bids = level 99 (order "b" limit_buy 99 5 ∷ []) ∷ [];
  asks =
      level 101 (order "a" limit_sell 101 4 ∷ [])
      ∷ level 102 (order "d" limit_sell 102 6 ∷ [])
      ∷ [];
  keys = "b" ∷ "a" ∷ "d" ∷ [];
}

two_sided-IsValid : IsValid two_sided
two_sided-IsValid = ground arith

abbrev taker : Order
taker = order "t" limit_buy 101 7

abbrev seller : Order
seller = order "s" market_sell 0 9

taker_partial : (process_order two_sided taker).1.status ≡ partial
unfolding process_order limit_buys match_limit match_limit_loop match_orders report crosses
taker_partial = refl

process_order-IsValid_example : IsValid (process_order two_sided taker).0
process_order-IsValid_example = process_order-IsValid two_sided taker two_sided-IsValid

-- A book and orders of whole amounts.
abbrev whole : OrderBook
whole = record {
  bids = level 99 (order "b" limit_buy 99 5_000_000_000 ∷ []) ∷ [];
  asks =
      level 101 (order "a" limit_sell 101 4_000_000_000 ∷ [])
      ∷ level 102 (order "d" limit_sell 102 6_000_000_000 ∷ [])
      ∷ [];
  keys = "b" ∷ "a" ∷ "d" ∷ [];
}

whole-IsValid : IsValid whole
whole-IsValid = ground arith

whole-Fits : (n : ℕ) → n ≤ 9 → Fits whole (n * 1_000_000_000)
whole-Fits n h = record {
  quantity = (n * 512, omega arith);
  bids = (((2560, refl), tt), tt);
  asks = (((2048, refl), tt), (((3072, refl), tt), tt));
  in_range = omega (arith, h);
}

abbrev whole_taker : Order
whole_taker = order "t" limit_buy 101 7_000_000_000

abbrev whole_seller : Order
whole_seller = order "s" market_sell 0 9_000_000_000

process_order-limit_example :
    let (b', f) = process_order whole whole_taker in
    LimitOutcome true 101 7_000_000_000 whole b' f × IsExact f.filled_qty × IsExact f.remaining_qty
process_order-limit_example =
    process_order-limit true whole whole_taker whole-IsValid (whole-Fits 7 (omega arith)) refl

process_order-market_example :
    let (b', f) = process_order whole whole_seller in
    MarketOutcome false 9_000_000_000 whole b' f
    × IsExact f.filled_qty
    × IsExact (side_volume b'.bids)
process_order-market_example =
    process_order-market false whole whole_seller whole-IsValid (whole-Fits 9 (omega arith)) refl

process_order-serve_example :
    observe (process_order two_sided taker) ≡ serve (queues two_sided) taker
process_order-serve_example = process_order-serve two_sided taker two_sided-IsValid

ref_order : Reference.Order
ref_order = record {
  id = "t";
  order_type = Reference.limit_sell;
  price = 98;
  quantity = 7;
  remaining_qty = 0;
  seq = 4;
}

ref_book : Reference.OrderBook
ref_book = record {
  bids =
      record {
        price = 99;
        orders =
            record {
              id = "b";
              order_type = Reference.limit_buy;
              price = 99;
              quantity = 5;
              remaining_qty = 5;
              seq = 1;
            }
            ∷ [];
      }
      ∷ [];
  asks = [];
  lookup = "b" ∷ [];
}

submit-process_order_example :
    process_order (ingester_book "c" ref_book) (ingester_order "c" ref_order)
    ≡ ingester_result "c" (Reference.submit ref_book ref_order)
unfolding ref_order
submit-process_order_example = submit-process_order "c" ref_book ref_order refl

add_order-process_order_example :
    add_order (bot_book two_sided) (bot_order taker) ≡ bot_result (process_order two_sided taker)
add_order-process_order_example = add_order-process_order two_sided taker (λ e. cc)
