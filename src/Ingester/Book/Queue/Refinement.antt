-- ===== src/Ingester/Book/Queue/Refinement.antt =====
-- The matching engine against its specification over two priority queues.
use alpha_exchange.Base.{
  ◌≡◌, refl, arith, ltb, if◌then◌else◌, Bool-cases, true, false, inl, inr, none, some, String, has,
  delete, assign,
}
use alpha_exchange.Ingester.Book.{
  OrderBook, Order, OrderType, market_buy, market_sell, limit_buy, limit_sell, cancel_order,
  other_type, start, ExpectedFill, only, pending_fill, rejected, cancel_fill, crosses, report,
  match_limit, match_market, limit_buys, limit_sells, market_buys, market_sells, cancel, dispatch,
  process_order, remove_order,
}
use alpha_exchange.Ingester.Book.Sweep.{sweep, match_limit_loop-sweep, match_market_loop-sweep}
use alpha_exchange.Ingester.Book.Depth.{crosses-Monotone}
use alpha_exchange.Ingester.Book.Place.{insert-place}
use alpha_exchange.Ingester.Book.Valid.{IsValid}
use alpha_exchange.Ingester.Book.Queue.{Queues, queues, consume, enqueue, sweep-consume}
use alpha_exchange.Ingester.Book.Queue.Enqueue.{flatten-place}
use alpha_exchange.Ingester.Book.Queue.Withdraw.{remove_order-flatten}

-- The specification: match the front of the other side's queue, and queue up what is left.
serve_limit_buy : Queues → Order → Queues × ExpectedFill
serve_limit_buy q o =
    let (asks, t) = consume (crosses true o.price) q.asks (start o.remaining_qty q.keys) in
    let rested = record o { remaining_qty = t.remaining } in
    (
      if ltb 0 t.remaining
          then record { bids = enqueue false rested q.bids; asks = asks; keys = assign o.id t.keys }
          else record q { asks = asks; keys = t.keys },
      report (pending_fill t.remaining) t,
    )

serve_limit_sell : Queues → Order → Queues × ExpectedFill
serve_limit_sell q o =
    let (bids, t) = consume (crosses false o.price) q.bids (start o.remaining_qty q.keys) in
    let rested = record o { remaining_qty = t.remaining } in
    (
      if ltb 0 t.remaining
          then record { bids = bids; asks = enqueue true rested q.asks; keys = assign o.id t.keys }
          else record q { bids = bids; keys = t.keys },
      report (pending_fill t.remaining) t,
    )

serve_market_buy : Queues → Order → Queues × ExpectedFill
serve_market_buy q o =
    let (asks, t) = consume (λ _. true) q.asks (start o.remaining_qty q.keys) in
    (record q { asks = asks; keys = t.keys }, report (only rejected) t)

serve_market_sell : Queues → Order → Queues × ExpectedFill
serve_market_sell q o =
    let (bids, t) = consume (λ _. true) q.bids (start o.remaining_qty q.keys) in
    (record q { bids = bids; keys = t.keys }, report (only rejected) t)

-- The bids are searched before the asks; a key that neither has is still given up.
withdraw : Queues → String → Queues
withdraw q k = elim (remove_order k q.bids) [
  | some rs ↦ record q { bids = rs; keys = delete k q.keys }
  | none ↦ elim (remove_order k q.asks) [
    | some rs ↦ record q { asks = rs; keys = delete k q.keys }
    | none ↦ record q { keys = delete k q.keys }
  ]
]

serve_cancel : Queues → String → Queues × ExpectedFill
unfolding withdraw
serve_cancel q k = if has k q.keys then (withdraw q k, cancel_fill true) else (q, cancel_fill false)

serve_as : OrderType → Queues → Order → Queues × ExpectedFill
serve_as market_buy q o = serve_market_buy q o
serve_as market_sell q o = serve_market_sell q o
serve_as limit_buy q o = serve_limit_buy q o
serve_as limit_sell q o = serve_limit_sell q o
serve_as cancel_order q o = serve_cancel q o.id
serve_as (other_type s) q o = (q, only rejected)

pub serve : Queues → Order → Queues × ExpectedFill
unfolding serve_as
serve q o = serve_as o.order_type q (record o { remaining_qty = o.quantity })

-- A call of the book, seen through its queues.
abbrev pub observe : OrderBook × ExpectedFill → Queues × ExpectedFill
observe r = (queues r.0, r.1)

module _ (b : OrderBook) (o : Order) (v : IsValid b) where
  limit_buys-serve : observe (limit_buys b o) ≡ serve_limit_buy (queues b) o
  unfolding limit_buys match_limit serve_limit_buy
  limit_buys-serve =
      let t = start o.remaining_qty b.keys in
      let sw = sweep (crosses true o.price) b.asks t in
      rw
        (
          match_limit_loop-sweep true o.price b.asks t,
          sweep-consume true (crosses true o.price) b.asks t (crosses-Monotone true o.price)
              v.asks_sorted v.asks_live,
        )
        (elim (Bool-cases (ltb 0 sw.1.remaining)) [
          | inr e ↦ rw e
          | inl e ↦
              rw (e, insert-place false _ b.bids v.bids_sorted)
                (rw (flatten-place false _ b.bids v.bids_sorted v.bids_live) refl)
        ])

  limit_sells-serve : observe (limit_sells b o) ≡ serve_limit_sell (queues b) o
  unfolding limit_sells match_limit serve_limit_sell
  limit_sells-serve =
      let t = start o.remaining_qty b.keys in
      let sw = sweep (crosses false o.price) b.bids t in
      rw
        (
          match_limit_loop-sweep false o.price b.bids t,
          sweep-consume false (crosses false o.price) b.bids t (crosses-Monotone false o.price)
              v.bids_sorted v.bids_live,
        )
        (elim (Bool-cases (ltb 0 sw.1.remaining)) [
          | inr e ↦ rw e
          | inl e ↦
              rw (e, insert-place true _ b.asks v.asks_sorted)
                (rw (flatten-place true _ b.asks v.asks_sorted v.asks_live) refl)
        ])

  market_buys-serve : observe (market_buys b o) ≡ serve_market_buy (queues b) o
  unfolding market_buys match_market serve_market_buy
  market_buys-serve =
      let t = start o.remaining_qty b.keys in
      rw (
        match_market_loop-sweep b.asks t,
        sweep-consume true (λ _. true) b.asks t (λ p q h e. e) v.asks_sorted v.asks_live,
      )

  market_sells-serve : observe (market_sells b o) ≡ serve_market_sell (queues b) o
  unfolding market_sells match_market serve_market_sell
  market_sells-serve =
      let t = start o.remaining_qty b.keys in
      rw (
        match_market_loop-sweep b.bids t,
        sweep-consume false (λ _. true) b.bids t (λ p q h e. e) v.bids_sorted v.bids_live,
      )

cancel-serve :
    (b : OrderBook) (k : String)
    → (queues (cancel b k).0, cancel_fill (cancel b k).1) ≡ serve_cancel (queues b) k
unfolding cancel serve_cancel
cancel-serve b k = ground (arith, remove_order-flatten k b.bids, remove_order-flatten k b.asks)

dispatch-serve :
    (ty : OrderType) (b : OrderBook) (o : Order)
    → IsValid b
    → observe (dispatch ty b o) ≡ serve_as ty (queues b) o
unfolding dispatch serve_as
dispatch-serve market_buy b o v = market_buys-serve b o v
dispatch-serve market_sell b o v = market_sells-serve b o v
dispatch-serve limit_buy b o v = limit_buys-serve b o v
dispatch-serve limit_sell b o v = limit_sells-serve b o v
dispatch-serve cancel_order b o v = cancel-serve b o.id
dispatch-serve (other_type s) b o v = refl

-- On a valid book every call does to the two sides what price-time priority asks, and returns
-- the fill that it asks: the queues of the levels after the call, with the fill, are those that
-- the specification `serve` computes from the queues before it.
pub process_order-serve :
    (b : OrderBook) (o : Order) → IsValid b → observe (process_order b o) ≡ serve (queues b) o
unfolding process_order serve
process_order-serve b o v = dispatch-serve o.order_type b _ v
