-- ===== src/Ingester/Book/Valid.antt =====
-- What holds of the book between two calls, and that every call keeps it.
use alpha_exchange.Base.{
  ℕ, ◌<◌, ◌≡◌, List, ◌∷◌, arith, All, All-map, All-×, ltb, Option-cases, String, Bool, Bool-cases,
  inl, inr, true, false, has,
}
use alpha_exchange.Ingester.Book.{
  OrderBook, Order, OrderType, market_buy, market_sell, limit_buy, limit_sell, cancel_order,
  other_type, PriceLevel, Taker, start, crosses, match_limit, match_market, new_order_book,
  limit_buys, limit_sells, market_buys, market_sells, cancel, dispatch, process_order, remove_level,
}
use alpha_exchange.Ingester.Book.Sweep.{
  sweep, Before, Sorted, Live, match_limit_loop-sweep, match_market_loop-sweep, sweep-Live,
  sweep-Sorted, sweep-prices, sweep-front,
}
use alpha_exchange.Ingester.Book.Place.{place, insert-place, place-prices, place-Sorted, place-Live}
use alpha_exchange.Ingester.Book.Removal.{
  remove_level-prices, remove_level-Sorted, remove_level-Live,
}

abbrev Uncrossed : List PriceLevel → List PriceLevel → Type 0
Uncrossed bids asks = All (λ l. All (λ m. l.price < m.price) asks) bids

pub record IsValid (b : OrderBook) : Type 0 where
  pub bids_sorted : Sorted false b.bids
  pub asks_sorted : Sorted true b.asks
  pub bids_live : Live b.bids
  pub asks_live : Live b.asks
  pub uncrossed : Uncrossed b.bids b.asks

pub new_order_book-IsValid : IsValid new_order_book
unfolding new_order_book
new_order_book-IsValid = ground arith

-- Behind a level that does not cross, no level does.
beyond :
    (is_buy : Bool) (limit : ℕ) (m : PriceLevel) (ms : List PriceLevel)
    → Sorted is_buy (m ∷ ms)
    → crosses is_buy limit m.price ≡ false
    → All (λ l. Before is_buy limit l.price) (m ∷ ms)
unfolding crosses
beyond true limit m ms h e = (ground arith, All-map _ _ (λ l k. ground arith) ms h.0)
beyond false limit m ms h e = (ground arith, All-map _ _ (λ l k. ground arith) ms h.0)

-- A limit order that is not served has swept every level within its limit.
sweep-beyond :
    (is_buy : Bool) (limit : ℕ) (ls : List PriceLevel) (t : Taker)
    → Sorted is_buy ls
    → 0 < (sweep (crosses is_buy limit) ls t).1.remaining
    → All (λ l. Before is_buy limit l.price) (sweep (crosses is_buy limit) ls t).0
sweep-beyond is_buy limit ls t h r = elim (sweep-front (crosses is_buy limit) ls t) [
  | inl z ↦ absurd (omega arith)
  | inr front ↦ elim front [
    | inl e ↦ rw e tt
    | inr (m, ms, e, c) ↦
        let sorted = sweep-Sorted is_buy (crosses is_buy limit) ls t h in
        rw e (beyond is_buy limit m ms (rw e at sorted) c)
  ]
]

module _ (b : OrderBook) (o : Order) (v : IsValid b) where
  buy_sweep : List PriceLevel × Taker
  buy_sweep = sweep (crosses true o.price) b.asks (start o.remaining_qty b.keys)

  sell_sweep : List PriceLevel × Taker
  sell_sweep = sweep (crosses false o.price) b.bids (start o.remaining_qty b.keys)

  swept_asks : Uncrossed b.bids buy_sweep.0
  unfolding buy_sweep
  swept_asks = All-map _ _ (λ l h. sweep-prices (λ p. l.price < p) _ b.asks _ h) b.bids v.uncrossed

  swept_bids : Uncrossed sell_sweep.0 b.asks
  unfolding sell_sweep
  swept_bids = sweep-prices (λ p. All (λ m. p < m.price) b.asks) _ b.bids _ v.uncrossed

  limit_buys-IsValid : IsValid (limit_buys b o).0
  unfolding limit_buys match_limit buy_sweep
  limit_buys-IsValid =
      rw (match_limit_loop-sweep true o.price b.asks (start o.remaining_qty b.keys))
        (elim (Bool-cases (ltb 0 buy_sweep.1.remaining)) [
          | inr e ↦ rw e (record {
            bids_sorted = v.bids_sorted;
            asks_sorted = sweep-Sorted true _ b.asks _ v.asks_sorted;
            bids_live = v.bids_live;
            asks_live = sweep-Live _ b.asks _ v.asks_live;
            uncrossed = swept_asks;
          })
          | inl e ↦
              rw
                (
                  e,
                  insert-place false (record o { remaining_qty = buy_sweep.1.remaining }) b.bids
                      v.bids_sorted,
                )
                (record {
                  bids_sorted = place-Sorted false _ b.bids v.bids_sorted;
                  asks_sorted = sweep-Sorted true _ b.asks _ v.asks_sorted;
                  bids_live = place-Live false _ b.bids (ground arith) v.bids_live;
                  asks_live = sweep-Live _ b.asks _ v.asks_live;
                  uncrossed =
                      place-prices (λ p. All (λ m. p < m.price) buy_sweep.0) false _ b.bids
                        (sweep-beyond true o.price b.asks _ v.asks_sorted (ground arith))
                        swept_asks;
                })
        ])

  -- The asks get a price above every bid that the sweep has left.
  placed_asks :
      (rem : ℕ)
      → 0 < sell_sweep.1.remaining
      → Uncrossed sell_sweep.0 (place true (record o { remaining_qty = rem }) b.asks)
  unfolding sell_sweep
  placed_asks rem r =
      All-map _ _
        (λ l h.
          place-prices (λ p. l.price < p) true (record o { remaining_qty = rem }) b.asks h.0 h.1)
        sell_sweep.0
        (All-× _ _ sell_sweep.0 (sweep-beyond false o.price b.bids _ v.bids_sorted r) swept_bids)

  limit_sells-IsValid : IsValid (limit_sells b o).0
  unfolding limit_sells match_limit sell_sweep
  limit_sells-IsValid =
      rw (match_limit_loop-sweep false o.price b.bids (start o.remaining_qty b.keys))
        (elim (Bool-cases (ltb 0 sell_sweep.1.remaining)) [
          | inr e ↦ rw e (record {
            bids_sorted = sweep-Sorted false _ b.bids _ v.bids_sorted;
            asks_sorted = v.asks_sorted;
            bids_live = sweep-Live _ b.bids _ v.bids_live;
            asks_live = v.asks_live;
            uncrossed = swept_bids;
          })
          | inl e ↦
              rw
                (
                  e,
                  insert-place true (record o { remaining_qty = sell_sweep.1.remaining }) b.asks
                      v.asks_sorted,
                )
                (record {
                  bids_sorted = sweep-Sorted false _ b.bids _ v.bids_sorted;
                  asks_sorted = place-Sorted true _ b.asks v.asks_sorted;
                  bids_live = sweep-Live _ b.bids _ v.bids_live;
                  asks_live = place-Live true _ b.asks (ground arith) v.asks_live;
                  uncrossed = placed_asks sell_sweep.1.remaining (ground arith);
                })
        ])

  market_buys-IsValid : IsValid (market_buys b o).0
  unfolding market_buys match_market
  market_buys-IsValid = rw (match_market_loop-sweep b.asks (start o.remaining_qty b.keys)) (record {
    bids_sorted = v.bids_sorted;
    asks_sorted = sweep-Sorted true _ b.asks _ v.asks_sorted;
    bids_live = v.bids_live;
    asks_live = sweep-Live _ b.asks _ v.asks_live;
    uncrossed =
        All-map _ _ (λ l h. sweep-prices (λ p. l.price < p) _ b.asks _ h) b.bids v.uncrossed;
  })

  market_sells-IsValid : IsValid (market_sells b o).0
  unfolding market_sells match_market
  market_sells-IsValid =
      rw (match_market_loop-sweep b.bids (start o.remaining_qty b.keys)) (record {
        bids_sorted = sweep-Sorted false _ b.bids _ v.bids_sorted;
        asks_sorted = v.asks_sorted;
        bids_live = sweep-Live _ b.bids _ v.bids_live;
        asks_live = v.asks_live;
        uncrossed = sweep-prices (λ p. All (λ m. p < m.price) b.asks) _ b.bids _ v.uncrossed;
      })

-- The cases of a cancel that finds the key.
cancel-IsValid : (b : OrderBook) (k : String) → IsValid b → IsValid (cancel b k).0
unfolding cancel
cancel-IsValid b k v = elim (Bool-cases (has k b.keys)) [
  | inr e ↦ rw e v
  | inl e ↦ rw e (elim (Option-cases (remove_level k b.bids)) [
    | inr (ls, d) ↦
        rw (d, cancel)
          (record {
            bids_sorted = remove_level-Sorted false k b.bids ls d v.bids_sorted;
            asks_sorted = v.asks_sorted;
            bids_live = remove_level-Live k b.bids ls d v.bids_live;
            asks_live = v.asks_live;
            uncrossed =
                remove_level-prices (λ p. All (λ m. p < m.price) b.asks) k b.bids ls d v.uncrossed;
          })
    | inl d ↦
        rw (d, cancel)
          (elim (Option-cases (remove_level k b.asks)) [
            | inr (ms, c) ↦
                rw (c, cancel)
                  (record {
                    bids_sorted = v.bids_sorted;
                    asks_sorted = remove_level-Sorted true k b.asks ms c v.asks_sorted;
                    bids_live = v.bids_live;
                    asks_live = remove_level-Live k b.asks ms c v.asks_live;
                    uncrossed =
                        All-map _ _ (λ l h. remove_level-prices (λ p. l.price < p) k b.asks ms c h)
                          b.bids v.uncrossed;
                  })
            | inl c ↦
                rw (c, cancel)
                  (record {
                    bids_sorted = v.bids_sorted;
                    asks_sorted = v.asks_sorted;
                    bids_live = v.bids_live;
                    asks_live = v.asks_live;
                    uncrossed = v.uncrossed;
                  })
          ])
  ])
]

dispatch-IsValid :
    (ty : OrderType) (b : OrderBook) (o : Order) → IsValid b → IsValid (dispatch ty b o).0
unfolding dispatch
dispatch-IsValid market_buy b o v = market_buys-IsValid b o v
dispatch-IsValid market_sell b o v = market_sells-IsValid b o v
dispatch-IsValid limit_buy b o v = limit_buys-IsValid b o v
dispatch-IsValid limit_sell b o v = limit_sells-IsValid b o v
dispatch-IsValid cancel_order b o v = cancel-IsValid b o.id v
dispatch-IsValid (other_type s) b o v = v

-- Every order, whatever its type, leaves a valid book valid: both sides strictly sorted from the
-- best price on, every resting order with a quantity left and at the price of its level, and
-- every bid below every ask.
pub process_order-IsValid : (b : OrderBook) (o : Order) → IsValid b → IsValid (process_order b o).0
unfolding process_order
process_order-IsValid b o v = dispatch-IsValid o.order_type b _ v
