-- ===== src/Ingester/Book/Outcomes.antt =====
-- What the four cases of ProcessOrder that match tell an order, over the exact amounts of the model.
use Prim.Native.Nat.{min}
use alpha_exchange.Base.{
  ℕ, ◌+◌, ◌<◌, ◌≡◌, refl, List, arith, ◌∙◌, ltb, ◌==◌, if◌then◌else◌, Bool, Bool-cases, inl, inr,
  true, false, ◌⊎◌,
}
use alpha_exchange.Ingester.Book.{
  OrderBook, Order, OrderType, market_buy, market_sell, limit_buy, limit_sell, PriceLevel, Taker,
  start, Status, filled, partial, pending, rejected, ExpectedFill, only, pending_fill, crosses,
  report, match_limit, match_market, limit_buys, limit_sells, market_buys, market_sells,
}
use alpha_exchange.Ingester.Book.Sweep.{
  sweep, match_limit_loop-sweep, match_market_loop-sweep, sweep-conserves, sweep-last_px, depth,
  side_volume, Sorted,
}
use alpha_exchange.Ingester.Book.Depth.{Monotone, crosses-Monotone, sweep-depth}
use alpha_exchange.Ingester.Book.Place.{insert-place, side_volume-place}
use alpha_exchange.Ingester.Book.Valid.{IsValid}

abbrev pub own : Bool → OrderBook → List PriceLevel
own true b = b.bids
own false b = b.asks

abbrev pub opposite : Bool → OrderBook → List PriceLevel
opposite true b = b.asks
opposite false b = b.bids

abbrev pub limit_type : Bool → OrderType
limit_type true = limit_buy
limit_type false = limit_sell

abbrev pub market_type : Bool → OrderType
market_type true = market_buy
market_type false = market_sell

-- The status of an order for `qty`, with `offered` on offer to it.
abbrev pub status_for : Status → ℕ → ℕ → Status
status_for nothing qty offered =
    if min qty offered == 0 then nothing else if ltb offered qty then partial else filled

-- A fill of a match that traded `f.filled_qty`, at a price that crosses.
record Swept (cross : ℕ → Bool) (ls : List PriceLevel) (qty : ℕ) (ms : List PriceLevel) (t : Taker)
    : Type 0 where
  traded : t.filled ≡ min qty (depth cross ls)
  left : t.filled + t.remaining ≡ qty
  taken : side_volume ms + t.filled ≡ side_volume ls
  priced : (t.filled ≡ 0) ⊎ (cross t.last_px ≡ true)

sweep-Swept :
    (asc : Bool) (cross : ℕ → Bool) (ls : List PriceLevel) (qty : ℕ) (keys : List _)
    → Monotone asc cross
    → Sorted asc ls
    → Swept cross ls qty (sweep cross ls (start qty keys)).0 (sweep cross ls (start qty keys)).1
sweep-Swept asc cross ls qty keys mono h =
    let t = start qty keys in
    record {
      traded = omega (arith, sweep-depth asc cross ls t mono h);
      left = omega (arith, (sweep-conserves cross ls t).0);
      taken = omega (arith, (sweep-conserves cross ls t).1);
      priced = elim (sweep-last_px cross ls t) [ inl e ↦ inl (ground (arith, e)) | inr e ↦ inr e ];
    }

-- What a limit order is told, and what it does to the two sides.
pub record LimitOutcome (is_buy : Bool) (limit qty : ℕ) (b b' : OrderBook) (f : ExpectedFill)
    : Type 0 where
  pub traded : f.filled_qty ≡ min qty (depth (crosses is_buy limit) (opposite is_buy b))
  pub left : f.filled_qty + f.remaining_qty ≡ qty
  pub status : f.status ≡ status_for pending qty (depth (crosses is_buy limit) (opposite is_buy b))
  pub priced : 0 < f.filled_qty → crosses is_buy limit f.filled_price ≡ true
  pub taken : side_volume (opposite is_buy b') + f.filled_qty ≡ side_volume (opposite is_buy b)
  pub rested : side_volume (own is_buy b') ≡ side_volume (own is_buy b) + f.remaining_qty

-- The fill that `report` makes of a sweep by a limit order.
module _ (cross : ℕ → Bool) (ls : List PriceLevel) (qty : ℕ) (ms : List PriceLevel) (t : Taker)
    (w : Swept cross ls qty ms t) where
  limit_report_quantities :
      ((report (pending_fill t.remaining) t).filled_qty ≡ t.filled)
      × ((report (pending_fill t.remaining) t).remaining_qty ≡ t.remaining)
  unfolding report
  limit_report_quantities = ground (arith, w.left)

  limit_report_status :
      (report (pending_fill t.remaining) t).status ≡ status_for pending qty (depth cross ls)
  unfolding report
  limit_report_status = ground (arith, w.left, w.traded)

  limit_report_priced :
      0 < (report (pending_fill t.remaining) t).filled_qty
      → cross (report (pending_fill t.remaining) t).filled_price ≡ true
  unfolding report
  limit_report_priced h = ground (arith, w.priced)

module _ (b : OrderBook) (o : Order) (v : IsValid b) where
  pub limit_buys-outcome :
      LimitOutcome true o.price o.remaining_qty b (limit_buys b o).0 (limit_buys b o).1
  unfolding limit_buys match_limit
  limit_buys-outcome =
      let cross = crosses true o.price in
      let sw = sweep cross b.asks (start o.remaining_qty b.keys) in
      let w =
        sweep-Swept true cross b.asks o.remaining_qty b.keys (crosses-Monotone true o.price)
          v.asks_sorted in
      let qs = limit_report_quantities cross b.asks o.remaining_qty sw.0 sw.1 w in
      let st = limit_report_status cross b.asks o.remaining_qty sw.0 sw.1 w in
      let pr = limit_report_priced cross b.asks o.remaining_qty sw.0 sw.1 w in
      rw (match_limit_loop-sweep true o.price b.asks (start o.remaining_qty b.keys))
        (elim (Bool-cases (ltb 0 sw.1.remaining)) [
          | inr e ↦ rw e (record {
            traded = qs.0 ∙ w.traded;
            left = omega (arith, qs, w.left);
            status = st;
            priced = pr;
            taken = rw qs.0 w.taken;
            rested = rw qs.1 (ground arith);
          })
          | inl e ↦
              rw
                (
                  e,
                  insert-place false (record o { remaining_qty = sw.1.remaining }) b.bids
                      v.bids_sorted,
                )
                (record {
                  traded = qs.0 ∙ w.traded;
                  left = omega (arith, qs, w.left);
                  status = st;
                  priced = pr;
                  taken = rw qs.0 w.taken;
                  rested = rw qs.1 (side_volume-place false _ b.bids);
                })
        ])

  pub limit_sells-outcome :
      LimitOutcome false o.price o.remaining_qty b (limit_sells b o).0 (limit_sells b o).1
  unfolding limit_sells match_limit
  limit_sells-outcome =
      let cross = crosses false o.price in
      let sw = sweep cross b.bids (start o.remaining_qty b.keys) in
      let w =
        sweep-Swept false cross b.bids o.remaining_qty b.keys (crosses-Monotone false o.price)
          v.bids_sorted in
      let qs = limit_report_quantities cross b.bids o.remaining_qty sw.0 sw.1 w in
      let st = limit_report_status cross b.bids o.remaining_qty sw.0 sw.1 w in
      let pr = limit_report_priced cross b.bids o.remaining_qty sw.0 sw.1 w in
      rw (match_limit_loop-sweep false o.price b.bids (start o.remaining_qty b.keys))
        (elim (Bool-cases (ltb 0 sw.1.remaining)) [
          | inr e ↦ rw e (record {
            traded = qs.0 ∙ w.traded;
            left = omega (arith, qs, w.left);
            status = st;
            priced = pr;
            taken = rw qs.0 w.taken;
            rested = rw qs.1 (ground arith);
          })
          | inl e ↦
              rw
                (
                  e,
                  insert-place true (record o { remaining_qty = sw.1.remaining }) b.asks
                      v.asks_sorted,
                )
                (record {
                  traded = qs.0 ∙ w.traded;
                  left = omega (arith, qs, w.left);
                  status = st;
                  priced = pr;
                  taken = rw qs.0 w.taken;
                  rested = rw qs.1 (side_volume-place true _ b.asks);
                })
        ])

-- What a market order is told, and what it does to the two sides.
pub record MarketOutcome (is_buy : Bool) (qty : ℕ) (b b' : OrderBook) (f : ExpectedFill)
    : Type 0 where
  pub traded : f.filled_qty ≡ min qty (side_volume (opposite is_buy b))
  pub left : 0 < f.filled_qty → f.filled_qty + f.remaining_qty ≡ qty
  pub status : f.status ≡ status_for rejected qty (side_volume (opposite is_buy b))
  pub taken : side_volume (opposite is_buy b') + f.filled_qty ≡ side_volume (opposite is_buy b)
  pub untouched : own is_buy b' ≡ own is_buy b

-- The fill that `report` makes of a sweep by a market order.
market_report :
    (ls : List PriceLevel) (qty : ℕ) (ms : List PriceLevel) (t : Taker)
    → Swept (λ _. true) ls qty ms t
    → let f = report (only rejected) t in
      (f.filled_qty ≡ t.filled)
      × (0 < t.filled → f.filled_qty + f.remaining_qty ≡ qty)
      × (f.status ≡ status_for rejected qty (side_volume ls))
unfolding report
market_report ls qty ms t w =
    (ground (arith, w.left), ground (arith, w.left), ground (arith, w.left, w.traded))

module _ (b : OrderBook) (o : Order) (v : IsValid b) where
  pub market_buys-outcome :
      MarketOutcome true o.remaining_qty b (market_buys b o).0 (market_buys b o).1
  unfolding market_buys match_market
  market_buys-outcome =
      let sw = sweep (λ _. true) b.asks (start o.remaining_qty b.keys) in
      let w =
        sweep-Swept true (λ _. true) b.asks o.remaining_qty b.keys (λ p q h e. e) v.asks_sorted in
      let r = market_report b.asks o.remaining_qty sw.0 sw.1 w in
      rw (match_market_loop-sweep b.asks (start o.remaining_qty b.keys)) (record {
        traded = r.0 ∙ w.traded;
        left = λ h. r.1 (rw r.0 at h);
        status = r.2;
        taken = rw r.0 w.taken;
        untouched = refl;
      })

  pub market_sells-outcome :
      MarketOutcome false o.remaining_qty b (market_sells b o).0 (market_sells b o).1
  unfolding market_sells match_market
  market_sells-outcome =
      let sw = sweep (λ _. true) b.bids (start o.remaining_qty b.keys) in
      let w =
        sweep-Swept false (λ _. true) b.bids o.remaining_qty b.keys (λ p q h e. e) v.bids_sorted in
      let r = market_report b.bids o.remaining_qty sw.0 sw.1 w in
      rw (match_market_loop-sweep b.bids (start o.remaining_qty b.keys)) (record {
        traded = r.0 ∙ w.traded;
        left = λ h. r.1 (rw r.0 at h);
        status = r.2;
        taken = rw r.0 w.taken;
        untouched = refl;
      })
