-- ===== src/Ingester/Book/Sweep.antt =====
-- The outer loops of the matching engine, both as one sweep over the levels that cross.
use alpha_exchange.Base.{
  ℕ, ◌+◌, ◌<◌, ◌≡◌, refl, ◌⊎◌, inl, inr, List, [], ◌∷◌, arith, All, total, Bool, true, false, not,
  if◌then◌else◌, ◌==◌, is_empty,
}
use alpha_exchange.Ingester.Book.{
  PriceLevel, Taker, match_orders, match_market_loop, match_limit_loop, crosses,
}
use alpha_exchange.Ingester.Book.Fill.{
  volume, Rests, match_orders-Facts, match_orders-Rests, match_orders-last_px,
}

-- The loop of `matchLimit`, over any test of a level's price.
unfoldable pub sweep : (ℕ → Bool) → List PriceLevel → Taker → List PriceLevel × Taker
sweep cross [] t = ([], t)
sweep cross (l ∷ ls) t =
    let (os, t') = match_orders l.price l.orders t in
    let rest = sweep cross ls t' in
    if t.remaining == 0
    then (l ∷ ls, t)
    else if not (cross l.price)
    then (l ∷ ls, t)
    else if is_empty os
    then rest
    else (record l { orders = os } ∷ ls, t')

pub match_limit_loop-sweep :
    (is_buy : Bool) (limit : ℕ) (ls : List PriceLevel) (t : Taker)
    → match_limit_loop is_buy limit ls t ≡ sweep (crosses is_buy limit) ls t
unfolding match_limit_loop sweep
match_limit_loop-sweep is_buy limit [] t = refl
match_limit_loop-sweep is_buy limit (l ∷ ls) t =
    rw (match_limit_loop-sweep is_buy limit ls (match_orders l.price l.orders t).1)

pub match_market_loop-sweep :
    (ls : List PriceLevel) (t : Taker) → match_market_loop ls t ≡ sweep (λ _. true) ls t
unfolding match_market_loop sweep
match_market_loop-sweep [] t = refl
match_market_loop-sweep (l ∷ ls) t =
    rw (match_market_loop-sweep ls (match_orders l.price l.orders t).1)

-- Prices in priority order: falling among bids, rising among asks.
abbrev pub Before : Bool → ℕ → ℕ → Type 0
Before true p q = p < q
Before false p q = q < p

abbrev pub Sorted : Bool → List PriceLevel → Type 0
Sorted asc [] = Unit {0}
Sorted asc (l ∷ ls) = All (λ m. Before asc l.price m.price) ls × Sorted asc ls

abbrev pub Live : List PriceLevel → Type 0
Live = All (λ l. All (Rests l.price) l.orders)

abbrev pub side_volume : List PriceLevel → ℕ
side_volume = total (λ l. volume l.orders)

-- The quantity on offer at the prices that cross.
abbrev pub depth : (ℕ → Bool) → List PriceLevel → ℕ
depth cross = total (λ l. if cross l.price then volume l.orders else 0)

pub sweep-conserves :
    (cross : ℕ → Bool) (ls : List PriceLevel) (t : Taker)
    → let (os, t') = sweep cross ls t in
      (t'.filled + t'.remaining ≡ t.filled + t.remaining)
      × (side_volume os + t'.filled ≡ side_volume ls + t.filled)
unfolding sweep
sweep-conserves cross [] t = (refl, refl)
sweep-conserves cross (l ∷ ls) t = ground (
  arith,
  match_orders-Facts l.price l.orders t,
  sweep-conserves cross ls (match_orders l.price l.orders t).1,
)

pub sweep-Live :
    (cross : ℕ → Bool) (ls : List PriceLevel) (t : Taker) → Live ls → Live (sweep cross ls t).0
unfolding sweep
sweep-Live cross [] t h = tt
sweep-Live cross (l ∷ ls) t h = ground (
  arith,
  match_orders-Rests l.price l.orders t h.0,
  sweep-Live cross ls (match_orders l.price l.orders t).1,
)

-- The levels that are left had their prices before.
pub sweep-prices {κ} :
    (P : ℕ → Type κ) (cross : ℕ → Bool) (ls : List PriceLevel) (t : Taker)
    → All (λ l. P l.price) ls
    → All (λ l. P l.price) (sweep cross ls t).0
unfolding sweep
sweep-prices P cross [] t h = tt
sweep-prices P cross (l ∷ ls) t h =
    ground (arith, sweep-prices P cross ls (match_orders l.price l.orders t).1 h.1)

pub sweep-Sorted :
    (asc : Bool) (cross : ℕ → Bool) (ls : List PriceLevel) (t : Taker)
    → Sorted asc ls
    → Sorted asc (sweep cross ls t).0
unfolding sweep
sweep-Sorted asc cross [] t h = tt
sweep-Sorted asc cross (l ∷ ls) t h =
    ground (arith, sweep-Sorted asc cross ls (match_orders l.price l.orders t).1)

-- If the taker is not served, no level that crosses is left at the front.
pub sweep-front :
    (cross : ℕ → Bool) (ls : List PriceLevel) (t : Taker)
    → ((sweep cross ls t).1.remaining ≡ 0)
      ⊎ ((sweep cross ls t).0 ≡ [])
      ⊎ ((m : PriceLevel) × (ms : List PriceLevel) × ((sweep cross ls t).0 ≡ m ∷ ms)
          × (cross m.price ≡ false))
unfolding sweep
sweep-front cross [] t = inr (inl refl)
sweep-front cross (l ∷ ls) t = ground (
  arith,
  match_orders-Facts l.price l.orders t,
  sweep-front cross ls (match_orders l.price l.orders t).1,
)

-- Every trade is at a price that crosses.
pub sweep-last_px :
    (cross : ℕ → Bool) (ls : List PriceLevel) (t : Taker)
    → ((sweep cross ls t).1 ≡ t) ⊎ (cross (sweep cross ls t).1.last_px ≡ true)
unfolding sweep
sweep-last_px cross [] t = inl refl
sweep-last_px cross (l ∷ ls) t = ground (
  arith,
  match_orders-last_px l.price l.orders t,
  sweep-last_px cross ls (match_orders l.price l.orders t).1,
)
