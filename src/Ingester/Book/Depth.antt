-- ===== src/Ingester/Book/Depth.antt =====
-- How much a sweep trades, stated without the loop.
use Prim.Native.Nat.{min}
use alpha_exchange.Base.{ℕ, ◌+◌, ◌≡◌, refl, List, [], ◌∷◌, arith, All, Bool, true, false}
use alpha_exchange.Ingester.Book.{PriceLevel, Taker, match_orders, crosses}
use alpha_exchange.Ingester.Book.Fill.{match_orders-Facts}
use alpha_exchange.Ingester.Book.Sweep.{sweep, Before, Sorted, depth}

-- A test that, where it crosses a price, crosses every better one.
abbrev pub Monotone : Bool → (ℕ → Bool) → Type 0
Monotone asc cross = (p q : ℕ) → Before asc p q → cross p ≡ false → cross q ≡ false

pub crosses-Monotone : (is_buy : Bool) (limit : ℕ) → Monotone is_buy (crosses is_buy limit)
unfolding crosses
crosses-Monotone true limit p q h e = ground arith
crosses-Monotone false limit p q h e = ground arith

depth_behind :
    (asc : Bool) (cross : ℕ → Bool) (p : ℕ) (ls : List PriceLevel)
    → Monotone asc cross
    → All (λ m. Before asc p m.price) ls
    → cross p ≡ false
    → depth cross ls ≡ 0
depth_behind asc cross p [] mono h e = refl
depth_behind asc cross p (l ∷ ls) mono h e =
    ground (arith, mono p l.price h.0 e, depth_behind asc cross p ls mono h.1 e)

-- A sweep trades the lesser of what is asked for and what is on offer at the prices that cross.
pub sweep-depth :
    (asc : Bool) (cross : ℕ → Bool) (ls : List PriceLevel) (t : Taker)
    → Monotone asc cross
    → Sorted asc ls
    → (sweep cross ls t).1.filled ≡ t.filled + min t.remaining (depth cross ls)
unfolding sweep
sweep-depth asc cross [] t mono h = omega arith
sweep-depth asc cross (l ∷ ls) t mono h = ground (
  arith,
  match_orders-Facts l.price l.orders t,
  depth_behind asc cross l.price ls mono h.0,
  sweep-depth asc cross ls (match_orders l.price l.orders t).1 mono h.1,
)
