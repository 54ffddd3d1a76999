-- ===== src/Ingester/Book/Grid.antt =====
-- The amounts of order_book.go on which float64 adds and subtracts exactly: the multiples of 1/512
-- below 2 ^ 44. 1/512 is 1_953_125 (5 ^ 9) billionths, and 2 ^ 44 is 2 ^ 53 of it, so float64 holds
-- these amounts, and their sums and differences below the bound: no operation of a match rounds.
use Prim.Native.Nat.{min}
use alpha_exchange.Base.{
  ℕ, ◌+◌, ◌-◌, ◌*◌, ◌<◌, ◌≡◌, ◌^◌, refl, List, [], ◌∷◌, arith, All, Bool, Bool-cases, inl, inr,
}
use alpha_exchange.Ingester.Book.{OrderBook, Order, PriceLevel}
use alpha_exchange.Ingester.Book.Fill.{volume}
use alpha_exchange.Ingester.Book.Sweep.{depth, side_volume}

-- A multiple of 1/512.
abbrev pub IsExact : ℕ → Type 0
IsExact n = (k : ℕ) × (n ≡ k * 1_953_125)

abbrev pub IsExactSide : List PriceLevel → Type 0
IsExactSide = All (λ l. All (λ o. IsExact o.remaining_qty) l.orders)

-- The amounts of a book and of an order for it: all are multiples, and together below the bound.
pub record Fits (b : OrderBook) (qty : ℕ) : Type 0 where
  pub quantity : IsExact qty
  pub bids : IsExactSide b.bids
  pub asks : IsExactSide b.asks
  pub in_range : qty + side_volume b.bids + side_volume b.asks < 2 ^ 53 * 1_953_125

pub sum-IsExact : (m n : ℕ) → IsExact m → IsExact n → IsExact (m + n)
sum-IsExact m n (j, e) (k, f) = (j + k, omega (arith, e, f))

pub difference-IsExact : (m n s : ℕ) → m + n ≡ s → IsExact m → IsExact s → IsExact n
difference-IsExact m n s h (j, e) (k, f) = (k - j, omega (arith, h, e, f))

pub min-IsExact : (m n : ℕ) → IsExact m → IsExact n → IsExact (min m n)
min-IsExact m n (j, e) (k, f) = (min j k, omega (arith, e, f))

volume-IsExact : (os : List Order) → All (λ o. IsExact o.remaining_qty) os → IsExact (volume os)
volume-IsExact [] h = (0, refl)
volume-IsExact (o ∷ os) (h, k) = sum-IsExact o.remaining_qty (volume os) h (volume-IsExact os k)

pub depth-IsExact :
    (cross : ℕ → Bool) (ls : List PriceLevel) → IsExactSide ls → IsExact (depth cross ls)
depth-IsExact cross [] h = (0, refl)
depth-IsExact cross (l ∷ ls) (h, k) = elim (Bool-cases (cross l.price)) [
  | inl e ↦ rw e (
      sum-IsExact (volume l.orders) (depth cross ls) (volume-IsExact l.orders h)
        (depth-IsExact cross ls k))
  | inr e ↦ rw e (sum-IsExact 0 (depth cross ls) (0, refl) (depth-IsExact cross ls k))
]
