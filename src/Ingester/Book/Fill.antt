-- ===== src/Ingester/Book/Fill.antt =====
-- The inner loop of the matching engine: what one level gives to the incoming order.
use alpha_exchange.Base.{All, inl, refl, ℕ, ◌+◌, ◌<◌, ◌≡◌, ◌⊎◌, List, [], ◌∷◌, arith, total, delete}
use alpha_exchange.Ingester.Book.{Order, Taker, match_orders, trade, min_f}

abbrev pub volume : List Order → ℕ
volume = total (λ r. r.remaining_qty)

-- An order that rests in a level: a quantity is left, and it stands at its own price.
abbrev pub Rests : ℕ → Order → Type 0
Rests px r = (0 < r.remaining_qty) × (r.price ≡ px)

-- The taker after it has used up a whole resting order.
abbrev pub used : ℕ → Order → Taker → Taker
unfolding trade min_f
used px r t = record (trade px (min_f t.remaining r.remaining_qty) t) { keys = delete r.id t.keys }

pub record Facts (px : ℕ) (rs : List Order) (t : Taker) (os : List Order) (t' : Taker)
    : Type 0 where
  -- What the taker gains it no longer asks for, and the level no longer holds.
  pub conserves : t'.filled + t'.remaining ≡ t.filled + t.remaining
  pub volumes : volume os + t'.filled ≡ volume rs + t.filled
  -- The loop ends with an empty level or a served taker.
  pub stops : (os ≡ []) ⊎ (t'.remaining ≡ 0)
  pub keeps : t.remaining ≡ 0 → (os ≡ rs) × (t' ≡ t)

pub match_orders-Facts :
    (px : ℕ) (rs : List Order) (t : Taker)
    → Facts px rs t (match_orders px rs t).0 (match_orders px rs t).1
unfolding match_orders
match_orders-Facts px [] t = ground arith
match_orders-Facts px (r ∷ rs) t =
    unfold trade min_f in ground (arith, match_orders-Facts px rs (used px r t))

-- With orders that rest, the loop leaves orders that rest, and trades at the level's price.
pub match_orders-Rests :
    (px : ℕ) (rs : List Order) (t : Taker)
    → All (Rests px) rs
    → All (Rests px) (match_orders px rs t).0
unfolding match_orders trade min_f
match_orders-Rests px [] t h = tt
match_orders-Rests px (r ∷ rs) t h = ground (arith, match_orders-Rests px rs (used px r t))

pub match_orders-last_px :
    (px : ℕ) (rs : List Order) (t : Taker)
    → ((match_orders px rs t).1 ≡ t) ⊎ ((match_orders px rs t).1.last_px ≡ px)
unfolding match_orders trade min_f
match_orders-last_px px [] t = inl refl
match_orders-last_px px (r ∷ rs) t = ground (arith, match_orders-last_px px rs (used px r t))
