-- ===== src/Ingester/Book/Queue.antt =====
-- Price-time priority as a specification: each side is one queue of orders, the best price first
-- and, at one price, the oldest first. The levels of the book refine it.
pub mod Enqueue
pub mod Withdraw
pub mod Refinement
use alpha_exchange.Base.{
  ℕ, ◌≡◌, refl, sym, subst, ◌∙◌, All-append, All-map, List, [], ◌∷◌, ◌++◌, arith, All, ltb, ◌==◌,
  if◌then◌else◌, not, Bool, Bool-cases, inl, inr, true, false, ◌⊎◌, ◌-◌, leb, String, is_empty,
}
use alpha_exchange.Ingester.Book.{OrderBook, Order, PriceLevel, Taker, trade, match_orders, min_f}
use alpha_exchange.Ingester.Book.Fill.{Rests, used, match_orders-Facts}
use alpha_exchange.Ingester.Book.Sweep.{sweep, Sorted, Live}
use alpha_exchange.Ingester.Book.Depth.{Monotone}

pub record Queues : Type 0 where
  pub bids : List Order
  pub asks : List Order
  pub keys : List String

abbrev pub flatten : List PriceLevel → List Order
flatten [] = []
flatten (l ∷ ls) = l.orders ++ flatten ls

abbrev pub queues : OrderBook → Queues
queues b = record { bids = flatten b.bids; asks = flatten b.asks; keys = b.keys }

-- Trade with the front of the queue, order by order, while its price crosses.
unfoldable pub consume : (ℕ → Bool) → List Order → Taker → List Order × Taker
consume cross [] t = ([], t)
consume cross (r ∷ rs) t =
    let rest = consume cross rs (used r.price r t) in
    if t.remaining == 0
    then (r ∷ rs, t)
    else if not (cross r.price)
    then (r ∷ rs, t)
    else if leb r.remaining_qty t.remaining
    then rest
    else (
      record r { remaining_qty = r.remaining_qty - t.remaining } ∷ rs,
      trade r.price t.remaining t,
    )

abbrev pub better : Bool → ℕ → ℕ → Bool
better true p q = ltb p q
better false p q = ltb q p

-- Behind every order at the same or a better price.
unfoldable pub enqueue : Bool → Order → List Order → List Order
enqueue asc o [] = o ∷ []
enqueue asc o (r ∷ rs) = if better asc o.price r.price then o ∷ r ∷ rs else r ∷ enqueue asc o rs

consume-none :
    (cross : ℕ → Bool) (rs : List Order) (t : Taker)
    → All (λ r. cross r.price ≡ false) rs
    → consume cross rs t ≡ (rs, t)
unfolding consume
consume-none cross [] t h = refl
consume-none cross (r ∷ rs) t h = ground (arith, h.0)

consume-served :
    (cross : ℕ → Bool) (rs : List Order) (t : Taker)
    → t.remaining ≡ 0
    → consume cross rs t ≡ (rs, t)
unfolding consume
consume-served cross [] t h = refl
consume-served cross (r ∷ rs) t h = ground arith

-- A level at a price that crosses, followed by the rest of the queue.
consume-level :
    (cross : ℕ → Bool) (px : ℕ) (os rs : List Order) (t : Taker)
    → All (Rests px) os
    → cross px ≡ true
    → let (os', t') = match_orders px os t in
      consume cross (os ++ rs) t ≡ (os' ++ (consume cross rs t').0, (consume cross rs t').1)
unfolding consume match_orders
consume-level cross px [] rs t h e = refl
consume-level cross px (o ∷ os) rs t h e =
    unfold trade min_f in
    ground (
      arith,
      consume-level cross px os rs (used px o t) h.1 e,
      consume-served cross rs t,
      consume-served cross rs (trade px (min_f t.remaining o.remaining_qty) t),
    )

pub All-flatten :
    (P : ℕ → Type 0) (ls : List PriceLevel)
    → Live ls
    → All (λ l. P l.price) ls
    → All (λ r. P r.price) (flatten ls)
All-flatten P [] h k = tt
All-flatten P (l ∷ ls) h k =
    All-append _ l.orders (flatten ls)
      (All-map _ _ (λ r live. subst P (sym live.1) k.0) l.orders h.0) (All-flatten P ls h.1 k.1)

-- What follows a level: nothing more where it keeps orders, since the taker is served.
sweep-consume_tail :
    (cross : ℕ → Bool) (l : PriceLevel) (os : List Order) (ls : List PriceLevel) (t : Taker)
    → (os ≡ []) ⊎ (t.remaining ≡ 0)
    → consume cross (flatten ls) t ≡ (flatten (sweep cross ls t).0, (sweep cross ls t).1)
    → let r = (if is_empty os then sweep cross ls t else (record l { orders = os } ∷ ls, t)) in
      ◌≡◌ {A = List Order × Taker}
        (os ++ (consume cross (flatten ls) t).0, (consume cross (flatten ls) t).1)
        (flatten r.0, r.1)
sweep-consume_tail cross l [] ls t s ih = ih
sweep-consume_tail cross l (o ∷ os) ls t (inl e) ih = absurd (cc e)
sweep-consume_tail cross l (o ∷ os) ls t (inr z) ih = rw (consume-served cross (flatten ls) t z)

-- The sweep over the levels is the consumption of the queue.
pub sweep-consume :
    (asc : Bool) (cross : ℕ → Bool) (ls : List PriceLevel) (t : Taker)
    → Monotone asc cross
    → Sorted asc ls
    → Live ls
    → consume cross (flatten ls) t ≡ (flatten (sweep cross ls t).0, (sweep cross ls t).1)
unfolding sweep
sweep-consume asc cross [] t mono h k = unfold consume in refl
sweep-consume asc cross (l ∷ ls) t mono h k = elim (Bool-cases (t.remaining == 0)) [
  | inl z ↦ rw z (consume-served cross (flatten (l ∷ ls)) t (ground arith))
  | inr z ↦ rw z (elim (Bool-cases (cross l.price)) [
    | inr c ↦ rw c (
        consume-none cross (flatten (l ∷ ls)) t (
          All-flatten (λ p. cross p ≡ false) (l ∷ ls) k
            (c, All-map _ _ (λ m b. mono l.price m.price b c) ls h.0)))
    | inl c ↦ rw c (
        consume-level cross l.price l.orders (flatten ls) t k.0 c
        ∙ sweep-consume_tail cross l _ ls _ (match_orders-Facts l.price l.orders t).stops
            (sweep-consume asc cross ls _ mono h.1 k.1))
  ])
]
