-- ===== src/Ingester/Book/Removal.antt =====
-- The scan of `cancel` over one side.
use alpha_exchange.Base.{
  ℕ, ◌≡◌, List, [], ◌∷◌, arith, All, none, some, Option-cases, String, Bool-cases, inl, inr, ◌⊎◌,
  true, false, Bool, Bool, str_eq,
}
use alpha_exchange.Ingester.Book.{Order, PriceLevel, remove_order, remove_level}
use alpha_exchange.Ingester.Book.Fill.{Rests}
use alpha_exchange.Ingester.Book.Sweep.{Before, Sorted, Live}

pub remove_order-cases :
    (k : String) (o : Order) (os rs : List Order)
    → remove_order k (o ∷ os) ≡ some rs
    → ((str_eq o.id k ≡ true) × (rs ≡ os))
      ⊎ ((ns : List Order) × (str_eq o.id k ≡ false)
          × (remove_order k os ≡ some ns)
          × (rs ≡ o ∷ ns))
unfolding remove_order
remove_order-cases k o os rs e = elim (Bool-cases (str_eq o.id k)) [
  | inl d ↦ inl (d, ground (arith, d))
  | inr d ↦ elim (Option-cases (remove_order k os)) [
    | inr (ns, c) ↦ inr (ns, d, c, ground (arith, c, d))
    | inl c ↦ absurd (ground (arith, c, d))
  ]
]

remove_order-All {κ} :
    (P : Order → Type κ) (k : String) (os rs : List Order)
    → remove_order k os ≡ some rs
    → All P os
    → All P rs
unfolding remove_order
remove_order-All P k [] rs e h = absurd (cc e)
remove_order-All P k (o ∷ os) rs e h = elim (remove_order-cases k o os rs e) [
  | inl (_, d) ↦ rw d h.1
  | inr (ns, _, c, d) ↦ rw d (h.0, remove_order-All P k os ns c h.1)
]

-- Where a side has the order: in its first level, or in a later one.
pub remove_level-cases :
    (k : String) (l : PriceLevel) (ls ms : List PriceLevel)
    → remove_level k (l ∷ ls) ≡ some ms
    → ((os : List Order) × (remove_order k l.orders ≡ some os)
        × (ms ≡ record l { orders = os } ∷ ls))
      ⊎ ((ns : List PriceLevel) × (remove_order k l.orders ≡ none)
          × (remove_level k ls ≡ some ns)
          × (ms ≡ l ∷ ns))
unfolding remove_level
remove_level-cases k l ls ms e = elim (Option-cases (remove_order k l.orders)) [
  | inr (os, d) ↦ inl (os, d, ground (arith, d))
  | inl d ↦ elim (Option-cases (remove_level k ls)) [
    | inr (ns, c) ↦ inr (ns, d, c, ground (arith, c, d))
    | inl c ↦ absurd (ground (arith, c, d))
  ]
]

-- Taking an order out leaves the prices of the levels as they are.
pub remove_level-prices {κ} :
    (P : ℕ → Type κ) (k : String) (ls ms : List PriceLevel)
    → remove_level k ls ≡ some ms
    → All (λ l. P l.price) ls
    → All (λ l. P l.price) ms
unfolding remove_level
remove_level-prices P k [] ms e h = absurd (cc e)
remove_level-prices P k (l ∷ ls) ms e h = elim (remove_level-cases k l ls ms e) [
  | inl (os, _, d) ↦ rw d h
  | inr (ns, _, c, d) ↦ rw d (h.0, remove_level-prices P k ls ns c h.1)
]

pub remove_level-Sorted :
    (asc : Bool) (k : String) (ls ms : List PriceLevel)
    → remove_level k ls ≡ some ms
    → Sorted asc ls
    → Sorted asc ms
unfolding remove_level
remove_level-Sorted asc k [] ms e h = absurd (cc e)
remove_level-Sorted asc k (l ∷ ls) ms e h = elim (remove_level-cases k l ls ms e) [
  | inl (os, _, d) ↦ rw d h
  | inr (ns, _, c, d) ↦ rw d (
    remove_level-prices (Before asc l.price) k ls ns c h.0,
    remove_level-Sorted asc k ls ns c h.1,
  )
]

pub remove_level-Live :
    (k : String) (ls ms : List PriceLevel) → remove_level k ls ≡ some ms → Live ls → Live ms
unfolding remove_level
remove_level-Live k [] ms e h = absurd (cc e)
remove_level-Live k (l ∷ ls) ms e h = elim (remove_level-cases k l ls ms e) [
  | inl (os, o, d) ↦ rw d (remove_order-All (Rests l.price) k l.orders os o h.0, h.1)
  | inr (ns, _, c, d) ↦ rw d (h.0, remove_level-Live k ls ns c h.1)
]
