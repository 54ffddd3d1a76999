-- ===== src/Ingester/Book/Queue/Withdraw.antt =====
-- Taking an order out of its level takes it out of the queue.
use mathlib.Core.Option
use alpha_exchange.Base.{
  ◌≡◌, refl, List, [], ◌∷◌, ◌++◌, arith, inl, inr, none, some, Option-cases, String,
}
use alpha_exchange.Ingester.Book.{Order, PriceLevel, remove_order, remove_level}
use alpha_exchange.Ingester.Book.Removal.{remove_order-cases}
use alpha_exchange.Ingester.Book.Queue.{flatten}

remove_order-front :
    (k : String) (os rs qs : List Order)
    → remove_order k os ≡ some rs
    → remove_order k (os ++ qs) ≡ some (rs ++ qs)
unfolding remove_order
remove_order-front k [] rs qs e = cc
remove_order-front k (o ∷ os) rs qs e = elim (remove_order-cases k o os rs e) [
  | inl (s, d) ↦ rw (s, d)
  | inr (ns, s, c, d) ↦ rw (s, d, remove_order-front k os ns qs c)
]

remove_order-behind :
    (k : String) (os qs : List Order)
    → remove_order k os ≡ none
    → remove_order k (os ++ qs) ≡ Option.map (λ rs. os ++ rs) (remove_order k qs)
unfolding remove_order
remove_order-behind k [] qs e = ground arith
remove_order-behind k (o ∷ os) qs e = ground (arith, remove_order-behind k os qs)

pub remove_order-flatten :
    (k : String) (ls : List PriceLevel)
    → remove_order k (flatten ls) ≡ Option.map flatten (remove_level k ls)
unfolding remove_level
remove_order-flatten k [] = unfold remove_order in refl
remove_order-flatten k (l ∷ ls) = elim (Option-cases (remove_order k l.orders)) [
  | inr (os, e) ↦ ground (arith, e, remove_order-front k l.orders os (flatten ls) e)
  | inl e ↦
      ground (arith, e, remove_order-behind k l.orders (flatten ls) e, remove_order-flatten k ls)
]
