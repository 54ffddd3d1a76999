-- ===== src/Ingester/Book/Queue/Enqueue.antt =====
-- Resting an order in its level puts it into the queue at its place.
use alpha_exchange.Base.{
  ℕ, ◌≡◌, ◌≢◌, refl, ap, sym, subst, ◌∙◌, All, All-map, List, [], ◌∷◌, ◌++◌, append_assoc, arith,
  ◌==◌, Bool, Bool-cases, true, false, inl, inr, ◌⊎◌,
}
use alpha_exchange.Ingester.Book.{Order, PriceLevel, level_less}
use alpha_exchange.Ingester.Book.Sweep.{Before, Sorted, Live}
use alpha_exchange.Ingester.Book.Fill.{Rests}
use alpha_exchange.Ingester.Book.Place.{place, new_level, All-Before}
use alpha_exchange.Ingester.Book.Queue.{flatten, All-flatten, better, enqueue}

enqueue-skip :
    (asc : Bool) (o : Order) (rs qs : List Order)
    → All (λ r. better asc o.price r.price ≡ false) rs
    → enqueue asc o (rs ++ qs) ≡ rs ++ enqueue asc o qs
unfolding enqueue
enqueue-skip asc o [] qs h = refl
enqueue-skip asc o (r ∷ rs) qs h = rw h.0 (ap (◌∷◌ r) (enqueue-skip asc o rs qs h.1))

enqueue-front :
    (asc : Bool) (o : Order) (qs : List Order)
    → All (λ r. better asc o.price r.price ≡ true) qs
    → enqueue asc o qs ≡ o ∷ qs
unfolding enqueue
enqueue-front asc o [] h = refl
enqueue-front asc o (q ∷ qs) h = rw h.0

Before-better : (asc : Bool) (p q : ℕ) → Before asc p q → better asc p q ≡ true
Before-better true p q h = ground arith
Before-better false p q h = ground arith

not-better : (asc : Bool) (p q : ℕ) → Before asc q p → better asc p q ≡ false
not-better true p q h = ground arith
not-better false p q h = ground arith

better_self : (asc : Bool) (p : ℕ) → better asc p p ≡ false
better_self true p = ground arith
better_self false p = ground arith

level_less-cases :
    (asc : Bool) (l m : PriceLevel)
    → l.price ≢ m.price
    → ((level_less asc l m ≡ true) × Before asc l.price m.price)
      ⊎ ((level_less asc l m ≡ false) × Before asc m.price l.price)
unfolding level_less
level_less-cases true l m n = ground arith
level_less-cases false l m n = ground arith

-- A price of every level and of its orders.
level_prices :
    (P : ℕ → Type 0) (l : PriceLevel)
    → All (Rests l.price) l.orders
    → P l.price
    → All (λ r. P r.price) l.orders
level_prices P l h p = All-map _ _ (λ r live. subst P (sym live.1) p) l.orders h

Before-All-better :
    (asc : Bool) (px : ℕ) (ls : List PriceLevel)
    → All (λ m. Before asc px m.price) ls
    → Live ls
    → All (λ r. better asc px r.price ≡ true) (flatten ls)
Before-All-better asc px ls h k =
    All-flatten (λ p. better asc px p ≡ true) ls k
      (All-map _ _ (λ m b. Before-better asc px m.price b) ls h)

pub flatten-place :
    (asc : Bool) (o : Order) (ls : List PriceLevel)
    → Sorted asc ls
    → Live ls
    → flatten (place asc o ls) ≡ enqueue asc o (flatten ls)
unfolding place
flatten-place asc o [] h k = unfold enqueue in refl
flatten-place asc o (l ∷ ls) h k = elim (Bool-cases (l.price == o.price)) [
  | inl e ↦
      let same : l.price ≡ o.price = ground arith in
      rw e (
        append_assoc l.orders (o ∷ []) (flatten ls)
        ∙ sym (
            enqueue-skip asc o l.orders (flatten ls) (
              level_prices (λ p. better asc o.price p ≡ false) l k.0
                (rw same (better_self asc o.price)))
            ∙ ap (◌++◌ l.orders) (
                enqueue-front asc o (flatten ls)
                  (Before-All-better asc o.price ls (rw same at h.0) k.1))))
  | inr e ↦ rw e (elim (level_less-cases asc l (new_level o) (ground arith)) [
    | inl (d, b) ↦ rw d (
        ap (◌++◌ l.orders) (flatten-place asc o ls h.1 k.1)
        ∙ sym (
            enqueue-skip asc o l.orders (flatten ls) (
              level_prices (λ p. better asc o.price p ≡ false) l k.0
                (not-better asc o.price l.price b))))
    | inr (d, b) ↦ rw d (
        sym (
          enqueue-front asc o (flatten (l ∷ ls)) (
            Before-All-better asc o.price (l ∷ ls) (b, All-Before asc o.price l.price ls b h.0) k)))
  ])
]
