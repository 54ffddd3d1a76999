-- ===== src/Ingester/Book/Place.antt =====
-- `insert` appends to the level of the price, or appends a level and sorts them all. On a sorted
-- side that is one walk to the order's place.
use alpha_exchange.Base.{
  total-append, ◌<◌, Bool-cases, All-append, ◌+◌, ◌≢◌, subst, ◌∙◌, Option-cases, ℕ, ◌≡◌, refl, inl,
  inr, List, [], ◌∷◌, ◌++◌, arith, All, All-map, Bool, true, false, if◌then◌else◌, ◌==◌,
  sort_stable, insert_sorted, none, some,
}
use alpha_exchange.Ingester.Book.{Order, PriceLevel, append_at, level_less, insert}
use alpha_exchange.Ingester.Book.Sweep.{Before, Sorted, Live, side_volume}
use alpha_exchange.Ingester.Book.Fill.{Rests}

abbrev pub new_level : Order → PriceLevel
new_level o = record { price = o.price; orders = o ∷ [] }

unfoldable pub place : Bool → Order → List PriceLevel → List PriceLevel
unfolding level_less
place asc o [] = new_level o ∷ []
place asc o (l ∷ ls) =
    if l.price == o.price
    then record l { orders = l.orders ++ o ∷ [] } ∷ ls
    else if level_less asc l (new_level o)
    then l ∷ place asc o ls
    else new_level o ∷ l ∷ ls

Before-trans : (asc : Bool) (p q r : ℕ) → Before asc p q → Before asc q r → Before asc p r
Before-trans true p q r h k = omega arith
Before-trans false p q r h k = omega arith

pub All-Before :
    (asc : Bool) (p q : ℕ) (ls : List PriceLevel)
    → Before asc p q
    → All (λ m. Before asc q m.price) ls
    → All (λ m. Before asc p m.price) ls
All-Before asc p q ls h = All-map _ _ (λ m k. Before-trans asc p q m.price h k) ls

-- The walk, for a price that no level has.
walk : Bool → PriceLevel → List PriceLevel → List PriceLevel
walk asc x [] = x ∷ []
walk asc x (l ∷ ls) = if level_less asc l x then l ∷ walk asc x ls else x ∷ l ∷ ls

walk-All {κ} :
    (P : ℕ → Type κ) (asc : Bool) (x : PriceLevel) (ls : List PriceLevel)
    → P x.price
    → All (λ m. P m.price) ls
    → All (λ m. P m.price) (walk asc x ls)
unfolding walk
walk-All P asc x [] h k = (h, tt)
walk-All P asc x (l ∷ ls) h k = ground (arith, walk-All P asc x ls h k.1)

-- A level that is before all others goes to the front.
insert_sorted-front :
    (asc : Bool) (l : PriceLevel) (ls : List PriceLevel)
    → All (λ m. Before asc l.price m.price) ls
    → insert_sorted (level_less asc) l ls ≡ l ∷ ls
unfolding insert_sorted level_less
insert_sorted-front asc l [] h = refl
insert_sorted-front true l (m ∷ ls) h = ground arith
insert_sorted-front false l (m ∷ ls) h = ground arith

insert_sorted-walk :
    (asc : Bool) (l x : PriceLevel) (ls : List PriceLevel)
    → All (λ m. Before asc l.price m.price) ls
    → l.price ≢ x.price
    → insert_sorted (level_less asc) l (walk asc x ls) ≡ walk asc x (l ∷ ls)
unfolding walk insert_sorted level_less
insert_sorted-walk true l x [] h n = ground arith
insert_sorted-walk false l x [] h n = ground arith
insert_sorted-walk true l x (m ∷ ms) h n = ground arith
insert_sorted-walk false l x (m ∷ ms) h n = ground arith

-- No level has the price.
abbrev Fresh : ℕ → List PriceLevel → Type 0
Fresh px = All (λ m. m.price ≢ px)

sort_stable-walk :
    (asc : Bool) (x : PriceLevel) (ls : List PriceLevel)
    → Sorted asc ls
    → Fresh x.price ls
    → sort_stable (level_less asc) (ls ++ x ∷ []) ≡ walk asc x ls
unfolding sort_stable walk
sort_stable-walk asc x [] h f = refl
sort_stable-walk asc x (l ∷ ls) h f =
    rw (sort_stable-walk asc x ls h.1 f.1) (insert_sorted-walk asc l x ls h.0 f.0)

append_at-none : (o : Order) (ls : List PriceLevel) → append_at o ls ≡ none → Fresh o.price ls
unfolding append_at
append_at-none o [] e = tt
append_at-none o (l ∷ ls) e = ground (arith, append_at-none o ls)

walk-place :
    (asc : Bool) (o : Order) (ls : List PriceLevel)
    → Fresh o.price ls
    → walk asc (new_level o) ls ≡ place asc o ls
unfolding walk place
walk-place asc o [] f = refl
walk-place asc o (l ∷ ls) f = ground (arith, walk-place asc o ls f.1)

-- Where a level has the price, what holds of all prices holds of it.
append_at-price {κ} :
    (P : ℕ → Type κ) (o : Order) (ls ms : List PriceLevel)
    → append_at o ls ≡ some ms
    → All (λ m. P m.price) ls
    → P o.price
unfolding append_at
append_at-price P o [] ms e h = absurd (cc e)
append_at-price P o (l ∷ ls) ms e h = elim (Option-cases (append_at o ls)) [
  | inr (ns, d) ↦ append_at-price P o ls ns d h.1
  | inl d ↦ subst P (ground (arith, d)) h.0
]

level_less-Before :
    (asc : Bool) (l m : PriceLevel) → Before asc l.price m.price → level_less asc l m ≡ true
unfolding level_less
level_less-Before true l m h = ground arith
level_less-Before false l m h = ground arith

append_at-place :
    (asc : Bool) (o : Order) (ls ms : List PriceLevel)
    → Sorted asc ls
    → append_at o ls ≡ some ms
    → ms ≡ place asc o ls
unfolding append_at place
append_at-place asc o [] ms h e = cc
append_at-place asc o (l ∷ ls) ms h e = elim (Option-cases (append_at o ls)) [
  | inl d ↦ ground (arith, d)
  | inr (ns, d) ↦ ground (
    arith,
    d,
    append_at-place asc o ls ns h.1 d,
    level_less-Before asc l (new_level o) (append_at-price (Before asc l.price) o ls ns d h.0),
  )
]

pub insert-place :
    (asc : Bool) (o : Order) (ls : List PriceLevel)
    → Sorted asc ls
    → insert ls o asc ≡ place asc o ls
unfolding insert
insert-place asc o ls h = elim (Option-cases (append_at o ls)) [
  | inl e ↦
      rw (e, insert)
        (sort_stable-walk asc (new_level o) ls h (append_at-none o ls e)
          ∙ walk-place asc o ls (append_at-none o ls e))
  | inr (ms, e) ↦ rw (e, insert) (append_at-place asc o ls ms h e)
]

pub place-prices {κ} :
    (P : ℕ → Type κ) (asc : Bool) (o : Order) (ls : List PriceLevel)
    → P o.price
    → All (λ m. P m.price) ls
    → All (λ m. P m.price) (place asc o ls)
unfolding place
place-prices P asc o [] p h = (p, tt)
place-prices P asc o (l ∷ ls) p h = ground (arith, place-prices P asc o ls p h.1)

level_less→Before :
    (asc : Bool) (l m : PriceLevel) → level_less asc l m ≡ true → Before asc l.price m.price
unfolding level_less
level_less→Before true l m e = ground arith
level_less→Before false l m e = ground arith

level_less-total :
    (asc : Bool) (l : PriceLevel) (o : Order)
    → l.price ≢ o.price
    → level_less asc l (new_level o) ≡ false
    → Before asc o.price l.price
unfolding level_less
level_less-total true l o n e = ground arith
level_less-total false l o n e = ground arith

pub place-Sorted :
    (asc : Bool) (o : Order) (ls : List PriceLevel) → Sorted asc ls → Sorted asc (place asc o ls)
unfolding place
place-Sorted asc o [] h = (tt, tt)
place-Sorted asc o (l ∷ ls) h = elim (Bool-cases (l.price == o.price)) [
  | inl e ↦ rw e h
  | inr e ↦ rw e (elim (Bool-cases (level_less asc l (new_level o))) [
    | inl d ↦ rw d (
      place-prices (Before asc l.price) asc o ls (level_less→Before asc l (new_level o) d) h.0,
      place-Sorted asc o ls h.1,
    )
    | inr d ↦
        let first = level_less-total asc l o (ground arith) d in
        rw d ((first, All-Before asc o.price l.price ls first h.0), h)
  ])
]

pub place-Live :
    (asc : Bool) (o : Order) (ls : List PriceLevel)
    → 0 < o.remaining_qty
    → Live ls
    → Live (place asc o ls)
unfolding place
place-Live asc o [] p h = (((p, refl), tt), tt)
place-Live asc o (l ∷ ls) p h =
    ground (arith, place-Live asc o ls p h.1, All-append (Rests l.price) l.orders (o ∷ []) h.0)

pub side_volume-place :
    (asc : Bool) (o : Order) (ls : List PriceLevel)
    → side_volume (place asc o ls) ≡ side_volume ls + o.remaining_qty
unfolding place
side_volume-place asc o [] = omega arith
side_volume-place asc o (l ∷ ls) = ground (
  arith,
  side_volume-place asc o ls,
  total-append (λ (r : Order). r.remaining_qty) l.orders (o ∷ []),
)
