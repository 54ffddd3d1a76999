-- ===== src/Base/Sorted.antt =====
-- What the stable sort does where the comparison is that of a numeric key.
use Prim.Native.Nat.{ℕ, ◌+◌, ◌≤◌}
use mathlib.Core.Path.{◌≡◌, refl, ap, ◌∙◌}
use mathlib.Core.Logic.{inl, inr}
use mathlib.Core.Bool.{Bool, true, false}
use mathlib.Core.List.{List, [], ◌∷◌}
use native.Mathlib.Omega.{arith}
use alpha_exchange.Base.Logic.{if◌then◌else◌, ltb, ◌==◌, Bool-cases}
use alpha_exchange.Base.Lists.{All, All-map, total}
use alpha_exchange.Base.Sort.{insert_sorted, sort_stable}

-- Each element stands below all later ones.
abbrev pub Chain {ℓ} : {A : Type ℓ} → (A → A → Type 0) → List A → Type 0
Chain Below [] = Unit
Chain Below (x ∷ xs) = All (λ y. Below x y) xs × Chain Below xs

-- A comparison that decides a transitive order sorts by it.
module _ {ℓ} {A : Type ℓ} (less : A → A → Bool) (Below : A → A → Type 0)
    (trans : (x y z : A) → Below x y → Below y z → Below x z)
    (when_less : (x y : A) → less x y ≡ true → Below x y)
    (when_not : (x y : A) → less x y ≡ false → Below y x) where
  insert_sorted-All :
      (n x : A) (xs : List A)
      → Below n x
      → All (λ y. Below n y) xs
      → All (λ y. Below n y) (insert_sorted less x xs)
  unfolding insert_sorted
  insert_sorted-All n x [] h k = (h, tt)
  insert_sorted-All n x (y ∷ ys) h (ky, k) = elim (Bool-cases (less y x)) [
    | inl e ↦ rw (e) (ky, insert_sorted-All n x ys h k)
    | inr e ↦ rw (e) (h, (ky, k))
  ]

  insert_sorted-Chain :
      (x : A) (xs : List A) → Chain Below xs → Chain Below (insert_sorted less x xs)
  unfolding insert_sorted
  insert_sorted-Chain x [] h = (tt, tt)
  insert_sorted-Chain x (y ∷ ys) (below, h) = elim (Bool-cases (less y x)) [
    | inl e ↦ rw (e) (insert_sorted-All y x ys (when_less y x e) below, insert_sorted-Chain x ys h)
    | inr e ↦
        let first = when_not y x e in
        rw (e) (
          (
            first,
            All-map (λ z. Below y z) (λ z. Below x z) (λ z le. trans x y z first le) ys below,
          ),
          (below, h),
        )
  ]

  pub sort_stable-Chain : (xs : List A) → Chain Below (sort_stable less xs)
  unfolding sort_stable
  sort_stable-Chain [] = tt
  sort_stable-Chain (x ∷ xs) = insert_sorted-Chain x (sort_stable less xs) (sort_stable-Chain xs)

-- A measure of the elements sums up to the same.
module _ {ℓ} {A : Type ℓ} (less : A → A → Bool) (f : A → ℕ) where
  total-insert_sorted : (x : A) (xs : List A) → total f (insert_sorted less x xs) ≡ f x + total f xs
  unfolding insert_sorted
  total-insert_sorted x [] = omega arith
  total-insert_sorted x (y ∷ ys) = elim (Bool-cases (less y x)) [
    | inl e ↦ rw (e) (omega (arith, total-insert_sorted x ys))
    | inr e ↦ rw (e) refl
  ]

  pub total-sort_stable : (xs : List A) → total f (sort_stable less xs) ≡ total f xs
  unfolding sort_stable
  total-sort_stable [] = refl
  total-sort_stable (x ∷ xs) =
      omega (arith, total-insert_sorted x (sort_stable less xs), total-sort_stable xs)

module _ {ℓ} {A : Type ℓ} (key : A → ℕ) where
  abbrev pub by_key : A → A → Bool
  by_key a b = ltb (key a) (key b)

  abbrev pub Ascending : List A → Type 0
  Ascending = Chain (λ x y. key x ≤ key y)

  pub sort_stable-Ascending : (xs : List A) → Ascending (sort_stable by_key xs)
  sort_stable-Ascending =
      sort_stable-Chain by_key (λ x y. key x ≤ key y) (λ x y z h k. omega (arith, h, k))
        (λ x y e. ground (arith, e)) (λ x y e. ground (arith, e))

  -- The elements with a key, in their order.
  abbrev pub with_key : ℕ → List A → List A
  with_key k [] = []
  with_key k (x ∷ xs) = if key x == k then x ∷ with_key k xs else with_key k xs

  with_key-insert_sorted :
      (k : ℕ) (x : A) (xs : List A) → with_key k (insert_sorted by_key x xs) ≡ with_key k (x ∷ xs)
  unfolding insert_sorted
  with_key-insert_sorted k x [] = refl
  with_key-insert_sorted k x (y ∷ ys) = elim (Bool-cases (ltb (key y) (key x))) [
    | inl e ↦ rw (e) (ground (arith, e, with_key-insert_sorted k x ys))
    | inr e ↦ rw (e) refl
  ]

  -- A sort is stable and loses nothing: for each key the elements and their order stay.
  pub with_key-sort_stable :
      (k : ℕ) (xs : List A) → with_key k (sort_stable by_key xs) ≡ with_key k xs
  unfolding sort_stable
  with_key-sort_stable k [] = refl
  with_key-sort_stable k (x ∷ xs) =
      with_key-insert_sorted k x (sort_stable by_key xs)
      ∙ ap (λ l. if key x == k then x ∷ l else l) (with_key-sort_stable k xs)
