-- ===== src/Ingester/Validator/Verdicts.antt =====
-- What a verdict says about a reported fill.
use alpha_exchange.Base.{
  ℕ, zero, suc, ◌+◌, ◌≤◌, ◌≡◌, refl, ltb, true, false, ◌&&◌, ◌⊎◌, inl, inr, arith,
}
use alpha_exchange.Base.Int.{ℤ, pos, negsuc}
use alpha_exchange.Ingester.Book.{
  ExpectedFill, Status, filled, partial, pending, rejected, cancelled, not_found,
}
use alpha_exchange.Ingester.Validator.{
  Reported, missing, already_filled, known, unknown, Fill, correct, same, reports, far_apart,
  check_amounts, check_mismatch, compare_present, compare,
}

-- The fill that a server reports if it did what the reference book did.
unfoldable pub faithful : ExpectedFill → Fill
faithful e = record {
  status = known e.status;
  price = pos e.filled_price;
  quantity = pos e.filled_qty;
}

same_refl : (s : Status) → same s s ≡ true
unfolding same
same_refl filled = refl
same_refl partial = refl
same_refl pending = refl
same_refl rejected = refl
same_refl cancelled = refl
same_refl not_found = refl

compare-faithful_at :
    (s : Status) (p q r : ℕ)
    → let e : ExpectedFill = record {
      status = s;
      filled_price = p;
      filled_qty = q;
      remaining_qty = r;
    } in
      compare e (faithful e) ≡ correct
unfolding compare compare_present reports same check_amounts far_apart faithful
compare-faithful_at filled p q r = ground arith
compare-faithful_at partial p q r = ground arith
compare-faithful_at pending p q r = ground arith
compare-faithful_at rejected p q r = refl
compare-faithful_at cancelled p q r = refl
compare-faithful_at not_found p q r = refl

-- A report that says what the reference book did is correct, whatever the book did.
pub compare-faithful : (e : ExpectedFill) → compare e (faithful e) ≡ correct
compare-faithful e = compare-faithful_at e.status e.filled_price e.filled_qty e.remaining_qty

-- Within 0.01 of each other, where both are positive.
abbrev pub IsNear : ℕ → ℤ → Type 0
IsNear expected (negsuc n) = Unit
IsNear expected (pos actual) =
    (expected ≡ 0)
    ⊎ ((actual ≡ 0) ⊎ ((actual ≤ expected + 10_000_000) × (expected ≤ actual + 10_000_000)))

-- What the amounts of an accepted report keep to.
pub record IsWithin (e : ExpectedFill) (a : Fill) : Type 0 where
  pub quantity : ℕ
  pub not_negative : a.quantity ≡ pos quantity
  pub no_overfill : quantity ≤ e.filled_qty + 1
  pub near_price : IsNear e.filled_price a.price

near :
    (expected actual : ℕ)
    → (ltb 0 expected && ltb 0 actual && far_apart expected (pos actual)) ≡ false
    → IsNear expected (pos actual)
unfolding far_apart
near zero actual h = inl refl
near (suc expected) zero h = inr (inl refl)
near (suc expected) (suc actual) h = inr (inr (ground (arith, h), ground (arith, h)))

check_price :
    (e : ExpectedFill) (s : Reported) (p : ℤ) (q : ℕ)
    → e.status ≡ filled
    → check_amounts e (record { status = s; price = p; quantity = pos q }) ≡ correct
    → IsNear e.filled_price p
unfolding check_amounts same
check_price e s (negsuc n) q ef k = tt
check_price e s (pos p) q ef k = near e.filled_price p (ground arith)

check_amounts-IsWithin :
    (e : ExpectedFill) (s : Reported) (p q : ℤ)
    → let a : Fill = record { status = s; price = p; quantity = q } in
      e.status ≡ filled → check_amounts e a ≡ correct → IsWithin e a
unfolding check_amounts same
check_amounts-IsWithin e s p (negsuc n) ef k = absurd (ground arith)
check_amounts-IsWithin e s p (pos q) ef k = record {
  quantity = q;
  not_negative = refl;
  no_overfill = ground arith;
  near_price = check_price e s p q ef k;
}

compare-filled_at :
    (e : ExpectedFill) (r : Reported) (p q : ℤ)
    → let a : Fill = record { status = r; price = p; quantity = q } in
      e.status ≡ filled
      → compare e a ≡ correct
      → (r ≡ known pending) ⊎ ((r ≡ known filled) ⊎ (r ≡ known partial)) × IsWithin e a
unfolding compare compare_present check_mismatch reports same
compare-filled_at e missing p q ef k = ground arith
compare-filled_at e already_filled p q ef k = ground arith
compare-filled_at e (known filled) p q ef k =
    inr (inl refl, check_amounts-IsWithin e _ p q ef (ground arith))
compare-filled_at e (known partial) p q ef k =
    inr (inr refl, check_amounts-IsWithin e _ p q ef (ground arith))
compare-filled_at e (known pending) p q ef k = inl refl
compare-filled_at e (known rejected) p q ef k = ground arith
compare-filled_at e (known cancelled) p q ef k = ground arith
compare-filled_at e (known not_found) p q ef k = ground arith
compare-filled_at e (unknown text) p q ef k = ground arith

-- Where the reference book filled an order and the verdict is correct: the server reported
-- PENDING, or it reported FILLED or PARTIAL with a quantity that is not negative and at most the
-- book's plus 1e-9, and with a price within 0.01 of the book's where both prices are positive.
pub compare-filled :
    (e : ExpectedFill) (a : Fill)
    → e.status ≡ filled
    → compare e a ≡ correct
    → (a.status ≡ known pending)
      ⊎ ((a.status ≡ known filled) ⊎ (a.status ≡ known partial)) × IsWithin e a
compare-filled e a ef k = compare-filled_at e a.status a.price a.quantity ef k
