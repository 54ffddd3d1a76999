-- ===== src/Base/Float.antt =====
-- The float64 arithmetic that the scores use, as an interface: its operations round in a way of
-- their own and are parameters. `trunc` is the conversion to int64, of a value that is not
-- negative.
use Prim.Native.Nat.{ℕ}
use mathlib.Core.Path.{◌≡◌}
use mathlib.Core.Bool.{Bool, true, false}

pub record Float (W : Type 0) : Type 0 where
  pub add : W → W → W
  pub sub : W → W → W
  pub mul : W → W → W
  pub div : W → W → W
  pub lt : W → W → Bool
  pub eq : W → W → Bool
  pub of_ℕ : ℕ → W
  pub two_fifths : W  -- 0.40
  pub three_tenths : W  -- 0.30
  pub fifth : W  -- 0.20
  pub tenth : W  -- 0.10
  pub half : W  -- 0.5
  pub trunc : W → ℕ

-- Comparisons of numbers: a value is plain that is neither NaN nor a negative zero.
pub record IsComparable (W : Type 0) (f : Float W) : Type 0 where
  pub is_plain : W → Bool
  pub lt_irrefl : (x : W) → is_plain x ≡ true → f.lt x x ≡ false
  pub lt_asym :
      (x y : W) → is_plain x ≡ true → is_plain y ≡ true → f.lt x y ≡ true → f.lt y x ≡ false
  pub lt_tri :
      (x y : W)
      → is_plain x ≡ true
      → is_plain y ≡ true
      → f.lt x y ≡ false
      → f.lt y x ≡ false
      → x ≡ y
  pub eq_refl : (x : W) → is_plain x ≡ true → f.eq x x ≡ true
  pub of_ℕ_plain : (n : ℕ) → is_plain (f.of_ℕ n) ≡ true
