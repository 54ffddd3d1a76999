-- ===== src/Base/Keys.antt =====
-- The key set of a Go `map[string]T` whose values are not read: presence, `delete`, assignment.
use Prim.Native.String.{String}
use mathlib.Core.Path.{◌≡◌}
use mathlib.Core.Bool.{Bool, true, false}
use mathlib.Core.List.{List, [], ◌∷◌}
use native.Mathlib.Omega.{arith}
use text.Mathlib.Text.{◌==◌ as str_eq}
use text.Mathlib.TextEquality.{eq_iff}
use alpha_exchange.Base.Logic.{if◌then◌else◌}

unfoldable pub has : String → List String → Bool
has k [] = false
has k (j ∷ ks) = if str_eq j k then true else has k ks

unfoldable pub delete : String → List String → List String
delete k [] = []
delete k (j ∷ ks) = if str_eq j k then delete k ks else j ∷ delete k ks

unfoldable pub assign : String → List String → List String
unfolding delete
assign k ks = k ∷ delete k ks

pub has-delete :
    (k j : String) (ks : List String)
    → has k (delete j ks) ≡ (if str_eq j k then false else has k ks)
unfolding has delete
has-delete k j [] = ground arith
has-delete k j (i ∷ ks) = ground (arith, has-delete k j ks, eq_iff i j, eq_iff i k, eq_iff j k)

pub has-assign :
    (k j : String) (ks : List String)
    → has k (assign j ks) ≡ (if str_eq j k then true else has k ks)
unfolding has assign
has-assign k j ks = ground (arith, has-delete k j ks)
