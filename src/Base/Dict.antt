-- ===== src/Base/Dict.antt =====
-- A Go `map[string]V`, a Redis hash or a table keyed by its id, as an association list.
use mathlib.Core.Path.{◌≡◌, refl, ◌∙◌}
use mathlib.Core.Bool.{true, false}
use mathlib.Core.Option
use mathlib.Core.Option.{Option, none, some}
use mathlib.Core.List.{List, [], ◌∷◌}
use Prim.Native.String.{String}
use native.Mathlib.Omega.{arith}
use text.Mathlib.Text.{◌==◌ as str_eq}
use text.Mathlib.TextEquality.{eq_iff}
use alpha_exchange.Base.Logic.{if◌then◌else◌}

abbrev pub Dict {ℓ} : Type ℓ → Type ℓ
Dict V = List (String × V)

module _ {ℓ} {V : Type ℓ} where
  unfoldable pub erase : String → Dict V → Dict V
  erase key [] = []
  erase key (entry ∷ rest) =
      let kept = erase key rest in elim (str_eq entry.0 key) [ true ↦ kept | false ↦ entry ∷ kept ]

  -- The newest entry stands first.
  unfoldable pub insert : String → V → Dict V → Dict V
  unfolding erase
  insert key value entries = (key, value) ∷ erase key entries

  unfoldable pub lookup : String → Dict V → Option V
  lookup key [] = none
  lookup key (entry ∷ rest) = elim (str_eq entry.0 key) [
    | true ↦ some entry.1
    | false ↦ lookup key rest
  ]

  pub lookup-erase :
      (key other : String) (entries : Dict V)
      → lookup other (erase key entries) ≡ (if str_eq key other then none else lookup other entries)
  unfolding lookup erase
  lookup-erase key other [] = ground arith
  lookup-erase key other (entry ∷ rest) = ground (
    arith,
    lookup-erase key other rest,
    eq_iff entry.0 key,
    eq_iff entry.0 other,
    eq_iff key other,
  )

  pub lookup-insert :
      (key other : String) (value : V) (entries : Dict V)
      → lookup other (insert key value entries)
        ≡ (if str_eq key other then some value else lookup other entries)
  unfolding lookup insert
  lookup-insert key other value entries = ground (arith, lookup-erase key other entries)

pub str_eq_refl : (k : String) → str_eq k k ≡ true
str_eq_refl k = (eq_iff k k).1 refl

module _ {ℓ} {V : Type ℓ} where
  pub lookup-insert_self :
      (key : String) (value : V) (entries : Dict V)
      → lookup key (insert key value entries) ≡ some value
  lookup-insert_self key value entries =
      lookup-insert key key value entries ∙ rw (str_eq_refl key) refl

  pub lookup-insert_other :
      (key other : String) (value : V) (entries : Dict V)
      → str_eq key other ≡ false
      → lookup other (insert key value entries) ≡ lookup other entries
  lookup-insert_other key other value entries e =
      lookup-insert key other value entries ∙ rw (e) refl

  -- `UPDATE … WHERE id = key`: a missing key changes nothing.
  unfoldable pub update : String → (V → V) → Dict V → Dict V
  update key f [] = []
  update key f (entry ∷ rest) =
      let others = update key f rest in
      elim (str_eq entry.0 key) [ true ↦ (entry.0, f entry.1) ∷ others | false ↦ entry ∷ others ]

  pub lookup-update :
      (key other : String) (f : V → V) (entries : Dict V)
      → lookup other (update key f entries)
        ≡ (if str_eq key other then Option.map f (lookup other entries) else lookup other entries)
  unfolding lookup update
  lookup-update key other f [] = ground arith
  lookup-update key other f (entry ∷ rest) = ground (
    arith,
    lookup-update key other f rest,
    eq_iff entry.0 key,
    eq_iff entry.0 other,
    eq_iff key other,
  )

  pub lookup-update_self :
      (key : String) (f : V → V) (value : V) (entries : Dict V)
      → lookup key entries ≡ some value
      → lookup key (update key f entries) ≡ some (f value)
  lookup-update_self key f value entries e =
      lookup-update key key f entries ∙ rw (str_eq_refl key, e) refl

  pub lookup-erase_self : (key : String) (entries : Dict V) → lookup key (erase key entries) ≡ none
  lookup-erase_self key entries = lookup-erase key key entries ∙ rw (str_eq_refl key) refl
