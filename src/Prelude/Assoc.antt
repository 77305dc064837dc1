-- ===== src/Prelude/Assoc.antt =====
-- A Go map with string keys as a list of pairs. Where the order in which a map is walked could show,
-- the definition that walks it says so.
use Prim.Native.String.{String}
use mathlib.Core.Path.{◌≡◌, refl, ap}
use mathlib.Core.Logic.{inl, inr}
use mathlib.Core.Bool.{true, false}
use mathlib.Core.Option.{Option, none, some}
use mathlib.Core.List.{List, [], ◌∷◌}
use native.Mathlib.Omega.{arith}
use text.Mathlib.Text.{◌==◌ as str_eq}
use text.Mathlib.TextEquality.{eq_iff}
use webpprof.Prelude.Tests.{if◌then◌else◌, Bool-cases}

abbrev pub Assoc {ℓ} : Type ℓ → Type ℓ
Assoc V = List (String × V)

module _ {ℓ} {V : Type ℓ} where
  -- `delete(m, key)`
  unfoldable pub delete : String → Assoc V → Assoc V
  delete key [] = []
  delete key (pair ∷ rest) =
      let kept = delete key rest in if str_eq pair.0 key then kept else pair ∷ kept

  -- `value, ok := m[key]`
  unfoldable pub lookup : String → Assoc V → Option V
  lookup key [] = none
  lookup key (pair ∷ rest) = if str_eq pair.0 key then some pair.1 else lookup key rest

  -- `m[key] = value`
  unfoldable pub insert : String → V → Assoc V → Assoc V
  insert key value [] = (key, value) ∷ []
  insert key value (pair ∷ rest) =
      let later = pair ∷ insert key value rest in
      if str_eq pair.0 key then (key, value) ∷ rest else later

  -- `m[key]`, with the zero value for a missing key
  unfoldable pub value_at : V → String → Assoc V → V
  value_at zero_value key pairs = elim (lookup key pairs) [ none ↦ zero_value | some v ↦ v ]

  pub lookup-delete :
      (key other : String) (pairs : Assoc V)
      → lookup other (delete key pairs) ≡ (if str_eq key other then none else lookup other pairs)
  unfolding delete lookup
  lookup-delete key other [] = ground arith
  lookup-delete key other (pair ∷ rest) =
      let ih = lookup-delete key other rest in
      ground (arith, ih, eq_iff key other, eq_iff pair.0 other, eq_iff pair.0 key)

  pub lookup-insert :
      (key other : String) (value : V) (pairs : Assoc V)
      → lookup other (insert key value pairs)
        ≡ (if str_eq key other then some value else lookup other pairs)
  unfolding insert lookup
  lookup-insert key other value [] = refl
  lookup-insert key other value (pair ∷ rest) =
      let ih = lookup-insert key other value rest in
      ground (arith, ih, eq_iff key other, eq_iff pair.0 other, eq_iff pair.0 key)

  pub value_at-insert :
      (zero_value : V) (key other : String) (value : V) (pairs : Assoc V)
      → value_at zero_value other (insert key value pairs)
        ≡ (if str_eq key other then value else value_at zero_value other pairs)
  unfolding value_at
  value_at-insert zero_value key other value pairs =
      let found = lookup-insert key other value pairs in
      elim (Bool-cases (str_eq key other)) [
        | inl same ↦ rw same (ap (or_zero zero_value) (rw same at found))
        | inr apart ↦ rw apart (ap (or_zero zero_value) (rw apart at found))
      ]
    where
      or_zero : V → Option V → V
      or_zero zero_value found = elim found [ none ↦ zero_value | some v ↦ v ]

  pub value_at-insert_same :
      (zero_value : V) (key other : String) (value : V) (pairs : Assoc V)
      → str_eq key other ≡ true
      → value_at zero_value other (insert key value pairs) ≡ value
  value_at-insert_same zero_value key other value pairs same =
      rw same at (value_at-insert zero_value key other value pairs)

  pub value_at-insert_other :
      (zero_value : V) (key other : String) (value : V) (pairs : Assoc V)
      → str_eq key other ≡ false
      → value_at zero_value other (insert key value pairs) ≡ value_at zero_value other pairs
  value_at-insert_other zero_value key other value pairs apart =
      rw apart at (value_at-insert zero_value key other value pairs)
