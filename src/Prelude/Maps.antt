-- ===== src/Prelude/Maps.antt =====
-- Go maps with text keys, as association lists. The program iterates over a map only where it
-- says so at the definition that does.
use Prim.Native.String.{String}
use text.Mathlib.Text.{◌==◌ as str_eq}
use text.Mathlib.TextEquality.{eq_iff}
use mathlib.Core.Path.{◌≡◌}
use mathlib.Core.Bool.{Bool, true, false}
use mathlib.Core.Option.{Option, none, some}
use mathlib.Core.List.{List, [], ◌∷◌}
use native.Mathlib.Omega.{arith}
use cyber_foreman.Prelude.Tests.{if◌then◌else◌}

abbrev pub Map {ℓ} : Type ℓ → Type ℓ
Map V = List (String × V)

module _ {ℓ} {V : Type ℓ} where
  -- `delete(m, k)`: every entry with the key goes.
  unfoldable pub delete : String → Map V → Map V
  delete key [] = []
  delete key ((k, held) ∷ rest) =
      let others = delete key rest in if str_eq k key then others else (k, held) ∷ others

  -- `m[k] = v`.
  unfoldable pub insert : String → V → Map V → Map V
  unfolding delete
  insert key new m = (key, new) ∷ delete key m

  -- `v, ok := m[k]`.
  unfoldable pub lookup : String → Map V → Option V
  lookup key [] = none
  lookup key ((k, held) ∷ rest) = elim (str_eq k key) [ true ↦ some held | false ↦ lookup key rest ]

  pub lookup-delete :
      (gone key : String) (m : Map V)
      → lookup key (delete gone m) ≡ (if str_eq gone key then none else lookup key m)
  unfolding lookup delete
  lookup-delete gone key [] = ground arith
  lookup-delete gone key ((k, held) ∷ rest) =
      ground (arith, eq_iff gone key, eq_iff k gone, eq_iff k key, lookup-delete gone key rest)

  pub lookup-insert :
      (put key : String) (new : V) (m : Map V)
      → lookup key (insert put new m) ≡ (if str_eq put key then some new else lookup key m)
  unfolding lookup insert
  lookup-insert put key new m = ground (arith, lookup-delete put key m)

-- Go's `m[k]` of a map of bools: a missing key reads as false.
abbrev pub or_false : Option Bool → Bool
or_false none = false
or_false (some b) = b

pub ruleset map_laws = (lookup-insert, lookup-delete)
