-- ===== src/Base/Table.antt =====
-- A hash table keyed by integers as an association list: what the code uses of `GHashTable`.
use Prim.Native.Nat.{ℕ}
use mathlib.Core.Path.{◌≡◌, refl}
use mathlib.Core.List.{List, [], ◌∷◌}
use mathlib.Core.Option.{Option, none, some}
use native.Mathlib.Omega.{arith}
use spice_gtk.Base.Tests.{◌==◌, if◌then◌else◌}

abbrev pub Table {ℓ} : Type ℓ → Type ℓ
Table V = List (ℕ × V)

module _ {ℓ} {V : Type ℓ} where
  unfoldable pub lookup : ℕ → Table V → Option V
  lookup key [] = none
  lookup key ((other, value) ∷ rest) = if other == key then some value else lookup key rest

  -- `g_hash_table_insert` and `g_hash_table_replace`
  unfoldable pub insert : ℕ → V → Table V → Table V
  insert key new [] = (key, new) ∷ []
  insert key new ((other, value) ∷ rest) =
      if other == key then (key, new) ∷ rest else (other, value) ∷ insert key new rest

  unfoldable pub remove : ℕ → Table V → Table V
  remove key [] = []
  remove key ((other, value) ∷ rest) =
      let kept = remove key rest in if other == key then kept else (other, value) ∷ kept

  pub lookup-insert :
      (key other : ℕ) (new : V) (table : Table V)
      → lookup other (insert key new table)
        ≡ (if key == other then some new else lookup other table)
  unfolding lookup insert
  lookup-insert key other new [] = refl
  lookup-insert key other new ((first, value) ∷ rest) =
      ground (arith, lookup-insert key other new rest)

  pub lookup-remove :
      (key other : ℕ) (table : Table V)
      → lookup other (remove key table) ≡ (if key == other then none else lookup other table)
  unfolding lookup remove
  lookup-remove key other [] = ground arith
  lookup-remove key other ((first, value) ∷ rest) = ground (arith, lookup-remove key other rest)

  pub lookup-insert_self :
      (key : ℕ) (new : V) (table : Table V) → lookup key (insert key new table) ≡ some new
  lookup-insert_self key new table = ground (arith, lookup-insert key key new table)
