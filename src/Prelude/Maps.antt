-- ===== src/Prelude/Maps.antt =====
-- Go maps with string keys as association lists. An insertion removes what stood at its key, so
-- a key occurs once. The order of the entries is the order in which a `range` visits them.
use Prim.Native.Nat.{◌≤◌}
use mathlib.Core.Path.{◌≡◌, refl}
use mathlib.Core.Bool.{Bool}
use mathlib.Core.Option.{Option, none, some}
use mathlib.Core.List.{List, [], ◌∷◌}
use native.Mathlib.Omega.{arith}
use aws_efs_csi_driver.Prelude.Tests.{if◌then◌else◌}
use aws_efs_csi_driver.Prelude.Lists.{length}
use aws_efs_csi_driver.Prelude.Bytes.{GoString, str_eq, str_eq_iff, str_eq_refl}

abbrev pub Map {ℓ} : Type ℓ → Type ℓ
Map V = List (GoString × V)

module _ {ℓ} {V : Type ℓ} where
  -- `v, ok := m[k]`
  abbrev pub lookup : GoString → Map V → Option V
  lookup k [] = none
  lookup k ((j, v) ∷ m) = if str_eq j k then some v else lookup k m

  -- `delete(m, k)`
  abbrev pub remove : GoString → Map V → Map V
  remove k [] = []
  remove k ((j, v) ∷ m) = let rest = remove k m in if str_eq j k then rest else (j, v) ∷ rest

  -- `m[k] = v`
  abbrev pub insert : GoString → V → Map V → Map V
  insert k v m = (k, v) ∷ remove k m

  pub lookup-remove :
      (k j : GoString) (m : Map V)
      → lookup j (remove k m) ≡ (if str_eq k j then none else lookup j m)
  lookup-remove k j [] = ground arith
  lookup-remove k j ((i, v) ∷ m) =
      ground (arith, lookup-remove k j m, str_eq_iff i k, str_eq_iff i j, str_eq_iff k j)

  pub lookup-insert :
      (k j : GoString) (v : V) (m : Map V)
      → lookup j (insert k v m) ≡ (if str_eq k j then some v else lookup j m)
  lookup-insert k j v m = ground (arith, lookup-remove k j m)

  pub lookup-remove_self : (k : GoString) (m : Map V) → lookup k (remove k m) ≡ none
  lookup-remove_self k m = ground (arith, lookup-remove k k m, str_eq_refl k)

  pub lookup-insert_self : (k : GoString) (v : V) (m : Map V) → lookup k (insert k v m) ≡ some v
  lookup-insert_self k v m = ground (arith, str_eq_refl k)

  pub length-remove : (k : GoString) (m : Map V) → length (remove k m) ≤ length m
  length-remove k [] = omega arith
  length-remove k ((j, v) ∷ m) = ground (arith, length-remove k m)

  -- An entry that is not there is not missed.
  pub remove_absent : (k : GoString) (m : Map V) → lookup k m ≡ none → remove k m ≡ m
  remove_absent k [] h = refl
  remove_absent k ((j, v) ∷ m) h = ground (arith, remove_absent k m)

  -- A key occurs once, as in a Go map.
  abbrev pub Unique : Map V → Type ℓ
  Unique [] = Unit
  Unique ((k, v) ∷ m) = (lookup k m ≡ none) × Unique m

  pub Unique-remove : (k : GoString) (m : Map V) → Unique m → Unique (remove k m)
  Unique-remove k [] h = tt
  Unique-remove k ((j, v) ∷ m) h = ground (arith, Unique-remove k m h.1, lookup-remove k j m, h.0)

  pub Unique-insert : (k : GoString) (v : V) (m : Map V) → Unique m → Unique (insert k v m)
  Unique-insert k v m h = (lookup-remove_self k m, Unique-remove k m h)

  -- The entries whose value passes a test.
  abbrev pub filter_values : (V → Bool) → Map V → Map V
  filter_values p [] = []
  filter_values p ((k, v) ∷ m) = let rest = filter_values p m in if p v then (k, v) ∷ rest else rest

  abbrev pub filter_option : (V → Bool) → Option V → Option V
  filter_option p none = none
  filter_option p (some v) = if p v then some v else none

  pub lookup-filter_values :
      (p : V → Bool) (k : GoString) (m : Map V)
      → Unique m
      → lookup k (filter_values p m) ≡ filter_option p (lookup k m)
  lookup-filter_values p k [] h = refl
  lookup-filter_values p k ((j, v) ∷ m) h =
      ground (arith, lookup-filter_values p k m h.1, h.0, str_eq_iff j k)

  pub Unique-filter_values : (p : V → Bool) (m : Map V) → Unique m → Unique (filter_values p m)
  Unique-filter_values p [] h = tt
  Unique-filter_values p ((j, v) ∷ m) h =
      ground (arith, Unique-filter_values p m h.1, lookup-filter_values p j m h.1, h.0)

  pub length-filter_values : (p : V → Bool) (m : Map V) → length (filter_values p m) ≤ length m
  length-filter_values p [] = omega arith
  length-filter_values p ((j, v) ∷ m) = ground (arith, length-filter_values p m)
