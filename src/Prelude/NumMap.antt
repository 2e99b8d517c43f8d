-- ===== src/Prelude/NumMap.antt =====
-- Maps with numbers as keys, where the program relies on no order: an entry is replaced where it stands.
use Prim.Native.Nat.{ℕ}
use mathlib.Core.Path.{◌≡◌, refl}
use mathlib.Core.Option.{Option, none, some}
use mathlib.Core.List.{List, [], ◌∷◌}
use native.Mathlib.Omega.{arith}
use wamr_ext.Prelude.Tests.{◌==◌, if◌then◌else◌}

abbrev pub NumMap : Type 0 → Type 0
NumMap V = List (ℕ × V)

module _ {V : Type 0} where
  unfoldable pub find_key : ℕ → NumMap V → Option V
  find_key k [] = none
  find_key k ((j, v) ∷ m) = if j == k then some v else find_key k m

  unfoldable pub assign : ℕ → V → NumMap V → NumMap V
  assign k v [] = (k, v) ∷ []
  assign k v ((j, u) ∷ m) = let rest = assign k v m in if j == k then (j, v) ∷ m else (j, u) ∷ rest

  unfoldable pub remove : ℕ → NumMap V → NumMap V
  remove k [] = []
  remove k ((j, v) ∷ m) = let rest = remove k m in if j == k then rest else (j, v) ∷ rest

  pub find_key-assign :
      (j k : ℕ) (v : V) (m : NumMap V)
      → find_key j (assign k v m) ≡ (if k == j then some v else find_key j m)
  unfolding find_key assign
  find_key-assign j k v [] = refl
  find_key-assign j k v ((i, u) ∷ m) = ground (arith, find_key-assign j k v m)

  pub find_key-remove :
      (j k : ℕ) (m : NumMap V) → find_key j (remove k m) ≡ (if k == j then none else find_key j m)
  unfolding find_key remove
  find_key-remove j k [] = ground arith
  find_key-remove j k ((i, u) ∷ m) = ground (arith, find_key-remove j k m)
