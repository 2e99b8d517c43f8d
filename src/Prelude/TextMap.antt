-- ===== src/Prelude/TextMap.antt =====
-- std::map<std::string, V>: an association list that is kept sorted by key.
use Prim.Native.Nat.{Ordering}
use mathlib.Core.Path.{◌≡◌, refl}
use mathlib.Core.Logic.{◌⊎◌, inl, inr}
use mathlib.Core.Option.{Option, none, some}
use mathlib.Core.List.{List, [], ◌∷◌}
use native.Mathlib.Omega.{arith}
use wamr_ext.Prelude.Tests.{if◌then◌else◌}
use wamr_ext.Prelude.Text.{
  Text, text_eq, text_eq_iff, text_compare, text_compare-eq, text_compare_refl, text_compare-gt,
  TextLt,
}

abbrev pub TextMap {ℓ} : Type ℓ → Type ℓ
TextMap V = List (Text × V)

Ordering-cases : (o : Ordering) → (o ≡ Ordering.lt) ⊎ ((o ≡ Ordering.eq) ⊎ (o ≡ Ordering.gt))
Ordering-cases Ordering.lt = inl refl
Ordering-cases Ordering.eq = inr (inl refl)
Ordering-cases Ordering.gt = inr (inr refl)

module _ {ℓ} {V : Type ℓ} where
  -- m.find(k)
  unfoldable pub lookup : Text → TextMap V → Option V
  lookup k [] = none
  lookup k ((j, v) ∷ m) = if text_eq j k then some v else lookup k m

  -- m[k] = v
  unfoldable pub insert : Text → V → TextMap V → TextMap V
  insert k v [] = (k, v) ∷ []
  insert k v ((j, w) ∷ m) =
      let rest = insert k v m in
      elim (text_compare k j) [
        | Ordering.lt ↦ (k, v) ∷ (j, w) ∷ m
        | Ordering.eq ↦ (j, v) ∷ m
        | Ordering.gt ↦ (j, w) ∷ rest
      ]

  pub lookup-insert :
      (k j : Text) (v : V) (m : TextMap V)
      → lookup j (insert k v m) ≡ (if text_eq k j then some v else lookup j m)
  unfolding lookup insert
  lookup-insert k j v [] = refl
  lookup-insert k j v ((i, w) ∷ m) = elim (Ordering-cases (text_compare k i)) [
    | inl before ↦ rw (before, insert) refl
    | inr (inl same) ↦
        rw (same, insert)
          (ground (arith, text_eq_iff k j, text_eq_iff i j, text_compare-eq k i same))
    | inr (inr after) ↦
        let ih = lookup-insert k j v m in
        rw (after, insert)
          (ground (arith, text_eq_iff k j, text_eq_iff i j, text_compare_refl k, ih))
  ]

  -- Every key is above `k`, and the keys rise.
  abbrev pub Above : Text → TextMap V → Type 0
  Above k [] = Unit {0}
  Above k ((j, v) ∷ m) = TextLt k j × Above j m

  abbrev pub IsSorted : TextMap V → Type 0
  IsSorted [] = Unit {0}
  IsSorted ((j, v) ∷ m) = Above j m

  insert-Above :
      (b k : Text) (v : V) (m : TextMap V) → TextLt b k → Above b m → Above b (insert k v m)
  unfolding insert
  insert-Above b k v [] h s = (h, tt)
  insert-Above b k v ((j, w) ∷ m) h s =
      ground (arith, text_compare-eq k j, text_compare-gt k j, insert-Above j k v m)

  pub insert-IsSorted : (k : Text) (v : V) (m : TextMap V) → IsSorted m → IsSorted (insert k v m)
  unfolding insert
  insert-IsSorted k v [] s = tt
  insert-IsSorted k v ((j, w) ∷ m) s =
      ground (arith, text_compare-eq k j, text_compare-gt k j, insert-Above j k v m)

  -- A property of the keys.
  abbrev pub Keys {κ} : (Text → Type κ) → TextMap V → Type κ
  Keys P [] = Unit
  Keys P ((j, v) ∷ m) = P j × Keys P m

  pub insert-Keys {κ} :
      (P : Text → Type κ) (k : Text) (v : V) (m : TextMap V)
      → P k
      → Keys P m
      → Keys P (insert k v m)
  unfolding insert
  insert-Keys P k v [] h s = (h, tt)
  insert-Keys P k v ((j, w) ∷ m) h s = ground (arith, insert-Keys P k v m h s.1)
