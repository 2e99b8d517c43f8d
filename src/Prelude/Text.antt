-- ===== src/Prelude/Text.antt =====
-- C strings and std::string: lists of bytes.
use Prim.Native.Nat.{ℕ, compare, Ordering}
use Prim.Native.Char.{code}
use Prim.Native.String.{String}
use mathlib.Core.Path.{◌≡◌, refl}
use mathlib.Core.Logic.{◌↔◌}
use mathlib.Core.Bool.{Bool, true, false, ◌&&◌, ◌||◌}
use mathlib.Core.List.{List, [], ◌∷◌}
use native.Mathlib.Omega.{arith}
use wamr_ext.Prelude.Tests.{◌==◌}

abbrev pub Text : Type 0
Text = List ℕ

-- The bytes of a literal.
abbrev pub bytes : String → Text
bytes String.[] = []
bytes (String.◌∷◌ c s) = code c ∷ bytes s

-- strcmp(a, b) == 0
unfoldable pub text_eq : Text → Text → Bool
text_eq [] [] = true
text_eq (x ∷ xs) (y ∷ ys) = (x == y) && text_eq xs ys
text_eq _ _ = false

pub text_eq_iff : (a b : Text) → (text_eq a b ≡ true) ↔ (a ≡ b)
unfolding text_eq
text_eq_iff [] [] = ground arith
text_eq_iff [] (y ∷ ys) = ground arith
text_eq_iff (x ∷ xs) [] = ground arith
text_eq_iff (x ∷ xs) (y ∷ ys) = ground (arith, text_eq_iff xs ys)

pub text_eq_refl : (a : Text) → text_eq a a ≡ true
text_eq_refl a = (text_eq_iff a a).1 refl

-- strchr(a, c) != nullptr, and strstr(a, s) for a string s of one byte
unfoldable pub has_byte : ℕ → Text → Bool
has_byte c [] = false
has_byte c (x ∷ xs) = (x == c) || has_byte c xs

-- The order of std::string, by bytes.
unfoldable pub text_compare : Text → Text → Ordering
text_compare [] [] = Ordering.eq
text_compare [] (y ∷ ys) = Ordering.lt
text_compare (x ∷ xs) [] = Ordering.gt
text_compare (x ∷ xs) (y ∷ ys) =
    let rest = text_compare xs ys in
    elim (compare x y) [
      | Ordering.lt ↦ Ordering.lt
      | Ordering.eq ↦ rest
      | Ordering.gt ↦ Ordering.gt
    ]

pub text_compare-eq : (a b : Text) → text_compare a b ≡ Ordering.eq → a ≡ b
unfolding text_compare
text_compare-eq [] [] h = refl
text_compare-eq [] (y ∷ ys) h = ground arith
text_compare-eq (x ∷ xs) [] h = ground arith
text_compare-eq (x ∷ xs) (y ∷ ys) h = ground (arith, text_compare-eq xs ys)

pub text_compare_refl : (a : Text) → text_compare a a ≡ Ordering.eq
unfolding text_compare
text_compare_refl [] = refl
text_compare_refl (x ∷ xs) = ground (arith, text_compare_refl xs)

-- The strict order that std::map sorts by.
abbrev pub TextLt : Text → Text → Type 0
TextLt a b = text_compare a b ≡ Ordering.lt

pub TextLt-trans : (a b c : Text) → TextLt a b → TextLt b c → TextLt a c
unfolding text_compare
TextLt-trans [] [] c h k = k
TextLt-trans [] (y ∷ ys) [] h k = ground arith
TextLt-trans [] (y ∷ ys) (z ∷ zs) h k = refl
TextLt-trans (x ∷ xs) [] c h k = ground arith
TextLt-trans (x ∷ xs) (y ∷ ys) [] h k = ground arith
TextLt-trans (x ∷ xs) (y ∷ ys) (z ∷ zs) h k = ground (arith, TextLt-trans xs ys zs)

pub text_compare-gt : (a b : Text) → text_compare a b ≡ Ordering.gt → TextLt b a
unfolding text_compare
text_compare-gt [] [] h = ground arith
text_compare-gt [] (y ∷ ys) h = ground arith
text_compare-gt (x ∷ xs) [] h = refl
text_compare-gt (x ∷ xs) (y ∷ ys) h = ground (arith, text_compare-gt xs ys)
