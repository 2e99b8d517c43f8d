-- ===== src/Errno/Laws.antt =====
-- What the conversion of error numbers guarantees.
use wamr_ext.Prelude.{
  ℕ, zero, suc, ◌<◌, ◌≡◌, ◌≢◌, inl, inr, refl, ap, ◌↔◌, ◌++◌, Bool, true, false, some, List, [],
  ◌∷◌, arith, All, All-append, Bool-cases, ◌==◌, ==_iff, if◌then◌else◌,
}
use wamr_ext.Prelude.Int.{ℤ, pos, negsuc}
use wamr_ext.Errno.{
  Errno, success, enotsup, eagain, enotcapable, Errno-discrete, HostErrnos, named, aliases, find,
  numbered, or_enosys, convert_errno_to_wasi_errno, before_notcapable, after_notcapable,
}

-- No entry of a table stands for success.
abbrev NoSuccess : List (ℕ × Errno) → Type 0
NoSuccess = All (λ (p : ℕ × Errno). p.1 ≢ success)

find-NoSuccess : (n : ℕ) (t : List (ℕ × Errno)) → NoSuccess t → or_enosys (find n t) ≢ success
unfolding find
find-NoSuccess n [] s = λ e. cc
find-NoSuccess n ((k, e) ∷ t) s = elim (Bool-cases (k == n)) [
  | inl hit ↦ rw (hit, find) s.0
  | inr miss ↦ rw (miss, find) (find-NoSuccess n t s.1)
]

pub is_success : Errno → Bool
is_success success = true
is_success _ = false

all_fail : List Errno → Bool
unfolding is_success
all_fail [] = true
all_fail (e ∷ es) = if is_success e then false else all_fail es

fails : (e : Errno) → is_success e ≡ false → e ≢ success
unfolding is_success
fails e h p = let q : is_success e ≡ true = ap is_success p in cc

all_fail-NoSuccess :
    (h : HostErrnos) (es : List Errno) → all_fail es ≡ true → NoSuccess (numbered h es)
unfolding all_fail
all_fail-NoSuccess h [] a = tt
all_fail-NoSuccess h (e ∷ es) a = elim (Bool-cases (is_success e)) [
  | inl good ↦ let b : false ≡ true = rw (good, all_fail) at a in absurd (cc b)
  | inr bad ↦ (fails e bad, all_fail-NoSuccess h es (rw (bad, all_fail) at a))
]

named-NoSuccess : (h : HostErrnos) → NoSuccess (numbered h (named h))
unfolding named all_fail is_success
named-NoSuccess h = elim (Bool-cases h.has_enotcapable) [
  | inl with_it ↦ all_fail-NoSuccess h (named h) (rw with_it refl)
  | inr without ↦ all_fail-NoSuccess h (named h) (rw without refl)
]

aliases-NoSuccess : (h : HostErrnos) → NoSuccess (aliases h)
unfolding aliases
aliases-NoSuccess h =
    All-append _ (if h.eopnotsupp == h.value enotsup then [] else (h.eopnotsupp, enotsup) ∷ [])
      (if h.ewouldblock == h.value eagain then [] else (h.ewouldblock, eagain) ∷ [])
      (entry _ h.eopnotsupp enotsup (λ e. cc)) (entry _ h.ewouldblock eagain (λ e. cc))
  where
    entry : (b : Bool) (n : ℕ) (x : Errno) → x ≢ success → NoSuccess (if b then [] else (n, x) ∷ [])
    entry true n x f = tt
    entry false n x f = (f, tt)

-- A host error number, whatever it is, is never reported as success, and 0 always is.
pub convert_eq_success_iff :
    (h : HostErrnos) (n : ℤ) → (convert_errno_to_wasi_errno h n ≡ success) ↔ (n ≡ pos 0)
unfolding convert_errno_to_wasi_errno
convert_eq_success_iff h (pos zero) = (λ e. refl, λ e. refl)
convert_eq_success_iff h (negsuc n) = (λ e. absurd (cc e), λ e. absurd (cc e))
convert_eq_success_iff h (pos (suc n)) = (
  λ e. absurd (
      find-NoSuccess (suc n) _
        (All-append _ (numbered h (named h)) (aliases h) (named-NoSuccess h) (aliases-NoSuccess h))
        e),
  λ e. absurd (cc e),
)

-- Distinct names have distinct numbers, and none is 0: what C and POSIX say of the E* macros.
pub record IsDistinct (h : HostErrnos) : Type 0 where
  pub positive : (e : Errno) → e ≢ success → 0 < h.value e
  pub injective : (a b : Errno) → a ≢ success → b ≢ success → h.value a ≡ h.value b → a ≡ b

same : Errno → Errno → Bool
unfolding Errno-discrete
same a b = elim (Errno-discrete a b) [ yes p ↦ true | no p ↦ false ]

same_refl : (a : Errno) → same a a ≡ true
unfolding same
same_refl a = go (Errno-discrete a a)
  where
    go : (d : Dec (a ≡ a)) → elim d [ yes p ↦ true | no p ↦ false ] ≡ true
    go (yes p) = refl
    go (no p) = absurd (p refl)

same-eq : (a b : Errno) → same a b ≡ true → a ≡ b
unfolding same
same-eq a b = go (Errno-discrete a b)
  where
    go : (d : Dec (a ≡ b)) → elim d [ yes p ↦ true | no p ↦ false ] ≡ true → a ≡ b
    go (yes p) h = p
    go (no p) h = absurd (cc h)

elem : Errno → List Errno → Bool
elem e [] = false
elem e (x ∷ xs) = let rest = elem e xs in if same x e then true else rest

elem-named_at :
    (b : Bool) (e : Errno)
    → e ≢ success
    → (e ≡ enotcapable → b ≡ true)
    → elem e (before_notcapable ++ ((if b then enotcapable ∷ [] else []) ++ after_notcapable))
      ≡ true
unfolding elem same
elem-named_at true success f g = absurd (f refl)
elem-named_at true _ f g = refl
elem-named_at false success f g = absurd (f refl)
elem-named_at false enotcapable f g = absurd (cc (g refl))
elem-named_at false _ f g = refl

-- A listed name is found under its number, whatever stands behind the list.
find-numbered :
    (h : HostErrnos) (d : IsDistinct h) (e : Errno)
    → e ≢ success
    → (es : List Errno) (t : List (ℕ × Errno)) → NoSuccess (numbered h es)
    → elem e es ≡ true
    → find (h.value e) (numbered h es ++ t) ≡ some e
unfolding find elem
find-numbered h d e f [] t s m = absurd (cc m)
find-numbered h d e f (x ∷ es) t s m = elim (Bool-cases (h.value x == h.value e)) [
  | inl hit ↦
      rw (hit, find) (ap some (d.injective x e s.0 f ((==_iff (h.value x) (h.value e)).0 hit)))
  | inr miss ↦
      rw (miss, find)
        (find-numbered h d e f es t s.1 (elim (Bool-cases (same x e)) [
          | inl it ↦
              let w : h.value x ≡ h.value e = ap h.value (same-eq x e it) in
              absurd (cc ((==_iff (h.value x) (h.value e)).1 w))
          | inr other ↦ rw (other, elem) at m
        ]))
]

-- Where the host's macros have distinct numbers, each error that has a WASI name is converted to
-- the WASI error of that name (ENOTCAPABLE only on a host that has it).
pub convert-value :
    (h : HostErrnos) (d : IsDistinct h) (e : Errno)
    → e ≢ success
    → (e ≡ enotcapable → h.has_enotcapable ≡ true)
    → convert_errno_to_wasi_errno h (pos (h.value e)) ≡ e
unfolding convert_errno_to_wasi_errno named
convert-value h d e f g = go (h.value e) refl
  where
    go : (n : ℕ) → h.value e ≡ n → convert_errno_to_wasi_errno h (pos n) ≡ e
    go zero p = absurd (omega (arith, d.positive e f))
    go (suc n) p =
        rw
          (
            ← p,
            find-numbered h d e f (named h) (aliases h) (named-NoSuccess h) (elem-named_at _ e f g),
          )
          refl
