-- ===== src/Exec.antt =====
-- Handlers of syscalls: code that changes the state of the world and may return early with an error
-- code. `raise e` is `return e` with e not 0; what was done before it stays done.
use wamr_ext.Prelude.Int.{pos}
use wamr_ext.Prelude.{ℕ, Bool, false, true, ◌≡◌, ◌⊎◌, inl, inr, refl}
use wamr_ext.Errno.{Errno, HostErrnos, convert_errno_to_wasi_errno, success}

pub data Result {ℓ} (A : Type ℓ) : Type ℓ where
  done : A → Result A
  raise : Errno → Result A

-- A C call that returns a value, or -1 with errno set.
pub data CRet {ℓ} (A : Type ℓ) : Type ℓ where
  returns : A → CRet A
  fails : ℕ → CRet A

abbrev pub Exec : Type 0 → Type 0 → Type 0
Exec W A = W → Result A × W

-- What a C call returned; a failure raises the WASI code of errno.
abbrev pub checked : {A : Type 0} → HostErrnos → CRet A → Result A
checked h (returns a) = done a
checked h (fails n) = raise (convert_errno_to_wasi_errno h (pos n))

module _ {W A : Type 0} where
  abbrev pub pure : A → Exec W A
  pure a w = (done a, w)

  abbrev pub throw : Errno → Exec W A
  throw e w = (raise e, w)

  abbrev pub lift : Result A → Exec W A
  lift r w = (r, w)

  abbrev pub sys : HostErrnos → (W → CRet A × W) → Exec W A
  sys h call w = let (r, w') = call w in (checked h r, w')

module _ {W A B : Type 0} where
  abbrev pub continue : Result A → (A → Exec W B) → Exec W B
  continue (done a) f w = f a w
  continue (raise e) f w = (raise e, w)

  infixl 10 ◌>>=◌ ◌>>◌
  abbrev pub ◌>>=◌ : Exec W A → (A → Exec W B) → Exec W B
  ◌>>=◌ m f w = let (r, w') = m w in continue r f w'

  abbrev pub ◌>>◌ : Exec W A → Exec W B → Exec W B
  m >> n = m >>= λ _. n

pub Result-cases {ℓ} :
    {A : Type ℓ} (r : Result A) → ((a : A) × (r ≡ done a)) ⊎ ((e : Errno) × (r ≡ raise e))
Result-cases (done a) = inl (a, refl)
Result-cases (raise e) = inr (e, refl)

module _ {W A B : Type 0} where
  continue-done :
      (r : Result A) (f : A → Exec W B) (w : W) (b : B)
      → (continue r f w).0 ≡ done b
      → (a : A) × (r ≡ done a) × ((f a w).0 ≡ done b)
  continue-done (done a) f w b e = (a, refl, e)
  continue-done (raise x) f w b e = absurd (cc e)

  -- A run of two parts that ends without an error.
  pub bind-done :
      (m : Exec W A) (f : A → Exec W B) (w : W) (b : B)
      → ((m >>= f) w).0 ≡ done b
      → (a : A) × ((m w).0 ≡ done a) × ((f a (m w).1).0 ≡ done b)
  bind-done m f w b e = continue-done (m w).0 f (m w).1 b e

-- if (!b) return e;
abbrev pub require : {W : Type 0} → Bool → Errno → Exec W (Unit {0})
require true e w = (done tt, w)
require false e w = (raise e, w)

-- The code that the handler returns.
abbrev pub code_of : {A : Type 0} → Result A → Errno
code_of (done a) = success
code_of (raise e) = e
