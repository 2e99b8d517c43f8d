-- ===== src/Prelude/Runs.antt =====
-- What comes about in every run of a step relation.
use Prim.Native.Nat.{ℕ, zero, suc, ◌<◌}
use mathlib.Core.Logic.{◌⊎◌, inl, inr}
use native.Mathlib.Omega.{arith}

module _ {S : Type 0} (R : S → S → Type 0) (P : S → Type 0) where
  -- Whatever steps are taken, a state with P comes, and a step can be taken until then.
  pub data Inevitably : S → Type 0 where
    now : {s : S} → P s → Inevitably s
    later : {s : S} (t : S) → R s t → ((v : S) → R s v → Inevitably v) → Inevitably s

  -- Steps can be taken from the states with Q, and lead to P or to Q with less to do.
  module _ (Q : S → Type 0) (work : S → ℕ) (can_go_on : (s : S) → Q s → (t : S) × R s t)
      (nearer : (s t : S) → Q s → R s t → P t ⊎ (Q t × (work t < work s))) where
    inevitable_within : (fuel : ℕ) (s : S) → Q s → work s < fuel → Inevitably s
    inevitable_within zero s q w = absurd (omega arith)
    inevitable_within (suc fuel) s q w =
        let (t, st) = can_go_on s q in
        later t st λ v sv. elim (nearer s v q sv) [
          | inl p ↦ now p
          | inr (q', less) ↦ inevitable_within fuel v q' (omega arith)
        ]

    pub inevitable : (s : S) → Q s → Inevitably s
    inevitable s q = inevitable_within (suc (work s)) s q (omega arith)
