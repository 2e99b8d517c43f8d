-- ===== src/Instance/Freeing.antt =====
-- What becomes of a DESTROYED instance (src/wamr_ext_api/wamr_ext_api.cpp), whatever else runs.
use wamr_ext.Prelude.{
  inl, inr, ℕ, true, false, ◌≡◌, ◌+◌, ◌<◌, arith, refl, none, ◌⊎◌, if◌then◌else◌,
}
use wamr_ext.Prelude.Runs.{Inevitably, inevitable}
use wamr_ext.Config.{InstanceConfig}
use wamr_ext.Instance.{State}
use wamr_ext.Instance.Start.{may_start, may_run_main}
use wamr_ext.Instance.Destroy.{begin_destroy, is_destroying}
use wamr_ext.Instance.Loop.{check_instance}
use wamr_ext.Instance.Interleave.{
  Shared, Step, Reach, Inv, Holder, created, Reach-created-Inv, start_begins, start_ends,
  main_begins, main_ends, destroy_begins, destroy_ends, destroy_leaves, loop_keeps, loop_erases,
  Step-Inv,
}

-- Off the list, freed, and with no call inside.
pub record IsGone (s : Shared) : Type 0 where
  pub unlisted : s.listed ≡ false
  pub is_freed : s.freed ≡ true
  pub nobody_inside : s.holder ≡ Holder.nobody

-- DESTROYED, and not yet gone.
record Going (s : Shared) : Type 0 where
  inv : Inv s
  destroyed : s.inst.state ≡ State.destroyed
  not_gone : (s.listed ≡ true) ⊎ (s.holder ≡ Holder.leaving)

abbrev left_by : Holder → ℕ
left_by Holder.nobody = 0
left_by _ = 1

abbrev work : Shared → ℕ
work s = (if s.listed then 1 else 0) + left_by s.holder

destroyed_erases :
    (s : Shared) → s.inst.state ≡ State.destroyed → (check_instance none s.inst).2 ≡ true
unfolding check_instance
destroyed_erases s d = ground arith

not_stuck : (s : Shared) → Going s → (t : Shared) × Step s t
not_stuck s g = elim g.not_gone [
  | inl l ↦ (
    record s { listed = false; freed = true },
    loop_erases none l (destroyed_erases s g.destroyed) refl,
  )
  | inr h ↦ (record s { holder = Holder.nobody }, destroy_leaves h refl)
]

abbrev Nearer : Shared → Shared → Type 0
Nearer s t =
    IsGone t
    ⊎ ((t.inst.state ≡ State.destroyed)
        × ((t.listed ≡ true) ⊎ (t.holder ≡ Holder.leaving))
        × (work t < work s))

-- A step of a DESTROYED instance takes it off the list, or is the end of the call that destroyed it.
Step-Nearer : {s t : Shared} → Step s t → Going s → Nearer s t
unfolding may_start may_run_main begin_destroy check_instance is_destroying
Step-Nearer (start_begins h f m e) g = absurd (ground (arith, g.destroyed))
Step-Nearer (start_ends a h e) g = absurd (ground (arith, g.destroyed, g.inv.starting_new))
Step-Nearer (main_begins h f m e) g = absurd (ground (arith, g.destroyed))
Step-Nearer (main_ends h e) g = absurd (ground (arith, g.destroyed, g.inv.main_started))
Step-Nearer (destroy_begins b h f m e) g = absurd (ground (arith, g.destroyed))
Step-Nearer (destroy_ends h e) g = absurd (ground (arith, g.destroyed, g.inv.tearing_destroying))
Step-Nearer (destroy_leaves h e) g = ground (arith, g.destroyed, g.inv.unlisted_freed)
Step-Nearer (loop_keeps x l k e) g = absurd (ground (arith, g.destroyed))
Step-Nearer (loop_erases x l k e) g =
    ground (arith, g.destroyed, g.inv.starting_new, g.inv.main_started, g.inv.tearing_destroying)

nearer : (s t : Shared) → Going s → Step s t → IsGone t ⊎ (Going t × (work t < work s))
nearer s t g st = elim (Step-Nearer st g) [
  | inl gone ↦ inl gone
  | inr (d, n, less) ↦ inr (record { inv = Step-Inv st g.inv; destroyed = d; not_gone = n }, less)
]

-- Once an instance on the list is DESTROYED: whatever is called and whenever the loop runs, it is taken
-- off the list and freed, and the call that destroyed it ends.
pub destroyed_goes :
    {s : Shared} (c : InstanceConfig)
    → Reach (created c) s
    → s.inst.state ≡ State.destroyed
    → s.listed ≡ true
    → Inevitably Step IsGone s
destroyed_goes {s} c r d l =
    inevitable Step IsGone Going work not_stuck nearer s
      (record { inv = Reach-created-Inv c r; destroyed = d; not_gone = inl l })
