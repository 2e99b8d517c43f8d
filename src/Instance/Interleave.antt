-- ===== src/Instance/Interleave.antt =====
-- An instance while API calls and the loop thread interleave. The execFuncLock lets one of start,
-- exec_main_func and destroy run at a time; the instanceLock makes their first and last sections and
-- each round of the loop atomic. A step is one such section (src/wamr_ext_api/wamr_ext_api.cpp).
use wamr_ext.Prelude.Text.{Text}
use wamr_ext.Config.{InstanceConfig}
use wamr_ext.Instance.{Instance, State, new_instance}
use wamr_ext.Prelude.{ℕ, Bool, Option, arith, false, none, some, true, ◌+◌, ◌≡◌, ◌≤◌, ◌⊎◌, refl}
use wamr_ext.Instance.Start.{StartAnswers, may_start, start_body, may_run_main}
use wamr_ext.Instance.Destroy.{begin_destroy, end_destroy}
use wamr_ext.Instance.Loop.{check_instance, Callback}

-- What the holder of execFuncLock is doing; `leaving` is a destroy that has set DESTROYED, released
-- the instanceLock, and has not released execFuncLock, which is a member of the instance.
pub data Holder : Type 0 where
  nobody starting running_main tearing_down leaving : Holder

-- `listed`: on gAllInstanceList. `freed`: the last shared pointer is gone (the
-- walk's own one, which it lets go soon after, counts with the list's). `reported`: how often the
-- exception callback was called.
pub record Shared : Type 0 where
  pub inst : Instance
  pub holder : Holder
  pub listed : Bool
  pub freed : Bool
  pub reported : ℕ

abbrev pub calls : Option Callback → ℕ
calls none = 0
calls (some cb) = 1

pub data Step (s : Shared) (t : Shared) : Type 0 where
  start_begins :
      s.holder ≡ nobody
      → s.freed ≡ false
      → may_start s.inst ≡ true
      → t ≡ record s { holder = starting }
      → Step s t
  start_ends :
      (a : StartAnswers)
      → s.holder ≡ starting
      → t ≡ record s { holder = nobody; inst = (start_body a s.inst).1 }
      → Step s t
  main_begins :
      s.holder ≡ nobody
      → s.freed ≡ false
      → may_run_main s.inst ≡ true
      → t ≡ record s { holder = running_main }
      → Step s t
  main_ends : s.holder ≡ running_main → t ≡ record s { holder = nobody } → Step s t
  destroy_begins :
      (run_dtor : Bool)
      → s.holder ≡ nobody
      → s.freed ≡ false
      → (begin_destroy s.inst).0 ≡ some run_dtor
      → t ≡ record s { holder = tearing_down; inst = (begin_destroy s.inst).1 }
      → Step s t
  destroy_ends :
      s.holder ≡ tearing_down
      → t ≡ record s { holder = leaving; inst = end_destroy s.inst }
      → Step s t
  destroy_leaves : s.holder ≡ leaving → t ≡ record s { holder = nobody } → Step s t
  loop_keeps :
      (exception : Option Text)
      → s.listed ≡ true
      → (check_instance exception s.inst).2 ≡ false
      → t ≡ record s {
        inst = (check_instance exception s.inst).0;
        reported = s.reported + calls (check_instance exception s.inst).1;
      }
      → Step s t
  loop_erases :
      (exception : Option Text)
      → s.listed ≡ true
      → (check_instance exception s.inst).2 ≡ true
      → t ≡ record s { listed = false; freed = true }
      → Step s t

pub data Reach (s : Shared) : Shared → Type 0 where
  here : Reach s s
  next : {t u : Shared} → Reach s t → Step t u → Reach s u

-- What wamr_ext_instance_create leaves.
unfoldable pub created : InstanceConfig → Shared
unfolding new_instance
created c = record {
  inst = new_instance c;
  holder = nobody;
  listed = true;
  freed = false;
  reported = 0;
}

-- How far a state is along the instance's life.
unfoldable pub rank : State → ℕ
rank State.new = 0
rank State.started = 1
rank State.ended = 2
rank State.destroying = 3
rank State.destroyed = 4

pub record Inv (s : Shared) : Type 0 where
  pub starting_new : s.holder ≡ starting → s.inst.state ≡ State.new
  pub main_started :
      s.holder ≡ running_main → (s.inst.state ≡ State.started) ⊎ (s.inst.state ≡ State.ended)
  pub tearing_destroying : s.holder ≡ tearing_down → s.inst.state ≡ State.destroying
  pub destroying_torn : s.inst.state ≡ State.destroying → s.holder ≡ tearing_down
  pub leaving_destroyed : s.holder ≡ leaving → s.inst.state ≡ State.destroyed
  pub freed_destroyed : s.freed ≡ true → s.inst.state ≡ State.destroyed
  pub unlisted_freed : s.listed ≡ false → s.freed ≡ true
  pub one_report : s.reported ≤ 1
  pub early_unreported : rank s.inst.state ≤ 1 → s.reported ≡ 0

pub Step-Inv : {s t : Shared} → Step s t → Inv s → Inv t
unfolding rank may_start start_body may_run_main begin_destroy end_destroy check_instance
Step-Inv (start_begins h f m e) v = ground arith
Step-Inv (start_ends a h e) v = ground arith
Step-Inv (main_begins h f m e) v = ground arith
Step-Inv (main_ends h e) v = ground arith
Step-Inv (destroy_begins b h f m e) v = ground arith
Step-Inv (destroy_ends h e) v = ground arith
Step-Inv (destroy_leaves h e) v = ground arith
Step-Inv (loop_keeps x l k e) v = ground arith
Step-Inv (loop_erases x l k e) v = ground arith

Reach-Inv : {s t : Shared} → Inv s → Reach s t → Inv t
Reach-Inv v here = v
Reach-Inv v (next r st) = Step-Inv st (Reach-Inv v r)

created-Inv : (c : InstanceConfig) → Inv (created c)
unfolding created rank
created-Inv c = ground arith

-- In every interleaving of calls and the loop: while a start runs the instance is NEW, while main
-- runs it is STARTED or ENDED, a DESTROYING instance has exactly one call tearing it down, it is
-- freed only after it is DESTROYED, and its exception callback is called at most once.
pub Reach-created-Inv : {s : Shared} (c : InstanceConfig) → Reach (created c) s → Inv s
Reach-created-Inv c r = Reach-Inv (created-Inv c) r

Step-rank : {s t : Shared} → Step s t → Inv s → rank s.inst.state ≤ rank t.inst.state
unfolding rank may_start start_body may_run_main begin_destroy end_destroy check_instance
Step-rank (start_begins h f m e) v = ground arith
Step-rank (start_ends a h e) v = ground arith
Step-rank (main_begins h f m e) v = ground arith
Step-rank (main_ends h e) v = ground arith
Step-rank (destroy_begins b h f m e) v = ground arith
Step-rank (destroy_ends h e) v = ground arith
Step-rank (destroy_leaves h e) v = ground arith
Step-rank (loop_keeps x l k e) v = ground arith
Step-rank (loop_erases x l k e) v = ground arith

Reach-rank : {s t : Shared} → Inv s → Reach s t → rank s.inst.state ≤ rank t.inst.state
Reach-rank v here = omega arith
Reach-rank v (next r st) = omega (arith, Reach-rank v r, Step-rank st (Reach-Inv v r))

-- An instance never goes back to an earlier state: NEW, STARTED, ENDED, DESTROYING, DESTROYED.
pub states_only_rise :
    {s t : Shared} (c : InstanceConfig)
    → Reach (created c) s
    → Reach s t
    → rank s.inst.state ≤ rank t.inst.state
states_only_rise c r r' = Reach-rank (Reach-created-Inv c r) r'

still_listed : (s : Shared) → Inv s → s.holder ≡ tearing_down → s.listed ≡ true
still_listed s v h = ground (arith, v.tearing_destroying, v.freed_destroyed, v.unlisted_freed)

-- A defect: from any reachable state in which a call tears the instance down, the loop can free the
-- instance after the call has set DESTROYED and before the call releases execFuncLock, which is part
-- of the freed instance.
pub freed_while_locked :
    {s : Shared} (c : InstanceConfig)
    → Reach (created c) s
    → s.holder ≡ tearing_down
    → (t : Shared) × Reach s t × (t.freed ≡ true) × (t.holder ≡ leaving)
unfolding check_instance end_destroy
freed_while_locked {s} c r h =
    let v = Reach-created-Inv c r in
    let l : s.listed ≡ true = still_listed s v h in
    let set = record s { holder = leaving; inst = end_destroy s.inst } in
    (
      record set { listed = false; freed = true },
      next (next here (destroy_ends h refl)) (loop_erases none l refl refl),
      refl,
      refl,
    )
