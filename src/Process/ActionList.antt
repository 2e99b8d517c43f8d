-- ===== src/Process/ActionList.antt =====
-- The loop of ProcessSpawn (src/wamr_ext_lib/WasiProcessExt.cpp) over the app's linked list of actions.
use wamr_ext.Prelude.{
  List, [], arith, false, length, none, refl, some, suc, zero, ℕ, ◌<◌, ◌==◌, ◌∷◌, ◌≡◌,
}
use wamr_ext.Prelude.Text.{Text}
use wamr_ext.Prelude.TextMap.{TextMap}
use wamr_ext.Exec.{done}
use wamr_ext.Process.{ProcHost, SpawnAction, World}
use wamr_ext.Process.Request.{action_at, read_actions, read_cmd, read_request, cons_result}
use wamr_ext.Process.Spawn.{process_spawn}

module _ {W : Type 0} (h : ProcHost W) where
  -- At the pointer stands an action that can be read, and the pointer after it.
  pub record Node (pointer : ℕ) (a : SpawnAction) (after : ℕ) : Type 0 where
    pub not_null : (pointer == 0) ≡ false
    pub address : ℕ
    pub native : h.vm.addr_app_to_native pointer ≡ some address
    pub reads : action_at h address ≡ done a
    pub linked : (h.read_action address).app_next_action_pointer ≡ after

  -- The list is laid out in the app's memory, with a null pointer at its end.
  abbrev pub IsLinked : ℕ → List SpawnAction → Type 0
  IsLinked pointer [] = pointer ≡ 0
  IsLinked pointer (a ∷ actions) = (after : ℕ) × Node pointer a after × IsLinked after actions

  read_actions-Node :
      (fuel pointer after : ℕ) (a : SpawnAction)
      → Node pointer a after
      → read_actions h (suc fuel) pointer ≡ elim (read_actions h fuel after) [
        | none ↦ none
        | some rest ↦ some (cons_result (done a) rest)
      ]
  unfolding read_actions
  read_actions-Node fuel pointer after a n =
      rw (n.not_null, read_actions, n.native, n.reads, n.linked) refl

  -- Where a list of actions is laid out, a loop of more rounds than it has actions ends with exactly these.
  pub read_actions-IsLinked :
      (fuel pointer : ℕ) (actions : List SpawnAction)
      → IsLinked pointer actions
      → length actions < fuel
      → read_actions h fuel pointer ≡ some (done actions)
  unfolding read_actions
  read_actions-IsLinked zero pointer actions i l = absurd (omega arith)
  read_actions-IsLinked (suc fuel) pointer [] i l = rw (i, read_actions) refl
  read_actions-IsLinked (suc fuel) pointer (a ∷ actions) (after, n, i) l =
      rw
        (
          read_actions-Node fuel pointer after a n,
          read_actions-IsLinked fuel after actions i (omega arith),
        )
        refl

  -- A set of pointers that the links do not leave.
  abbrev pub IsCycle : (ℕ → Type 0) → Type 0
  IsCycle C =
      (pointer : ℕ) → C pointer → (a : SpawnAction) × (after : ℕ) × Node pointer a after × C after

  read_actions-IsCycle :
      (C : ℕ → Type 0)
      → IsCycle C
      → (fuel pointer : ℕ) → C pointer
      → read_actions h fuel pointer ≡ none
  unfolding read_actions
  read_actions-IsCycle C cycle zero pointer c = refl
  read_actions-IsCycle C cycle (suc fuel) pointer c =
      let (a, after, n, d) = cycle pointer c in
      rw (read_actions-Node fuel pointer after a n, read_actions-IsCycle C cycle fuel after d) refl

  -- A defect: an app that links its actions in a cycle, with a name of the whitelist and arguments that can
  -- be read, makes a call of ProcessSpawn that never ends.
  pub cyclic_actions_hang :
      (C : ℕ → Type 0) (whitelist : TextMap Text) (req : ℕ) (c : Text × List Text) (s : World W)
      → IsCycle C
      → C (h.read_req req).app_fa_pointer
      → read_cmd h whitelist req ≡ done c
      → (fuel : ℕ) → process_spawn h fuel whitelist req s ≡ none
  unfolding process_spawn read_request
  cyclic_actions_hang C whitelist req c s cycle first cmd fuel =
      rw (cmd, process_spawn, read_request, read_actions-IsCycle C cycle fuel _ first) refl
