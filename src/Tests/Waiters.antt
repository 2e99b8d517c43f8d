-- ===== src/Tests/Waiters.antt =====
-- A run of Process/Waiters: a thread waits for a child, which ends.
use wamr_ext.Prelude.{ℕ, [], ◌∷◌, ◌≡◌, true, ◌≢◌, arith, refl, false}
use wamr_ext.Prelude.Int.{pos}
use wamr_ext.Prelude.NumMap.{find_key, assign}
use wamr_ext.Process.{enter_child, new_proc_manager}
use wamr_ext.Process.Wait.{proc_poll_fds}
use wamr_ext.Process.Waiters.{
  Shared, Reach, pipe_of, no_children, contains, polling, woken, reaped, begin, then, begins, wakes,
  other_starts, other_enters, exits, IsReady,
}
use wamr_ext.Process.Waiters.Safety.{Inv, children_own_pipes}
use wamr_ext.Process.Waiters.Races.{waiter_reaps_other_child}

abbrev spawned : Shared
spawned = record no_children {
  manager = enter_child 7 3 no_children.manager;
  open_files = assign 3 (pipe_of 7) no_children.open_files;
}

abbrev waiting : Shared
waiting = record spawned { waiter = polling (pos 7) (3 ∷ []); exited = 7 ∷ [] }

abbrev awake : Shared
awake = record waiting { waiter = woken (pos 7) (3 ∷ []) }

is_ready :
    (fd : ℕ) → contains (3 ∷ []) fd ≡ true → (contains (3 ∷ []) fd ≡ true) × IsReady waiting fd
unfolding no_children find_key assign
is_ready fd e = (e, (7, ground arith, refl))

to_awake : Reach false no_children awake
unfolding no_children new_proc_manager enter_child find_key assign proc_poll_fds
to_awake =
    then
      (then
        (then (then (then begin (other_starts 7 3 refl refl)) (other_enters 7 3 refl refl refl))
          (begins (pos 7) (3 ∷ []) refl refl refl))
        (exits 7 refl))
      (wakes (pos 7) (3 ∷ []) (3 ∷ []) refl is_ready refl)

children_own_pipes_example : Inv awake
children_own_pipes_example = children_own_pipes to_awake

waiter_reaps_other_child_example :
    (t : Shared) × Reach false awake t × (t.waiter ≡ reaped (pos 7) 8) × ◌≢◌ {A = ℕ} 8 7
unfolding no_children new_proc_manager enter_child find_key assign
waiter_reaps_other_child_example = waiter_reaps_other_child 7 3 8 to_awake refl refl refl refl
