-- ===== src/Process/Waiters/Safety.antt =====
-- What holds whatever threads call ProcessSpawn and ProcessWaitPID at the same time.
use wamr_ext.Prelude.{
  ℕ, List, ◌≡◌, none, some, arith, Bool-cases, Option-cases, inl, inr, false, ◌||◌,
}
use wamr_ext.Prelude.Int.{ℤ}
use wamr_ext.Prelude.NumMap.{find_key, assign, remove, find_key-assign, find_key-remove}
use wamr_ext.Process.{enter_child, erase_child, new_proc_manager}
use wamr_ext.Process.Children.{Inverse, new-Inverse, enter_child-Inverse, erase_child-Inverse}
use wamr_ext.Process.Waiters.{
  Shared, Step, Reach, pipe_of, other_file, reap_child, check_ready, no_children, contains, Waiter,
  begin, then, begins, wakes, reads, checks, repeats, returns, other_reaps, other_starts,
  other_enters, other_enters_again, other_opens, other_closes, exits, collects, gets_ready,
}

-- The maps are inverse, and each child's entry has its own pipe, which is open.
pub record Inv (s : Shared) : Type 0 where
  pub inverse : Inverse s.manager
  pub piped :
      (pid fd : ℕ)
      → find_key pid s.manager.child_proc_map ≡ some fd
      → find_key fd s.open_files ≡ some (pipe_of pid)

reap_child-Inv :
    (pid fd : ℕ) (s : Shared)
    → find_key pid s.manager.child_proc_map ≡ some fd
    → Inv s
    → Inv (reap_child pid fd s)
unfolding reap_child erase_child
reap_child-Inv pid fd s has v = record {
  inverse = erase_child-Inverse pid fd s.manager v.inverse has;
  piped = λ p f e. ground (
    arith,
    find_key-remove p pid s.manager.child_proc_map,
    find_key-remove f fd s.open_files,
    v.piped pid fd has,
    v.piped p f,
  );
}

-- The pipe of a child that is not in the maps is no other child's either.
no_entry :
    (pid fd : ℕ) (s : Shared)
    → find_key fd s.open_files ≡ some (pipe_of pid)
    → find_key pid s.manager.child_proc_map ≡ none
    → Inv s
    → find_key fd s.manager.poll_fd_to_proc_map ≡ none
no_entry pid fd s e n v = elim (Option-cases (find_key fd s.manager.poll_fd_to_proc_map)) [
  | inl free ↦ free
  | inr (p, h) ↦
      let has = (v.inverse p fd).1 h in let owns = v.piped p fd has in absurd (ground arith)
]

starts-Inv :
    (pid fd : ℕ) (s : Shared)
    → find_key fd s.open_files ≡ none
    → Inv s
    → Inv (record s { open_files = assign fd (pipe_of pid) s.open_files })
starts-Inv pid fd s free v = record {
  inverse = v.inverse;
  piped = λ p f e. ground (arith, find_key-assign f fd (pipe_of pid) s.open_files, v.piped p f);
}

enters-Inv :
    (pid fd : ℕ) (s : Shared)
    → find_key fd s.open_files ≡ some (pipe_of pid)
    → find_key pid s.manager.child_proc_map ≡ none
    → Inv s
    → Inv (record s { manager = enter_child pid fd s.manager })
unfolding enter_child
enters-Inv pid fd s opened new_pid v = record {
  inverse =
      enter_child-Inverse pid fd s.manager v.inverse new_pid (no_entry pid fd s opened new_pid v);
  piped = λ p f e. ground (arith, find_key-assign p pid fd s.manager.child_proc_map, v.piped p f);
}

opens-Inv :
    (fd : ℕ) (s : Shared)
    → find_key fd s.open_files ≡ none
    → Inv s
    → Inv (record s { open_files = assign fd other_file s.open_files })
opens-Inv fd s free v = record {
  inverse = v.inverse;
  piped = λ p f e. ground (arith, find_key-assign f fd other_file s.open_files, v.piped p f);
}

closes-Inv :
    (fd : ℕ) (s : Shared)
    → find_key fd s.open_files ≡ some other_file
    → Inv s
    → Inv (record s { open_files = remove fd s.open_files })
closes-Inv fd s is_other v = record {
  inverse = v.inverse;
  piped = λ p f e. ground (arith, find_key-remove f fd s.open_files, v.piped p f);
}

at-Inv : (w : Waiter) (s : Shared) → Inv s → Inv (record s { waiter = w })
at-Inv w s v = record { inverse = v.inverse; piped = v.piped }

check_ready-Inv :
    (pid : ℤ) (fd : ℕ) (ready : List ℕ) (s : Shared) → Inv s → Inv (check_ready pid fd ready s)
unfolding check_ready
check_ready-Inv pid fd ready s v = elim (Option-cases (find_key fd s.manager.poll_fd_to_proc_map)) [
  | inl e ↦ rw (e, check_ready) (at-Inv _ s v)
  | inr (child, e) ↦ elim (Bool-cases (contains s.exited child || contains s.collected child)) [
    | inl ended ↦
        rw (e, check_ready, ended)
          (at-Inv _ _ (reap_child-Inv child fd s ((v.inverse child fd).1 e) v))
    | inr alive ↦ rw (e, check_ready, alive) (at-Inv _ s v)
  ]
]

Step-Inv : {s t : Shared} → Step false s t → Inv s → Inv t
Step-Inv {s} (begins pid fds w e q) v = rw q (at-Inv _ s v)
Step-Inv {s} (wakes pid fds ready w r q) v = rw q (at-Inv _ s v)
Step-Inv {s} (reads pid fd ready w q) v = rw q (record { inverse = v.inverse; piped = v.piped })
Step-Inv {s} (checks pid fd ready w q) v = rw q (check_ready-Inv pid fd ready s v)
Step-Inv {s} (repeats pid w q) v = rw q (at-Inv _ s v)
Step-Inv {s} (returns pid child w q) v = rw q (at-Inv _ s v)
Step-Inv {s} (other_reaps child fd e x q) v = rw q (reap_child-Inv child fd s e v)
Step-Inv {s} (other_starts child fd x q) v = rw q (starts-Inv child fd s x v)
Step-Inv {s} (other_enters child fd x n q) v = rw q (enters-Inv child fd s x n v)
Step-Inv {s} (other_enters_again child fd r x n q) v = absurd (cc r)
Step-Inv {s} (other_opens fd x q) v = rw q (opens-Inv fd s x v)
Step-Inv {s} (other_closes fd x q) v = rw q (closes-Inv fd s x v)
Step-Inv {s} (exits child q) v = rw q (record { inverse = v.inverse; piped = v.piped })
Step-Inv {s} (collects child x q) v = rw q (record { inverse = v.inverse; piped = v.piped })
Step-Inv {s} (gets_ready child q) v = rw q (record { inverse = v.inverse; piped = v.piped })

pub Reach-Inv : {s t : Shared} → Inv s → Reach false s t → Inv t
Reach-Inv v begin = v
Reach-Inv v (then r st) = Step-Inv st (Reach-Inv v r)

-- Whatever threads spawn and wait for children at the same time, also where children write to their pipes
-- or other code of the process collects their status, as long as the system gives no new child a pid that
-- is still in the maps: the maps stay each other's inverse, and the pipe of each child that is known is
-- open and is that child's.
pub children_own_pipes : {s : Shared} → Reach false no_children s → Inv s
unfolding no_children new_proc_manager find_key
children_own_pipes r =
    Reach-Inv (record { inverse = new-Inverse; piped = λ p f e. absurd (ground arith) }) r
