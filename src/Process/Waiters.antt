-- ===== src/Process/Waiters.antt =====
-- ProcessWaitPID and ProcessSpawn (src/wamr_ext_lib/WasiProcessExt.cpp) called by several threads of an
-- app: one thread's wait, and what other threads and the system do between its critical sections.
pub mod Safety
pub mod Races
use wamr_ext.Prelude.{
  ℕ, Bool, List, Option, [], ◌∷◌, ◌≡◌, ◌==◌, ◌||◌, none, some, true, false, if◌then◌else◌,
}
use wamr_ext.Prelude.Int.{ℤ}
use wamr_ext.Prelude.NumMap.{NumMap, find_key, assign, remove}
use wamr_ext.Process.{ProcManager, enter_child, erase_child, new_proc_manager, exited}
use wamr_ext.Process.Wait.{proc_poll_fds}

-- What a descriptor of the process refers to: the read end of a child's pipe, or any other file.
pub data File : Type 0 where
  pipe_of : ℕ → File
  other_file : File

-- Where the thread is in ProcessWaitPID: in poll; with the descriptors that poll found ready and that are
-- still to be checked; after the read of one of them; and at the end, with what it was asked and *retPID.
pub data Waiter : Type 0 where
  outside : Waiter
  polling : ℤ → List ℕ → Waiter
  woken : ℤ → List ℕ → Waiter
  has_read : ℤ → ℕ → List ℕ → Waiter
  reaped : ℤ → ℕ → Waiter

-- `open_files`: the descriptors of the process; `exited`: the children that have ended and were not
-- waited for; `collected`: those whose status other code of the process took, so that waitpid answers
-- ECHILD; `ready`: those that have written to their end of the pipe or closed it, whether they run or not; `read_from`: what the thread's calls of read were made on, latest first.
pub record Shared : Type 0 where
  pub manager : ProcManager
  pub open_files : NumMap File
  pub exited : List ℕ
  pub collected : List ℕ
  pub ready : List ℕ
  pub waiter : Waiter
  pub read_from : List (Option File)

abbrev pub contains : List ℕ → ℕ → Bool
contains [] p = false
contains (q ∷ qs) p = (q == p) || contains qs p

-- The child of a descriptor has ended, or has written to its end of the pipe or closed it.
abbrev pub IsReady : Shared → ℕ → Type 0
IsReady s fd =
    (child : ℕ) × (find_key fd s.open_files ≡ some (pipe_of child))
    × ((contains s.exited child || (contains s.collected child || contains s.ready child)) ≡ true)

unfoldable pub forget : ℕ → List ℕ → List ℕ
forget p [] = []
forget p (q ∷ qs) = let rest = forget p qs in if q == p then rest else q ∷ rest

-- A child that is reaped: its pipe is closed and its entries are erased.
unfoldable pub reap_child : ℕ → ℕ → Shared → Shared
unfolding erase_child forget
reap_child pid fd s = record s {
  manager = erase_child pid fd s.manager;
  open_files = remove fd s.open_files;
  exited = forget pid s.exited;
  collected = forget pid s.collected;
}

-- The section under the lock, on a descriptor that was ready: waitpid with WNOHANG of the child that
-- now has the descriptor as its pipe. A child whose status was collected elsewhere counts as ended.
unfoldable pub check_ready : ℤ → ℕ → List ℕ → Shared → Shared
unfolding reap_child
check_ready pid fd ready s = elim (find_key fd s.manager.poll_fd_to_proc_map) [
  | none ↦ record s { waiter = woken pid ready }
  | some child ↦
      if contains s.exited child || contains s.collected child
      then record (reap_child child fd s) { waiter = reaped pid child }
      else record s { waiter = woken pid ready }
]

-- `reused`: whether the system may give a new child the pid of one that is still in the maps, which it can
-- only after other code of the process has collected that one's status.
pub data Step (reused : Bool) (s : Shared) (t : Shared) : Type 0 where
  begins :
      (pid : ℤ) (fds : List ℕ)
      → s.waiter ≡ outside
      → proc_poll_fds pid s.manager ≡ some fds
      → t ≡ record s { waiter = polling pid fds }
      → Step reused s t
  wakes :
      (pid : ℤ) (fds ready : List ℕ)
      → s.waiter ≡ polling pid fds
      → ((fd : ℕ) → contains ready fd ≡ true → (contains fds fd ≡ true) × IsReady s fd)
      → t ≡ record s { waiter = woken pid ready }
      → Step reused s t
  reads :
      (pid : ℤ) (fd : ℕ) (ready : List ℕ)
      → s.waiter ≡ woken pid (fd ∷ ready)
      → t ≡ record s {
        waiter = has_read pid fd ready;
        read_from = find_key fd s.open_files ∷ s.read_from;
      }
      → Step reused s t
  checks :
      (pid : ℤ) (fd : ℕ) (ready : List ℕ)
      → s.waiter ≡ has_read pid fd ready
      → t ≡ check_ready pid fd ready s
      → Step reused s t
  -- nothing was reaped: the loop starts again
  repeats :
      (pid : ℤ) → s.waiter ≡ woken pid [] → t ≡ record s { waiter = outside } → Step reused s t
  returns :
      (pid : ℤ) (child : ℕ)
      → s.waiter ≡ reaped pid child
      → t ≡ record s { waiter = outside }
      → Step reused s t
  -- another thread's ProcessWaitPID, where waitpid gives the child or ECHILD
  other_reaps :
      (child fd : ℕ)
      → find_key child s.manager.child_proc_map ≡ some fd
      → (contains s.exited child || contains s.collected child) ≡ true
      → t ≡ reap_child child fd s
      → Step reused s t
  -- another thread's ProcessSpawn: the pipe gets a descriptor that is not in use, and the child starts …
  other_starts :
      (child fd : ℕ)
      → find_key fd s.open_files ≡ none
      → t ≡ record s { open_files = assign fd (pipe_of child) s.open_files }
      → Step reused s t
  -- … and is entered in the maps
  other_enters :
      (child fd : ℕ)
      → find_key fd s.open_files ≡ some (pipe_of child)
      → find_key child s.manager.child_proc_map ≡ none
      → t ≡ record s { manager = enter_child child fd s.manager }
      → Step reused s t
  -- the same where the pid is in the maps
  other_enters_again :
      (child fd : ℕ)
      → reused ≡ true
      → find_key fd s.open_files ≡ some (pipe_of child)
      → contains s.collected child ≡ true
      → t ≡ record s {
        manager = enter_child child fd s.manager;
        collected = forget child s.collected;
      }
      → Step reused s t
  other_opens :
      (fd : ℕ)
      → find_key fd s.open_files ≡ none
      → t ≡ record s { open_files = assign fd other_file s.open_files }
      → Step reused s t
  other_closes :
      (fd : ℕ)
      → find_key fd s.open_files ≡ some other_file
      → t ≡ record s { open_files = remove fd s.open_files }
      → Step reused s t
  exits : (child : ℕ) → t ≡ record s { exited = child ∷ s.exited } → Step reused s t
  -- other code of the process waits for a child that has ended
  collects :
      (child : ℕ)
      → contains s.exited child ≡ true
      → t ≡ record s { exited = forget child s.exited; collected = child ∷ s.collected }
      → Step reused s t
  -- a child writes to its end of the pipe, or closes it, and runs on
  gets_ready : (child : ℕ) → t ≡ record s { ready = child ∷ s.ready } → Step reused s t

pub data Reach (reused : Bool) (s : Shared) : Shared → Type 0 where
  begin : Reach reused s s
  then : {t u : Shared} → Reach reused s t → Step reused t u → Reach reused s u

unfoldable pub no_children : Shared
no_children = record {
  manager = new_proc_manager;
  open_files = [];
  exited = [];
  collected = [];
  ready = [];
  waiter = outside;
  read_from = [];
}
