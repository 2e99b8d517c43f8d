-- ===== src/Process/Children.antt =====
-- The two maps of ProcManager (src/wamr_ext_lib/WasiProcessExt.h): each child with its pipe.
use wamr_ext.Prelude.{arith, none, some, ℕ, ◌≡◌, ◌↔◌}
use wamr_ext.Prelude.NumMap.{find_key, find_key-assign, find_key-remove}
use wamr_ext.Process.{ProcManager, enter_child, erase_child, new_proc_manager}

-- The maps are each other's inverse.
abbrev pub Inverse : ProcManager → Type 0
Inverse m =
    (pid fd : ℕ)
    → (find_key pid m.child_proc_map ≡ some fd) ↔ (find_key fd m.poll_fd_to_proc_map ≡ some pid)

pub new-Inverse : Inverse new_proc_manager
unfolding new_proc_manager find_key
new-Inverse pid fd = ground arith

pub enter_child-Inverse :
    (pid fd : ℕ) (m : ProcManager)
    → Inverse m
    → find_key pid m.child_proc_map ≡ none
    → find_key fd m.poll_fd_to_proc_map ≡ none
    → Inverse (enter_child pid fd m)
unfolding enter_child
enter_child-Inverse pid fd m i new_pid new_fd p f =
    rw (find_key-assign p pid fd m.child_proc_map, find_key-assign f fd pid m.poll_fd_to_proc_map)
      (ground (arith, i p f, i pid f, i p fd))

pub erase_child-Inverse :
    (pid fd : ℕ) (m : ProcManager)
    → Inverse m
    → find_key pid m.child_proc_map ≡ some fd
    → Inverse (erase_child pid fd m)
unfolding erase_child
erase_child-Inverse pid fd m i has p f =
    rw (find_key-remove p pid m.child_proc_map, find_key-remove f fd m.poll_fd_to_proc_map)
      (ground (arith, i p f, i pid f, i p fd, i pid fd))
