-- ===== src/Process/Waiters/Races.antt =====
-- Two threads that wait for the same child.
use wamr_ext.Prelude.{
  ℕ, List, [], ◌∷◌, ◌≡◌, none, some, true, ◌≢◌, arith, refl, ap, ◌∙◌, Bool, ◌||◌,
}
use wamr_ext.Prelude.Int.{ℤ, pos}
use wamr_ext.Prelude.NumMap.{find_key, assign, find_key-assign, find_key-remove}
use wamr_ext.Process.{ProcManager, enter_child, erase_child}
use wamr_ext.Process.Waiters.{
  Shared, Reach, File, pipe_of, other_file, reap_child, check_ready, no_children, contains, woken,
  has_read, reaped, begin, then, reads, checks, other_reaps, other_starts, other_enters,
  other_enters_again, forget, other_opens, exits,
}

after_reap :
    (child fd : ℕ) (s : Shared)
    → (find_key fd (reap_child child fd s).open_files ≡ none)
      × (find_key fd (reap_child child fd s).manager.poll_fd_to_proc_map ≡ none)
unfolding reap_child erase_child
after_reap child fd s =
    ground (
      arith,
      find_key-remove fd fd s.open_files,
      find_key-remove fd fd s.manager.poll_fd_to_proc_map,
    )

waiter-reap_child : (child fd : ℕ) (s : Shared) → (reap_child child fd s).waiter ≡ s.waiter
unfolding reap_child
waiter-reap_child child fd s = refl

read_from-reap_child : (child fd : ℕ) (s : Shared) → (reap_child child fd s).read_from ≡ s.read_from
unfolding reap_child
read_from-reap_child child fd s = refl

read_from-assigned :
    (fd : ℕ) (f : File) (s : Shared)
    → (find_key fd (assign fd f s.open_files) ∷ s.read_from) ≡ (some f ∷ s.read_from)
read_from-assigned fd f s = ground (arith, find_key-assign fd fd f s.open_files)

not_known_after :
    (child fd b : ℕ) (s : Shared)
    → find_key b s.manager.child_proc_map ≡ none
    → find_key b (reap_child child fd s).manager.child_proc_map ≡ none
unfolding reap_child erase_child
not_known_after child fd b s e = ground (arith, find_key-remove b child s.manager.child_proc_map)

check_reaps :
    (pid : ℤ) (fd b : ℕ) (s : Shared)
    → find_key fd s.manager.poll_fd_to_proc_map ≡ some b
    → contains s.exited b ≡ true
    → (check_ready pid fd [] s).waiter ≡ reaped pid b
unfolding check_ready
check_reaps pid fd b s e x = rw (e, check_ready, x) refl

assigned :
    (fd b : ℕ) (s : Shared) → find_key fd (assign fd (pipe_of b) s.open_files) ≡ some (pipe_of b)
assigned fd b s = ground (arith, find_key-assign fd fd (pipe_of b) s.open_files)

entered :
    (fd b : ℕ) (m : ProcManager) → find_key fd (enter_child b fd m).poll_fd_to_proc_map ≡ some b
unfolding enter_child
entered fd b m = ground (arith, find_key-assign fd fd b m.poll_fd_to_proc_map)

ended : (b : ℕ) (ps : List ℕ) → contains (b ∷ ps) b ≡ true
ended b ps = ground arith

ended_counts :
    (child : ℕ) (s : Shared)
    → contains s.exited child ≡ true
    → (contains s.exited child || contains s.collected child) ≡ true
ended_counts child s x = rw x refl

-- A defect: in any reachable state in which a thread is past the poll for a child that has ended, an
-- interleaving lets its read, which is outside the lock, take bytes from a file that is no pipe of a
-- child: another thread reaps the child and closes the pipe, and the descriptor is given to a new file.
pub waiter_reads_other_file :
    {reused : Bool} {s : Shared} (pid : ℤ) (child fd : ℕ)
    → Reach reused no_children s
    → s.waiter ≡ woken pid (fd ∷ [])
    → find_key child s.manager.child_proc_map ≡ some fd
    → contains s.exited child ≡ true
    → (t : Shared) × Reach reused s t × (t.read_from ≡ some other_file ∷ s.read_from)
waiter_reads_other_file {reused} {s} pid child fd r w e x =
    let s1 = reap_child child fd s in
    let s2 = record s1 { open_files = assign fd other_file s1.open_files } in
    let s3 = record s2 {
      waiter = has_read pid fd [];
      read_from = find_key fd s2.open_files ∷ s2.read_from;
    } in
    (
      s3,
      then
          (then (then begin (other_reaps child fd e (ended_counts child s x) refl))
            (other_opens fd (after_reap child fd s).0 refl))
          (reads pid fd [] (waiter-reap_child child fd s ∙ w) refl),
      read_from-assigned fd other_file s1
          ∙ ap (λ l. some other_file ∷ l) (read_from-reap_child child fd s),
    )

-- A defect: in any reachable state in which a thread is past the poll for one child, which has ended, an
-- interleaving lets it reap another one, which it did not ask for: another thread reaps the child, a
-- new child gets the descriptor, and ends. The last assertion of the loop is false then.
pub waiter_reaps_other_child :
    {reused : Bool} {s : Shared} (child fd b : ℕ)
    → Reach reused no_children s
    → s.waiter ≡ woken (pos child) (fd ∷ [])
    → find_key child s.manager.child_proc_map ≡ some fd
    → contains s.exited child ≡ true
    → find_key b s.manager.child_proc_map ≡ none
    → (t : Shared) × Reach reused s t × (t.waiter ≡ reaped (pos child) b) × (b ≢ child)
waiter_reaps_other_child {reused} {s} child fd b r w e x new_pid =
    let s1 = reap_child child fd s in
    let started = record s1 { open_files = assign fd (pipe_of b) s1.open_files } in
    let s2 = record started { manager = enter_child b fd started.manager } in
    let s3 = record s2 { exited = b ∷ s2.exited } in
    let s4 = record s3 {
      waiter = has_read (pos child) fd [];
      read_from = find_key fd s3.open_files ∷ s3.read_from;
    } in
    let spawned : Reach reused s s2 =
      then
        (then (then begin (other_reaps child fd e (ended_counts child s x) refl))
          (other_starts b fd (after_reap child fd s).0 refl))
        (other_enters b fd (assigned fd b s1) (not_known_after child fd b s new_pid) refl) in
    (
      check_ready (pos child) fd [] s4,
      then
          (then (then spawned (exits b refl))
            (reads (pos child) fd [] (waiter-reap_child child fd s ∙ w) refl))
          (checks (pos child) fd [] refl refl),
      check_reaps (pos child) fd b s4 (entered fd b s1.manager) (ended b s2.exited),
      λ same. absurd (ground (arith, same, e, new_pid)),
    )

-- A defect: where the system gives a new child the pid of one that is still in the maps, as other code of
-- the process has collected that one's status, the old pipe stays open and in the map from pipes to
-- children, while the new child has another one.
reused_pid_keeps_pipe :
    {s : Shared} (child fd new_fd : ℕ)
    → find_key fd s.manager.poll_fd_to_proc_map ≡ some child
    → find_key fd s.open_files ≡ some (pipe_of child)
    → contains s.collected child ≡ true
    → find_key new_fd s.open_files ≡ none
    → (t : Shared) × Reach true s t
      × (find_key child t.manager.child_proc_map ≡ some new_fd)
      × (find_key fd t.manager.poll_fd_to_proc_map ≡ some child)
      × (find_key fd t.open_files ≡ some (pipe_of child))
unfolding enter_child
reused_pid_keeps_pipe {s} child fd new_fd known opened gone free =
    let opened_files = assign new_fd (pipe_of child) s.open_files in
    let started = record s { open_files = opened_files } in
    (
      record started {
        manager = enter_child child new_fd s.manager;
        collected = forget child s.collected;
      },
      then (then begin (other_starts child new_fd free refl))
          (other_enters_again child new_fd refl (assigned new_fd child s) gone refl),
      ground (arith, find_key-assign child child new_fd s.manager.child_proc_map),
      ground (arith, find_key-assign fd new_fd child s.manager.poll_fd_to_proc_map),
      ground (arith, find_key-assign fd new_fd (pipe_of child) s.open_files),
    )
