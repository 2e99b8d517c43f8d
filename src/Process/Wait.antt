-- ===== src/Process/Wait.antt =====
-- ProcessWaitPID (src/wamr_ext_lib/WasiProcessExt.cpp).
use wamr_ext.Prelude.{
  Bool, List, Option, [], if◌then◌else◌, is_empty, map, none, some, ℕ, ◌==◌, ◌∷◌, suc, zero, not,
  ◌||◌,
}
use wamr_ext.Prelude.Int.{ℤ, pos}
use wamr_ext.Prelude.NumMap.{find_key}
use wamr_ext.Errno.{convert_errno_to_wasi_errno, echild}
use wamr_ext.Exec.{CRet, Result, done, fails, raise, returns}
use wamr_ext.Process.{ProcHost, ProcManager, WaitRet, World, erase_child, exited, no_child}

-- *retPID, and *exitStatus where it is written.
pub record WaitOut : Type 0 where
  pub ret_pid : ℕ
  pub exit_status : Option ℕ

abbrev pub nobody : WaitOut
nobody = record { ret_pid = 0; exit_status = none }

-- What a round of the loop comes to.
pub data Round : Type 0 where
  over : Result WaitOut → Round
  again : Round

abbrev pub one_fd : Option ℕ → Option (List ℕ)
one_fd none = none
one_fd (some fd) = some (fd ∷ [])

-- procPollFDs; `none` is ECHILD.
unfoldable pub proc_poll_fds : ℤ → ProcManager → Option (List ℕ)
proc_poll_fds (pos (suc n)) m = one_fd (find_key (suc n) m.child_proc_map)
proc_poll_fds _ m =
    if is_empty m.child_proc_map then none else some (map (λ e. e.1) m.child_proc_map)

module _ {W : Type 0} (h : ProcHost W) where
  -- After waitpid on the child of pollFD.
  unfoldable pub reap : ℕ → ℕ → WaitRet → World W → WaitOut × World W
  unfolding erase_child
  reap fd pid (exited status) (w, m) = (
    record { ret_pid = pid; exit_status = some (h.wexitstatus status) },
    (h.close fd w, erase_child pid fd m),
  )
  reap fd pid no_child (w, m) =
      (record { ret_pid = pid; exit_status = some 0 }, (h.close fd w, erase_child pid fd m))
  reap fd pid _ s = (nobody, s)

  -- A descriptor that is ready.
  unfoldable pub check_fd : ℕ → World W → WaitOut × World W
  unfolding reap
  check_fd fd (w, m) =
      let w' = h.read_pipe fd w in
      elim (find_key fd m.poll_fd_to_proc_map) [
        | none ↦ (nobody, (w', m))
        | some pid ↦ let (r, w'') = h.waitpid pid w' in reap fd pid r (w'', m)
      ]

  -- The loop over the descriptors, up to the first child that is reaped.
  unfoldable pub check_fds : List ℕ → List Bool → World W → WaitOut × World W
  unfolding check_fd
  check_fds (fd ∷ fds) (ready ∷ rs) s =
      let one = if ready then check_fd fd s else (nobody, s) in
      let rest = check_fds fds rs one.1 in if one.0.ret_pid == 0 then rest else one
  check_fds _ _ s = (nobody, s)

  abbrev pub round_of : Bool → WaitOut × World W → Round × World W
  round_of nohang r =
      if not (r.0.ret_pid == 0) || nohang then (over (done r.0), r.1) else (again, r.1)

  -- After poll.
  unfoldable pub after_poll : Bool → List ℕ → CRet (ℕ × List Bool) → World W → Round × World W
  unfolding check_fds
  after_poll nohang fds (fails n) s =
      (over (raise (convert_errno_to_wasi_errno h.sock.errnos (pos n))), s)
  after_poll nohang fds (returns a) s =
      if a.0 == 0 then (over (done nobody), s) else round_of nohang (check_fds fds a.1 s)

  unfoldable pub wait_round : ℤ → Bool → World W → Round × World W
  unfolding proc_poll_fds after_poll
  wait_round pid nohang (w, m) = elim (proc_poll_fds pid m) [
    | none ↦ (over (raise echild), (w, m))
    | some fds ↦ let (r, w') = h.poll_pipes fds nohang w in after_poll nohang fds r (w', m)
  ]

  -- ProcessWaitPID, on fuel: `none` is a call that still waits.
  unfoldable pub process_wait_pid : ℕ → ℤ → Bool → World W → Option (Result WaitOut × World W)
  unfolding wait_round
  process_wait_pid zero pid nohang s = none
  process_wait_pid (suc fuel) pid nohang s =
      let (r, s') = wait_round pid nohang s in
      let rest = process_wait_pid fuel pid nohang s' in
      elim r [ over out ↦ some (out, s') | again ↦ rest ]
