-- ===== src/Process/Endless.antt =====
-- When ProcessWaitPID (src/wamr_ext_lib/WasiProcessExt.cpp) returns.
use wamr_ext.Errno.{echild}
use wamr_ext.Prelude.{
  [], false, refl, some, suc, true, ℕ, ◌==◌, ◌∷◌, ◌≡◌, Bool-cases, Option-cases, inl, inr, none,
  zero, Bool, List, is_some, ap,
}
use wamr_ext.Prelude.Int.{pos, ℤ}
use wamr_ext.Prelude.NumMap.{find_key}
use wamr_ext.Exec.{returns, Result, done, raise, CRet, fails}
use wamr_ext.Process.{ProcHost, ProcManager, World, running}
use wamr_ext.Process.Children.{Inverse}
use wamr_ext.Process.Wait.{
  after_poll, check_fd, check_fds, proc_poll_fds, reap, round_of, wait_round, nobody, WaitOut,
  again, over, process_wait_pid, Round,
}

module _ {W : Type 0} (h : ProcHost W) where
  -- One round for a child whose pipe is reported ready while waitpid reports that it runs.
  round_goes_on :
      (n fd : ℕ) (w : W) (m : ProcManager)
      → find_key (suc n) m.child_proc_map ≡ some fd
      → find_key fd m.poll_fd_to_proc_map ≡ some (suc n)
      → ((v : W) → (h.poll_pipes (fd ∷ []) false v).0 ≡ returns (1, true ∷ []))
      → ((v : W) → (h.waitpid (suc n) v).0 ≡ running)
      → (v : W) × (wait_round h (pos (suc n)) false (w, m) ≡ (again, (v, m)))
  unfolding wait_round proc_poll_fds after_poll check_fds check_fd reap
  round_goes_on n fd w m a b ready runs =
      let polled = (h.poll_pipes (fd ∷ []) false w).1 in
      let read = h.read_pipe fd polled in
      (
        (h.waitpid (suc n) read).1,
        rw
            (
              a,
              proc_poll_fds,
              wait_round,
              ready w,
              after_poll,
              b,
              check_fd,
              check_fds,
              runs read,
              reap,
            )
            refl,
      )

  -- A defect: a child that closes the end of the pipe that it inherits is reported by poll, but not by
  -- waitpid. As long as it runs, a call of ProcessWaitPID for it without WNOHANG makes one round after
  -- another without sleeping, and does not return.
  pub closed_pipe_spins :
      (n fd : ℕ) (m : ProcManager)
      → Inverse m
      → find_key (suc n) m.child_proc_map ≡ some fd
      → ((w : W) → (h.poll_pipes (fd ∷ []) false w).0 ≡ returns (1, true ∷ []))
      → ((w : W) → (h.waitpid (suc n) w).0 ≡ running)
      → (fuel : ℕ) (w : W) → process_wait_pid h fuel (pos (suc n)) false (w, m) ≡ none
  unfolding process_wait_pid
  closed_pipe_spins n fd m i a ready runs zero w = refl
  closed_pipe_spins n fd m i a ready runs (suc fuel) w =
      let (v, e) = round_goes_on n fd w m a ((i (suc n) fd).0 a) ready runs in
      let ran = wait_round h (pos (suc n)) false (w, m) in
      let again_round : ran.0 ≡ again = ap (λ (c : Round × World W). c.0) e in
      let left : ran.1 ≡ (v, m) = ap (λ (c : Round × World W). c.1) e in
      rw (again_round, process_wait_pid, left) (closed_pipe_spins n fd m i a ready runs fuel v)

  round_of-ends : (r : WaitOut × World W) → (o : Result WaitOut) × ((round_of h true r).0 ≡ over o)
  round_of-ends r = elim (Bool-cases (r.0.ret_pid == 0)) [
    | inl z ↦ rw z (done r.0, refl)
    | inr z ↦ rw z (done r.0, refl)
  ]

  after_poll_ends :
      (fds : List ℕ) (c : CRet (ℕ × List Bool)) (s : World W)
      → (o : Result WaitOut) × ((after_poll h true fds c s).0 ≡ over o)
  unfolding after_poll
  after_poll_ends fds (fails n) s = (_, refl)
  after_poll_ends fds (returns a) s = elim (Bool-cases (a.0 == 0)) [
    | inl late ↦ rw (late, after_poll) (done nobody, refl)
    | inr ready ↦ rw (ready, after_poll) (round_of-ends (check_fds h fds a.1 s))
  ]

  nohang_round :
      (pid : ℤ) (s : World W) → (o : Result WaitOut) × ((wait_round h pid true s).0 ≡ over o)
  unfolding wait_round after_poll
  nohang_round pid (w, m) = elim (Option-cases (proc_poll_fds pid m)) [
    | inl e ↦ rw (e, wait_round) (raise echild, refl)
    | inr (fds, e) ↦
        let ran = h.poll_pipes fds true w in
        rw (e, wait_round) (after_poll_ends fds ran.0 (ran.1, m))
  ]

  -- Whatever the host answers, a call of ProcessWaitPID with WNOHANG returns in its first round.
  pub nohang_returns :
      (fuel : ℕ) (pid : ℤ) (s : World W) → is_some (process_wait_pid h (suc fuel) pid true s) ≡ true
  unfolding process_wait_pid
  nohang_returns fuel pid s = let (o, e) = nohang_round pid s in rw (e, process_wait_pid) refl
