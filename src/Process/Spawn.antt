-- ===== src/Process/Spawn.antt =====
-- The second part of ProcessSpawn (src/wamr_ext_lib/WasiProcessExt.cpp): redirecting the standard
-- descriptors and starting the process.
use wamr_ext.Prelude.{
  List, Option, [], if◌then◌else◌, leb, none, not, some, ℕ, ◌++◌, ◌^◌, ◌||◌, ◌∷◌, suc, zero,
}
use wamr_ext.Prelude.Int.{pos}
use wamr_ext.Prelude.Text.{Text, has_byte}
use wamr_ext.Prelude.TextMap.{TextMap}
use wamr_ext.Errno.{convert_errno_to_wasi_errno}
use wamr_ext.Exec.{CRet, Exec, Result, done, fails, pure, raise, returns, sys, ◌>>=◌, ◌>>◌}
use wamr_ext.Socket.Open.{get_host_fd_by_app_fd}
use wamr_ext.Process.{
  FileAction, ProcHost, ProcManager, SpawnAction, World, close_fd, dup2, enter_child, fdup2,
  other_action,
}
use wamr_ext.Process.Request.{Spawning, read_request}

-- dup2FDArr; `none` is -1.
abbrev pub Dup2FdArr : Type 0
Dup2FdArr = List (Option ℕ)

-- arr[i] = fd
unfoldable pub set_at : ℕ → ℕ → Dup2FdArr → Dup2FdArr
set_at i fd [] = []
set_at zero fd (x ∷ arr) = some fd ∷ arr
set_at (suc i) fd (x ∷ arr) = x ∷ set_at i fd arr

abbrev pub std_fd : {A : Type 0} → Result (ℕ × A) → Option ℕ
std_fd (done found) = some found.0
std_fd (raise e) = none

-- posix_spawn_file_actions_addclose, whose result is not looked at.
abbrev pub added : FileAction → CRet (Unit {0}) → List FileAction
added a (returns x) = a ∷ []
added a (fails n) = []

module _ {W : Type 0} (h : ProcHost W) where
  unfoldable pub std_fds : W → Dup2FdArr
  std_fds w =
      let at = λ (fd : ℕ). std_fd ((get_host_fd_by_app_fd h.sock fd w).0) in at 0 ∷ at 1 ∷ at 2 ∷ []

  -- One action of the app: only the three descriptors can be redirected.
  unfoldable pub apply_action : SpawnAction → Dup2FdArr → Exec W Dup2FdArr
  unfolding set_at
  apply_action (other_action cmd) arr = pure arr
  apply_action (fdup2 a) arr =
      if leb (2 ^ 31) a.dest_fd || leb 3 a.dest_fd
      then pure arr
      else do found ← get_host_fd_by_app_fd h.sock a.src_fd; pure (set_at a.dest_fd found.0 arr)

  unfoldable pub apply_actions : List SpawnAction → Dup2FdArr → Exec W Dup2FdArr
  unfolding apply_action
  apply_actions [] arr = pure arr
  apply_actions (a ∷ actions) arr = do next_arr ← apply_action a arr; apply_actions actions next_arr

  -- The loop that adds the redirections, from descriptor fd on.
  unfoldable pub add_dup2s : ℕ → Dup2FdArr → Exec W (List FileAction)
  add_dup2s fd [] = pure []
  add_dup2s fd (none ∷ arr) = add_dup2s (suc fd) arr
  add_dup2s fd (some host_fd ∷ arr) = do
    sys h.sock.errnos (h.file_actions_add (dup2 host_fd fd))
    rest ← add_dup2s (suc fd) arr
    pure (dup2 host_fd fd ∷ rest)

  -- After posix_spawn: the child's pid and pollPipeFD.
  unfoldable pub after_spawn : ℕ × ℕ → CRet ℕ → W → Result (ℕ × ℕ) × W
  after_spawn pipe_fd (fails n) w = (
    raise (convert_errno_to_wasi_errno h.sock.errnos (pos n)),
    h.close pipe_fd.0 (h.close pipe_fd.1 w),
  )
  after_spawn pipe_fd (returns pid) w =
      (done (pid, pipe_fd.0), h.set_nonblock pipe_fd.0 (h.close pipe_fd.1 w))

  unfoldable pub run_child : Text → List Text → List FileAction → ℕ × ℕ → Exec W (ℕ × ℕ)
  unfolding after_spawn
  run_child cmd argv fa pipe_fd w =
      let (closing, w') = h.file_actions_add (close_fd pipe_fd.0) w in
      let fa' = fa ++ added (close_fd pipe_fd.0) closing in
      let (r, w'') = h.posix_spawn (not (has_byte b'/' cmd)) cmd fa' argv w' in
      after_spawn pipe_fd r w''

  -- The section under m_gProcessSpawnLock.
  unfoldable pub launch : Text → List Text → List FileAction → Exec W (ℕ × ℕ)
  unfolding run_child
  launch cmd argv fa = sys h.sock.errnos h.pipe >>= run_child cmd argv fa

  abbrev pub then_destroy : {A : Type 0} → Exec W A → Exec W A
  then_destroy m w = let (r, w') = m w in (r, h.file_actions_destroy w')

  -- All that is done with the request but the entries in the manager.
  unfoldable pub start_process : Spawning → Exec W (ℕ × ℕ)
  unfolding std_fds apply_actions add_dup2s launch
  start_process s w =
      let run : Exec W (ℕ × ℕ) = do
        arr ← apply_actions s.actions (std_fds w)
        sys h.sock.errnos h.file_actions_init
        then_destroy (add_dup2s 0 arr >>= launch s.host_cmd s.host_argv)
      in run w

  abbrev pub enter_started : Result (ℕ × ℕ) × W → ProcManager → Result ℕ × World W
  enter_started (raise e, w) m = (raise e, (w, m))
  enter_started (done started, w) m = (done started.0, (w, enter_child started.0 started.1 m))

  abbrev pub run_request : Result Spawning → World W → Result ℕ × World W
  run_request (raise e) s = (raise e, s)
  run_request (done r) (w, m) = enter_started (start_process r w) m

  -- ProcessSpawn: the code with the new child's pid, ret_pid of the request.
  unfoldable pub process_spawn : ℕ → TextMap Text → ℕ → World W → Option (Result ℕ × World W)
  unfolding start_process read_request enter_child
  process_spawn fuel whitelist req s = elim (read_request h fuel whitelist req) [
    | none ↦ none
    | some r ↦ some (run_request r s)
  ]
