-- ===== src/Process.antt =====
-- src/wamr_ext_lib/WasiProcessExt.h and .cpp: child processes. What the app's memory holds during a call,
-- the host's functions on processes and the descriptor table are the parameter `ProcHost`. A call runs
-- without another thread's between its critical sections, but in Waiters.
pub mod Request
pub mod Spawn
pub mod Wait
pub mod Children
pub mod Reaping
pub mod Waiting
pub mod ActionList
pub mod Endless
pub mod Redirect
pub mod Pipes
pub mod Spawning
pub mod NewChild
pub mod Waiters
pub mod Session
use wamr_ext.Prelude.{List, ℕ, Bool, []}
use wamr_ext.Prelude.Text.{Text}
use wamr_ext.Prelude.NumMap.{NumMap, assign, remove}
use wamr_ext.Vm.{Vm}
use wamr_ext.Exec.{CRet}
use wamr_ext.Socket.{Host}

-- ProcManager: pollPipeFD of each child by its pid, and the iterator into that map, which is its pid, by
-- pollPipeFD.
pub record ProcManager : Type 0 where
  pub child_proc_map : NumMap ℕ
  pub poll_fd_to_proc_map : NumMap ℕ

unfoldable pub new_proc_manager : ProcManager
new_proc_manager = record { child_proc_map = []; poll_fd_to_proc_map = [] }

-- wamr_spawn_req, less ret_pid, which is only written.
pub record SpawnReq : Type 0 where
  pub app_cmd_name_pointer : ℕ
  pub app_argv_pointer : ℕ
  pub argc : ℕ
  pub app_fa_pointer : ℕ

-- wamr_spawn_action_base
pub record SpawnActionBase : Type 0 where
  pub app_next_action_pointer : ℕ
  pub cmd : ℕ

-- The two numbers of wamr_spawn_action_fdup2, as their 32 bits.
pub record SpawnActionFdup2 : Type 0 where
  pub src_fd : ℕ
  pub dest_fd : ℕ

pub data SpawnAction : Type 0 where
  fdup2 : SpawnActionFdup2 → SpawnAction
  other_action : ℕ → SpawnAction

-- An entry of posix_spawn_file_actions_t.
pub data FileAction : Type 0 where
  dup2 : (host_fd fd : ℕ) → FileAction
  close_fd : ℕ → FileAction

-- What waitpid with WNOHANG returns: the child's pid with its status, 0, or -1 with ECHILD or another
-- error.
pub data WaitRet : Type 0 where
  exited : ℕ → WaitRet
  running no_child wait_failed : WaitRet

-- `poll` tells of each descriptor whether POLLIN or POLLHUP is set; its flag is a timeout of 0.
-- `posix_spawn` is told whether to search the path.
pub record ProcHost (W : Type 0) : Type 0 where
  pub sock : Host W
  pub vm : Vm
  pub read_req : ℕ → SpawnReq
  pub read_u32 : ℕ → ℕ
  pub read_str : ℕ → Text
  pub read_action : ℕ → SpawnActionBase
  pub read_fdup2 : ℕ → SpawnActionFdup2
  pub file_actions_init : W → CRet (Unit {0}) × W
  pub file_actions_add : FileAction → W → CRet (Unit {0}) × W
  pub file_actions_destroy : W → W
  pub pipe : W → CRet (ℕ × ℕ) × W
  pub posix_spawn : Bool → Text → List FileAction → List Text → W → CRet ℕ × W
  pub set_nonblock : ℕ → W → W
  pub close : ℕ → W → W
  pub poll_pipes : List ℕ → Bool → W → CRet (ℕ × List Bool) × W
  pub read_pipe : ℕ → W → W
  pub waitpid : ℕ → W → WaitRet × W
  pub wexitstatus : ℕ → ℕ

-- What a call changes.
abbrev pub World : Type 0 → Type 0
World W = W × ProcManager

-- The entries that ProcessSpawn makes.
unfoldable pub enter_child : ℕ → ℕ → ProcManager → ProcManager
enter_child pid fd m = record {
  child_proc_map = assign pid fd m.child_proc_map;
  poll_fd_to_proc_map = assign fd pid m.poll_fd_to_proc_map;
}

-- Those that ProcessWaitPID erases.
unfoldable pub erase_child : ℕ → ℕ → ProcManager → ProcManager
erase_child pid fd m = record {
  child_proc_map = remove pid m.child_proc_map;
  poll_fd_to_proc_map = remove fd m.poll_fd_to_proc_map;
}
