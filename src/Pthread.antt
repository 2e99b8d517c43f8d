-- ===== src/Pthread.antt =====
-- src/wamr_ext_lib/WasiPthreadExt.h and .cpp: the app's threads. The threads of an instance stand in a
-- map from handle ids to ExecEnvThreadInfo; id 0 is the main thread's. A map is a list of entries with
-- the last written first, since the program relies on no order of an unordered_map.
pub mod Handles
pub mod Spawn
pub mod Resources
pub mod Exit
pub mod JoinEnds
pub mod AppExit
pub mod Cleanup
pub mod CleanupEnds
use wamr_ext.Prelude.{
  Bool, List, Option, [], arith, false, if◌then◌else◌, none, some, ℕ, ◌==◌, ◌∷◌, ◌≡◌,
}
use wamr_ext.Prelude.Int.{ℤ, pos, negsuc}

-- ExecEnvThreadInfo: the exec env by its number, the app's stack, and exitCtrl.waitCount.
pub record ThreadInfo : Type 0 where
  pub handle_id : ℕ
  pub exec_env : ℕ
  pub func_arg : ℕ
  pub app_stack_addr : ℕ
  pub stack_size : ℕ
  pub stack_from_app : Bool
  pub wait_count : ℤ

-- InstancePthreadManager.
pub record PthreadManager : Type 0 where
  pub thread_map : List (ℕ × ThreadInfo)
  pub cur_handle_id : ℕ

abbrev pub main_thread_id : ℕ
main_thread_id = 0

-- ExecEnvThreadInfo(env)
unfoldable pub new_thread_info : ℕ → ThreadInfo
new_thread_info env = record {
  handle_id = 0;
  exec_env = env;
  func_arg = 0;
  app_stack_addr = 0;
  stack_size = 0;
  stack_from_app = false;
  wait_count = pos 0;
}

-- InstancePthreadManager(), with m_curHandleId{1}.
unfoldable pub new_manager : PthreadManager
new_manager = record { thread_map = []; cur_handle_id = 1 }

unfoldable pub find : ℕ → List (ℕ × ThreadInfo) → Option ThreadInfo
find id [] = none
find id ((k, t) ∷ m) = if k == id then some t else find id m

-- m.erase(id)
unfoldable pub erase : ℕ → List (ℕ × ThreadInfo) → List (ℕ × ThreadInfo)
erase id [] = []
erase id ((k, t) ∷ m) = let rest = erase id m in if k == id then rest else (k, t) ∷ rest

-- m[id] = t
abbrev pub put : ℕ → ThreadInfo → List (ℕ × ThreadInfo) → List (ℕ × ThreadInfo)
put id t m = (id, t) ∷ erase id m

-- GetThreadInfo
unfoldable pub get_thread_info : PthreadManager → ℕ → Option ThreadInfo
unfolding find
get_thread_info m id = find id m.thread_map

-- InitAppMainThreadInfo: the main thread's entry, with waitCount -1.
unfoldable pub init_app_main_thread_info : ℕ → PthreadManager → PthreadManager
unfolding new_thread_info erase
init_app_main_thread_info env m = record m {
  thread_map =
      put main_thread_id (record (new_thread_info env) { wait_count = negsuc 0 }) m.thread_map;
}

pub find-erase :
    (id k : ℕ) (m : List (ℕ × ThreadInfo))
    → find k (erase id m) ≡ (if id == k then none else find k m)
unfolding find erase
find-erase id k [] = ground arith
find-erase id k ((j, t) ∷ m) = ground (arith, find-erase id k m)

pub find-put :
    (id k : ℕ) (t : ThreadInfo) (m : List (ℕ × ThreadInfo))
    → find k (put id t m) ≡ (if id == k then some t else find k m)
unfolding find
find-put id k t m = ground (arith, find-erase id k m)

-- The ids in use.
pub keys : List (ℕ × ThreadInfo) → List ℕ
keys [] = []
keys ((k, t) ∷ m) = k ∷ keys m
