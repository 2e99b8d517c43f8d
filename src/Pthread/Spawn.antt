-- ===== src/Pthread/Spawn.antt =====
-- WasiThreadSpawn (src/wamr_ext_lib/WasiPthreadExt.cpp). What the WAMR runtime answers is an argument,
-- and what is allocated and freed is the list of events. The shared pointer pThreadInfo is released
-- where the function returns, and its last release runs the deleter given to the exec env.
use wamr_ext.Prelude.Int.{negsuc, pos, ℤ}
use wamr_ext.Pthread.{PthreadManager, ThreadInfo, new_thread_info, put, erase}
use wamr_ext.Vm.{u32}
use wamr_ext.Prelude.{
  ℕ, Bool, List, Option, [], false, if◌then◌else◌, ltb, none, not, some, suc, true, zero, ◌*◌, ◌++◌,
  ◌+◌, ◌-◌, ◌/◌, ◌==◌, ◌^◌, ◌∷◌,
}
use wamr_ext.Pthread.Handles.{next_handle}

-- The resources of a spawn: the new runtime instance, the new exec env, a stack in the app's memory.
pub data Event : Type 0 where
  instantiate deinstantiate create_exec_env destroy_exec_env start_host_thread : Event
  malloc free : ℕ → Event

-- `aux_stack` answers wasm_exec_env_get_aux_stack with the stack's size; `malloc_at` is the address
-- that wasm_runtime_module_malloc gives for a size, 0 where it fails; `set_aux_stack` answers
-- wasm_exec_env_set_aux_stack for the stack's bottom and its size. An uvwasi_errno_t is an unsigned
-- number: `minus_one` is -1 as one, `enomem` is UVWASI_ENOMEM.
pub record SpawnAnswers : Type 0 where
  pub instantiates : Bool
  pub has_entry : Bool
  pub new_exec_env : Option ℕ
  pub aux_stack : Option ℕ
  pub malloc_at : ℕ → ℕ
  pub set_aux_stack : ℕ → ℕ → Bool
  pub minus_one : ℕ
  pub enomem : ℕ

abbrev pub app_thread_default_stack_size : ℕ
app_thread_default_stack_size = 128 * 1024

-- The size asked for: 16 bytes more, for the alignment.
unfoldable pub wanted_stack : Option ℕ → ℕ
wanted_stack none = u32 (app_thread_default_stack_size + 16)
wanted_stack (some size) = u32 (size + 16)

-- The stack's bottom, which grows downwards from it, aligned at 16 bytes.
unfoldable pub stack_bottom : ℕ → ℕ → ℕ
stack_bottom addr size = u32 (addr + size) / 16 * 16

-- What a spawn leaves: the int32_t returned, the manager, and the events in their order.
pub record Spawned : Type 0 where
  pub ret : ℤ
  pub manager : PthreadManager
  pub events : List Event

-- tempErr > 0 ? -tempErr : tempErr
unfoldable pub negated : ℕ → ℤ
negated zero = pos 0
negated (suc n) = negsuc n

-- The part after the loop where pThreadInfo is null.
unfoldable pub fail_early : ℕ → Bool → PthreadManager → List Event → Spawned
unfolding negated
fail_early err has_inst m es = record {
  ret = negated err;
  manager = m;
  events = es ++ (if has_inst then deinstantiate ∷ [] else []);
}

-- The part after the loop where it is not: the stack is freed if there is one, the entry under the
-- thread info's id erased, the instance and the exec env freed; then pThreadInfo is released.
unfoldable pub fail_late : ℕ → ThreadInfo → PthreadManager → List Event → Spawned
unfolding negated erase
fail_late err t m es = record {
  ret = negated err;
  manager = record m { thread_map = erase t.handle_id m.thread_map };
  events =
      es
      ++ ((if t.app_stack_addr == 0 then [] else free t.app_stack_addr ∷ [])
          ++ (deinstantiate ∷ destroy_exec_env ∷ deinstantiate ∷ destroy_exec_env ∷ []));
}

-- std::min<uint32_t>(INT32_MAX, handleID)
unfoldable pub tid_of : ℕ → ℕ
tid_of id = if ltb id (2 ^ 31 - 1) then id else 2 ^ 31 - 1

-- The thread is entered in the map and started. `none` where the search for an id ran out of fuel.
unfoldable pub enter : ThreadInfo → PthreadManager → List Event → Option Spawned
unfolding tid_of erase
enter t m es = elim (next_handle m) [
  | none ↦ none
  | some (id, after) ↦ some (record {
    ret = pos (tid_of id);
    manager = record {
      thread_map = put id (record t { handle_id = id }) m.thread_map;
      cur_handle_id = after;
    };
    events = es ++ start_host_thread ∷ [];
  })
]

-- The thread info once its stack is allocated.
abbrev pub spawned_info : SpawnAnswers → ℕ → ℕ → ThreadInfo
spawned_info a app_arg env = record (new_thread_info env) {
  func_arg = app_arg;
  app_stack_addr = a.malloc_at (wanted_stack a.aux_stack);
  stack_size = wanted_stack a.aux_stack;
}

-- appStackBottom - appStackAddr
abbrev pub aligned_size : ℕ → ℕ → ℕ
aligned_size addr size = u32 (stack_bottom addr size + 2 ^ 32 - addr)

-- With the exec env and the thread info.
unfoldable pub with_env : SpawnAnswers → ℕ → ℕ → PthreadManager → Option Spawned
unfolding new_thread_info wanted_stack stack_bottom fail_late enter
with_env a app_arg env m =
    let t = spawned_info a app_arg env in
    let es : List Event = instantiate ∷ create_exec_env ∷ [] in
    if t.app_stack_addr == 0
    then some (fail_late a.enomem t m es)
    else if a.set_aux_stack (stack_bottom t.app_stack_addr t.stack_size)
        (aligned_size t.app_stack_addr t.stack_size)
    then enter (record t { stack_size = aligned_size t.app_stack_addr t.stack_size }) m
        (es ++ malloc t.app_stack_addr ∷ [])
    else some (fail_late a.minus_one t m (es ++ malloc t.app_stack_addr ∷ []))

-- WasiThreadSpawn
unfoldable pub wasi_thread_spawn : SpawnAnswers → ℕ → PthreadManager → Option Spawned
unfolding fail_early with_env
wasi_thread_spawn a app_arg m =
    if not a.instantiates
    then some (fail_early a.minus_one false m [])
    else if not a.has_entry
    then some (fail_early a.minus_one true m (instantiate ∷ []))
    else elim a.new_exec_env [
      | none ↦ some (fail_early a.minus_one true m (instantiate ∷ []))
      | some env ↦ with_env a app_arg env m
    ]
