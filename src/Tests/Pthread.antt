-- ===== src/Tests/Pthread.antt =====
-- Threads (Pthread and its children) of an instance whose main thread is the only one.
use wamr_ext.Prelude.Int.{pos}
use wamr_ext.Prelude.{
  arith, false, if◌then◌else◌, inl, none, refl, some, true, ℕ, ◌+◌, ◌-◌, ◌<◌, ◌==◌, ◌^◌, ◌≡◌, ◌≢◌,
  ◌≤◌, [], ◌∷◌, ◌⊎◌,
}
use wamr_ext.Pthread.Spawn.{
  SpawnAnswers, Spawned, create_exec_env, instantiate, malloc, start_host_thread, wasi_thread_spawn,
  wanted_stack, stack_bottom, tid_of,
}
use wamr_ext.Pthread.Resources.{IsRunning, fails_late_lem, spawns_lem, Leaks, IsStack, sets_stack}
use wamr_ext.Pthread.Cleanup.{all_thread_info, cleanup_app_thread_info}
use wamr_ext.Pthread.CleanupEnds.{cleanup_ends}
use wamr_ext.Pthread.{
  new_thread_info, main_thread_id, PthreadManager, ThreadInfo, new_manager,
  init_app_main_thread_info, get_thread_info, erase, find,
}
use wamr_ext.Prelude.Runs.{Inevitably}
use wamr_ext.Pthread.JoinEnds.{IsOver, join_ends}
use wamr_ext.Pthread.Exit.{
  Exit, Step, Reach, SpuriousStep, spawned, spurious_deadlock, join_begin, Joiner,
}

abbrev one_thread : PthreadManager
one_thread = init_app_main_thread_info 9 new_manager

abbrev no_runtime : SpawnAnswers
no_runtime = record {
  instantiates = false;
  has_entry = false;
  new_exec_env = none;
  aux_stack = none;
  malloc_at = λ n. 0;
  set_aux_stack = λ bottom size. false;
  minus_one = 65535;
  enomem = 48;
}

abbrev no_stack : SpawnAnswers
no_stack = record no_runtime { instantiates = true; has_entry = true; new_exec_env = some 11 }

abbrev all_there : SpawnAnswers
all_there = record no_stack {
  malloc_at = λ n. 2000;
  set_aux_stack = λ bottom size. bottom == 133088;
}

fails_late_lem_example :
    (r : Spawned) × (wasi_thread_spawn no_stack 3 one_thread ≡ some r) × Leaks r
fails_late_lem_example =
    fails_late_lem no_stack 3 11 one_thread
      (record { minus_one_pos = omega arith; enomem_pos = omega arith }) (refl, refl, refl)
      (inl refl)

one_thread-IsRunning : IsRunning one_thread
unfolding init_app_main_thread_info new_manager erase get_thread_info find
one_thread-IsRunning = record { has_main = refl; counter_fits = omega arith; room = omega arith }

no_size : (n : ℕ) → all_there.aux_stack ≡ some n → n + 16 < 2 ^ 32
no_size n e = absurd (cc e)

wanted : wanted_stack none ≡ 131088
unfolding wanted_stack
wanted = refl

sets_there : sets_stack all_there ≡ true
unfolding wanted_stack stack_bottom
sets_there = refl

spawns_lem_example :
    (r : Spawned) × (id : ℕ) × (t : ThreadInfo) × (wasi_thread_spawn all_there 3 one_thread
      ≡ some r)
    × (r.ret ≡ pos (tid_of id))
    × (0 < tid_of id)
    × (tid_of id ≤ 2 ^ 31 - 1)
    × ((tid_of id ≡ id) ⊎ (2 ^ 31 - 1 ≤ id))
    × (get_thread_info one_thread id ≡ none)
    × ((k : ℕ)
        → get_thread_info r.manager k ≡ (if id == k then some t else get_thread_info one_thread k))
    × (t.func_arg ≡ 3)
    × IsStack t.app_stack_addr
        (wanted_stack none)
        (stack_bottom t.app_stack_addr (wanted_stack none))
        t.stack_size
    × (r.events ≡ instantiate ∷ create_exec_env ∷ malloc t.app_stack_addr ∷ start_host_thread ∷ [])
spawns_lem_example =
    spawns_lem all_there 3 11 one_thread one_thread-IsRunning (refl, refl, refl) no_size
      (omega arith) (omega (arith, wanted)) sets_there

-- The thread is joined while it runs.
abbrev waited : Exit
waited = join_begin spawned

to_waited : Reach spawned waited
to_waited = Reach.next Reach.here (Step.begins refl refl)

is_waiting_there : waited.joiner ≡ Joiner.waiting
unfolding join_begin
is_waiting_there = refl

join_ends_example : Inevitably Step IsOver waited
join_ends_example = join_ends to_waited

spurious_deadlock_example : (f : Exit) × SpuriousStep waited f × ((g : Exit) → ¬ SpuriousStep f g)
spurious_deadlock_example = spurious_deadlock to_waited is_waiting_there

-- Two threads run when the instance is torn down, and one of them spawns a third.
abbrev thread : ℕ → ThreadInfo
thread id = record (new_thread_info (100 + id)) { handle_id = id }

abbrev three_threads : PthreadManager
three_threads = record {
  thread_map = (0, thread 0) ∷ (1, thread 1) ∷ (2, thread 2) ∷ [];
  cur_handle_id = 3;
}

new_is_not_main : (thread 3).handle_id ≢ main_thread_id
new_is_not_main e = absurd (cc e)

cleanup_ends_example :
    (left : PthreadManager) × (cleanup_app_thread_info
        (λ t. true)
        ((thread 3 ∷ []) ∷ [])
        three_threads
      ≡ some left)
    × (all_thread_info left.thread_map ≡ [])
    × (get_thread_info left main_thread_id ≡ get_thread_info three_threads main_thread_id)
cleanup_ends_example =
    cleanup_ends (λ t. true) ((thread 3 ∷ []) ∷ []) three_threads (λ t. refl)
      (refl, (refl, (refl, tt))) ((new_is_not_main, tt), tt)
