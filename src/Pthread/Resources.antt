-- ===== src/Pthread/Resources.antt =====
-- What WasiThreadSpawn returns, enters in the map and frees.
use wamr_ext.Prelude.Int.{is_neg, pos}
use wamr_ext.Prelude.{
  Bool, Bool-cases, List, [], arith, false, if◌then◌else◌, inl, inr, is_some, length, none, some,
  suc, true, ℕ, ◌<◌, ◌^◌, ◌∷◌, ◌≡◌, ◌⊎◌, refl, ◌%◌, ◌++◌, ◌+◌, ◌-◌, ◌==◌, ◌∙◌, ◌≤◌, Option, zero,
}
use wamr_ext.Pthread.{
  PthreadManager, get_thread_info, main_thread_id, ThreadInfo, find-erase, put, find-put,
}
use wamr_ext.Pthread.Handles.{next_handle, next_handle-fresh}
use wamr_ext.Pthread.Spawn.{
  Event, SpawnAnswers, Spawned, deinstantiate, destroy_exec_env, fail_early, instantiate,
  wanted_stack, wasi_thread_spawn, aligned_size, create_exec_env, fail_late, malloc, spawned_info,
  stack_bottom, start_host_thread, tid_of, with_env, enter,
}

-- What the function relies on of the runtime: errors are not 0, and a stack lies in the address space.
pub record IsSound (a : SpawnAnswers) : Type 0 where
  pub minus_one_pos : 0 < a.minus_one
  pub enomem_pos : 0 < a.enomem

-- A manager between two calls: it has the main thread's entry, the counter is a uint32_t, and there
-- are fewer threads than ids.
pub record IsRunning (m : PthreadManager) : Type 0 where
  pub has_main : is_some (get_thread_info m main_thread_id) ≡ true
  pub counter_fits : m.cur_handle_id < 2 ^ 32
  pub room : length m.thread_map < 2 ^ 32

abbrev pub count : (Event → Bool) → List Event → ℕ
count f [] = 0
count f (e ∷ es) = let rest = count f es in if f e then suc rest else rest

abbrev pub is_deinstantiate : Event → Bool
is_deinstantiate deinstantiate = true
is_deinstantiate _ = false

abbrev pub is_destroy : Event → Bool
is_destroy destroy_exec_env = true
is_destroy _ = false

-- The three ways that a spawn fails before it has a thread info.
abbrev pub FailsEarly : SpawnAnswers → Type 0
FailsEarly a = (a.instantiates ≡ false) ⊎ ((a.has_entry ≡ false) ⊎ (a.new_exec_env ≡ none))

-- The ways that it gets there.
abbrev pub HasEnv : SpawnAnswers → ℕ → Type 0
HasEnv a env = (a.instantiates ≡ true) × (a.has_entry ≡ true) × (a.new_exec_env ≡ some env)

-- A spawn that fails before it has an exec env returns a negative number, leaves the threads as they
-- were, and frees the new instance exactly if it was made.
pub fails_early_lem :
    (a : SpawnAnswers) (app_arg : ℕ) (m : PthreadManager)
    → IsSound a
    → FailsEarly a
    → (r : Spawned) × (wasi_thread_spawn a app_arg m ≡ some r)
      × (is_neg r.ret ≡ true)
      × (r.manager ≡ m)
      × (count is_deinstantiate r.events ≡ (if a.instantiates then 1 else 0))
      × (count is_destroy r.events ≡ 0)
unfolding wasi_thread_spawn
fails_early_lem a app_arg m s f = elim (Bool-cases a.instantiates) [
  | inr not_made ↦ (
    fail_early a.minus_one false m [],
    ground arith,
    ground arith,
    ground arith,
    ground arith,
    ground arith,
  )
  | inl made ↦ (
    fail_early a.minus_one true m (instantiate ∷ []),
    ground arith,
    ground arith,
    ground arith,
    ground arith,
    ground arith,
  )
]

with_env-spawn :
    (a : SpawnAnswers) (app_arg env : ℕ) (m : PthreadManager)
    → HasEnv a env
    → wasi_thread_spawn a app_arg m ≡ with_env a app_arg env m
unfolding wasi_thread_spawn
with_env-spawn a app_arg env m (i, h, e) = rw (i, h, e, wasi_thread_spawn) refl

-- What `fail_late` does with the entry of id 0 and with the resources.
abbrev pub Leaks : Spawned → Type 0
Leaks r =
    (is_neg r.ret ≡ true)
    × (get_thread_info r.manager main_thread_id ≡ none)
    × (count is_deinstantiate r.events ≡ 2)
    × (count is_destroy r.events ≡ 2)

fail_late-Leaks :
    (err : ℕ) (t : ThreadInfo) (m : PthreadManager) (es : List Event)
    → 0 < err
    → t.handle_id ≡ 0
    → (es ≡ instantiate ∷ create_exec_env ∷ [])
      ⊎ ((n : ℕ) × (es ≡ instantiate ∷ create_exec_env ∷ malloc n ∷ []))
    → Leaks (fail_late err t m es)
unfolding fail_late get_thread_info
fail_late-Leaks err t m es p z q =
    ground (arith, find-erase t.handle_id main_thread_id m.thread_map)

-- What the runtime answers to the stack that it is given: its bottom and its size.
abbrev pub sets_stack : SpawnAnswers → Bool
sets_stack a =
    let size = wanted_stack a.aux_stack in
    a.set_aux_stack (stack_bottom (a.malloc_at size) size) (aligned_size (a.malloc_at size) size)

not_set : {n : ℕ} (b : Bool) → (n == 0) ≡ false → (n ≡ 0) ⊎ (b ≡ false) → b ≡ false
not_set b h f = ground arith

-- A defect: where the stack cannot be allocated or set, a spawn returns a negative number but frees
-- the new instance and the new exec env twice each, and takes the main thread's entry out of the map,
-- since the new thread has no id of its own yet.
pub fails_late_lem :
    (a : SpawnAnswers) (app_arg env : ℕ) (m : PthreadManager)
    → IsSound a
    → HasEnv a env
    → (a.malloc_at (wanted_stack a.aux_stack) ≡ 0) ⊎ (sets_stack a ≡ false)
    → (r : Spawned) × (wasi_thread_spawn a app_arg m ≡ some r) × Leaks r
unfolding with_env
fails_late_lem a app_arg env m s p f =
    let t = spawned_info a app_arg env in
    let es : List Event = instantiate ∷ create_exec_env ∷ [] in
    elim (Bool-cases (t.app_stack_addr == 0)) [
      | inl no_stack ↦ (
        fail_late a.enomem t m es,
        with_env-spawn a app_arg env m p ∙ rw (no_stack, with_env) refl,
        fail_late-Leaks a.enomem t m es s.enomem_pos refl (inl refl),
      )
      | inr stack ↦
          let es' = es ++ malloc t.app_stack_addr ∷ [] in
          let unset : sets_stack a ≡ false = not_set (sets_stack a) stack f in
          (
            fail_late a.minus_one t m es',
            with_env-spawn a app_arg env m p ∙ rw (stack, unset, with_env) refl,
            fail_late-Leaks a.minus_one t m es' s.minus_one_pos refl (inr (t.app_stack_addr, refl)),
          )
    ]

-- A thread's stack: aligned at 16 bytes at its bottom, inside of the block that was allocated, and at
-- least as large as the size that was meant.
pub record IsStack (addr size bottom stack_size : ℕ) : Type 0 where
  pub aligned : bottom % 16 ≡ 0
  pub from_addr : addr + stack_size ≡ bottom
  pub inside : bottom ≤ addr + size
  pub large : size ≤ stack_size + 15

entered : SpawnAnswers → ℕ → ℕ → PthreadManager → ℕ → ℕ → ThreadInfo → Spawned
entered a app_arg env m id after t = record {
  ret = pos (tid_of id);
  manager = record { thread_map = put id t m.thread_map; cur_handle_id = after };
  events = instantiate ∷ create_exec_env ∷ malloc t.app_stack_addr ∷ start_host_thread ∷ [];
}

abbrev entered_info : SpawnAnswers → ℕ → ℕ → ℕ → ThreadInfo
entered_info a app_arg env id = record (spawned_info a app_arg env) {
  handle_id = id;
  stack_size = aligned_size (a.malloc_at (wanted_stack a.aux_stack)) (wanted_stack a.aux_stack);
}

with_env-entered :
    (a : SpawnAnswers) (app_arg env : ℕ) (m : PthreadManager) (id after : ℕ)
    → (a.malloc_at (wanted_stack a.aux_stack) == 0) ≡ false
    → sets_stack a ≡ true
    → next_handle m ≡ some (id, after)
    → with_env a app_arg env m
      ≡ some (entered a app_arg env m id after (entered_info a app_arg env id))
unfolding with_env entered
with_env-entered a app_arg env m id after h set e = rw (h, set, e, with_env, enter) refl

stack_lem :
    (addr size : ℕ)
    → addr + size < 2 ^ 32
    → 16 ≤ size
    → IsStack addr size (stack_bottom addr size) (aligned_size addr size)
unfolding stack_bottom
stack_lem addr size h l = omega arith

wanted_stack-ge : (o : Option ℕ) → ((n : ℕ) → o ≡ some n → n + 16 < 2 ^ 32) → 16 ≤ wanted_stack o
unfolding wanted_stack
wanted_stack-ge none h = omega arith
wanted_stack-ge (some n) h = omega (arith, h n refl)

tid_bounds : (id : ℕ) → 0 < id → (0 < tid_of id) × (tid_of id ≤ 2 ^ 31 - 1)
unfolding tid_of
tid_bounds id h = ground arith

tid_whole : (id : ℕ) → (tid_of id ≡ id) ⊎ (2 ^ 31 - 1 ≤ id)
unfolding tid_of
tid_whole id = ground arith

not_main : (m : PthreadManager) (id : ℕ) → IsRunning m → get_thread_info m id ≡ none → 0 < id
not_main m zero w e = absurd (cc (w.has_main, e))
not_main m (suc id) w e = omega arith

-- Let the runtime make the instance and the exec env, give a block for the stack inside of the address
-- space, and accept the stack's bottom, aligned at 16 bytes, with the size from the block's address up to
-- it. Then a spawn enters the new thread, with its argument and that stack, under an id that no thread
-- stood under, and changes no other entry. It returns the id, except that one of 2 ^ 31 - 1 and more is
-- returned as 2 ^ 31 - 1; what it returns is never 0. Of the runtime's resources it takes the instance,
-- the exec env, the block and then the host's thread, each once, and frees none.
pub spawns_lem :
    (a : SpawnAnswers) (app_arg env : ℕ) (m : PthreadManager)
    → IsRunning m
    → HasEnv a env
    → ((n : ℕ) → a.aux_stack ≡ some n → n + 16 < 2 ^ 32)
    → 0 < a.malloc_at (wanted_stack a.aux_stack)
    → a.malloc_at (wanted_stack a.aux_stack) + wanted_stack a.aux_stack < 2 ^ 32
    → sets_stack a ≡ true
    → (r : Spawned) × (id : ℕ) × (t : ThreadInfo) × (wasi_thread_spawn a app_arg m ≡ some r)
      × (r.ret ≡ pos (tid_of id))
      × (0 < tid_of id)
      × (tid_of id ≤ 2 ^ 31 - 1)
      × ((tid_of id ≡ id) ⊎ (2 ^ 31 - 1 ≤ id))
      × (get_thread_info m id ≡ none)
      × ((k : ℕ) → get_thread_info r.manager k ≡ (if id == k then some t else get_thread_info m k))
      × (t.func_arg ≡ app_arg)
      × IsStack t.app_stack_addr
          (wanted_stack a.aux_stack)
          (stack_bottom t.app_stack_addr (wanted_stack a.aux_stack))
          t.stack_size
      × (r.events
          ≡ instantiate ∷ create_exec_env ∷ malloc t.app_stack_addr ∷ start_host_thread ∷ [])
unfolding get_thread_info entered
spawns_lem a app_arg env m w p aux addr_pos fits set =
    let (id, after, found, fresh, small, wrapped) = next_handle-fresh m w.room w.counter_fits in
    let t = entered_info a app_arg env id in
    let bounds = tid_bounds id (not_main m id w fresh) in
    (
      entered a app_arg env m id after t,
      id,
      t,
      with_env-spawn a app_arg env m p
          ∙ with_env-entered a app_arg env m id after (ground arith) set found,
      refl,
      bounds.0,
      bounds.1,
      tid_whole id,
      fresh,
      λ k. find-put id k t m.thread_map,
      refl,
      stack_lem (a.malloc_at (wanted_stack a.aux_stack)) (wanted_stack a.aux_stack) fits
          (wanted_stack-ge a.aux_stack aux),
      refl,
    )
