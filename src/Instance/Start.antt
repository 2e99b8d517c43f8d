-- ===== src/Instance/Start.antt =====
-- wamr_ext_instance_start and wamr_ext_instance_exec_main_func (src/wamr_ext_api/wamr_ext_api.cpp).
-- What the WAMR runtime answers to the calls made on the way is an argument. The standard descriptors
-- that are duplicated for the app and the texts for wamr_ext_strerror are not modelled.
use wamr_ext.Prelude.Int.{ℤ}
use wamr_ext.Prelude.{
  Bool, Option, arith, false, if◌then◌else◌, none, not, some, true, ℕ, ◌&&◌, ◌↔◌, ◌≡◌, ◌≢◌, is_some,
  ◌⊎◌,
}
use wamr_ext.Config.{ApiRet, minus_one, ok}
use wamr_ext.Instance.{Instance, MemoryInstance, State}
use wamr_ext.Instance.Memory.{enlarge}
use wamr_ext.Instance.WasiArgs.{WasiArgs, wasi_args}

-- The runtime's answers to one start: the memory of the new instance, its exec env, reallocation,
-- whether the module exports _initialize, and whether that ran without an exception.
pub record StartAnswers : Type 0 where
  pub instantiate : WasiArgs → Option MemoryInstance
  pub create_exec_env : Option ℕ
  pub realloc : ℕ → ℕ → Option ℕ
  pub has_initialize : Bool
  pub initialize_returns : Bool

-- The first critical section: the state is checked under the instance's lock.
unfoldable pub may_start : Instance → Bool
may_start i = elim i.state [ State.new ↦ true | _ ↦ false ]

-- After the memory is enlarged: custom data, the main thread's entry, and _initialize.
unfoldable pub initialize : StartAnswers → Instance → ApiRet × Instance
initialize a i =
    let ready = record i { custom_data = true } in
    if a.has_initialize && a.initialize_returns
    then (ok, record ready { state = State.started })
    else (minus_one, record ready { state = State.ended })

-- With the runtime's instance and exec env.
unfoldable pub enlarge_and_initialize :
    StartAnswers → MemoryInstance → ℕ → Instance → ApiRet × Instance
unfolding initialize
enlarge_and_initialize a m env i =
    let (done, m') = enlarge i.config.max_memory a.realloc m in
    let i' = record i { main_instance = some m'; main_exec_env = some env } in
    if done then initialize a i' else (minus_one, record i' { state = State.ended })

unfoldable pub start_body : StartAnswers → Instance → ApiRet × Instance
unfolding enlarge_and_initialize
start_body a i = elim (a.instantiate (wasi_args i.config)) [
  | none ↦ (minus_one, record i { main_instance = none })
  | some m ↦ elim a.create_exec_env [
    | none ↦ (minus_one, record i { main_instance = some m; main_exec_env = none })
    | some env ↦ enlarge_and_initialize a m env i
  ]
]

-- wamr_ext_instance_start, with no other call between its critical sections.
unfoldable pub wamr_ext_instance_start : StartAnswers → Instance → ApiRet × Instance
unfolding may_start start_body
wamr_ext_instance_start a i = if may_start i then start_body a i else (minus_one, i)

-- The first critical section of wamr_ext_instance_exec_main_func.
unfoldable pub may_run_main : Instance → Bool
may_run_main i = elim i.state [ State.started ↦ true | _ ↦ false ]

-- wamr_ext_instance_exec_main_func: `has_main` says whether the module exports __main_void, and
-- `call` is what it returns, `none` after an exception; beside the code, what is stored in *ret_value
-- (`none` where it is left alone, also where ret_value is null).
unfoldable pub wamr_ext_instance_exec_main_func :
    Bool → Option ℤ → Bool → Instance → ApiRet × Option ℤ
unfolding may_run_main
wamr_ext_instance_exec_main_func has_main call wants_value i =
    if not (may_run_main i)
    then (minus_one, none)
    else if not has_main
    then (minus_one, none)
    else elim call [
      | none ↦ (minus_one, none)
      | some v ↦ (ok, if wants_value then some v else none)
    ]

-- A start returns 0 exactly where the instance ends up STARTED from NEW: the runtime instantiated the
-- module, made an exec env, the memory could be enlarged, and _initialize exists and returned.
pub start_ok_iff_started :
    (a : StartAnswers) (i : Instance)
    → i.state ≢ State.started
    → ((wamr_ext_instance_start a i).0 ≡ ok)
      ↔ ((wamr_ext_instance_start a i).1.state ≡ State.started)
unfolding wamr_ext_instance_start
start_ok_iff_started a i h = ground arith

-- Ready to run: a memory, an exec env, and the custom data by which the extensions find the instance.
abbrev pub IsReady : Instance → Type 0
IsReady i =
    (is_some i.main_instance ≡ true) × (is_some i.main_exec_env ≡ true) × (i.custom_data ≡ true)

-- A start that returns 0 leaves an instance that is ready to run.
pub start_ok-IsReady :
    (a : StartAnswers) (i : Instance)
    → (wamr_ext_instance_start a i).0 ≡ ok
    → IsReady (wamr_ext_instance_start a i).1
unfolding wamr_ext_instance_start
start_ok-IsReady a i e = ground arith

-- A start that does not find the instance NEW returns -1 and changes nothing; one that does leaves it
-- STARTED, ENDED, or still NEW where the runtime gave no instance or no exec env.
pub start_states :
    (a : StartAnswers) (i : Instance)
    → let r = wamr_ext_instance_start a i in
      ((i.state ≢ State.new) × (r.0 ≡ minus_one) × (r.1 ≡ i))
      ⊎ ((i.state ≡ State.new)
          × ((r.1.state ≡ State.started)
              ⊎ ((r.1.state ≡ State.ended)
                  ⊎ ((r.1.state ≡ State.new)
                      × ((a.instantiate (wasi_args i.config) ≡ none)
                          ⊎ (a.create_exec_env ≡ none))))))
unfolding wamr_ext_instance_start
start_states a i = ground arith
