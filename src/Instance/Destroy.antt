-- ===== src/Instance/Destroy.antt =====
-- wamr_ext_instance_destroy (src/wamr_ext_api/wamr_ext_api.cpp): its two critical sections, and the
-- calls that it makes in between, in their order.
use wamr_ext.Instance.{Instance, State}
use wamr_ext.Prelude.{
  ℕ, Bool, List, Option, [], arith, false, if◌then◌else◌, is_some, map, none, refl, some, suc, true,
  ◌&&◌, ◌++◌, ◌+◌, ◌∷◌, ◌≡◌,
}

-- What destroy calls: the extensions' clean-up of the app's threads, the app's destructors, and the
-- runtime's functions that close descriptors and free the exec env and the instance.
pub data Action : Type 0 where
  cleanup_app_threads : Action
  call_dtors : Action
  close_fd : ℕ → Action
  destroy_exec_env : ℕ → Action
  deinstantiate : Action

-- pInst->state >= STATE_DESTROYING
unfoldable pub is_destroying : State → Bool
is_destroying State.destroying = true
is_destroying State.destroyed = true
is_destroying _ = false

unfoldable pub is_started : State → Bool
is_started State.started = true
is_started _ = false

-- The first critical section: `none` where another call was first, else bRunDtor.
unfoldable pub begin_destroy : Instance → Option Bool × Instance
unfolding is_destroying is_started
begin_destroy i =
    if is_destroying i.state
    then (none, i)
    else (some (is_started i.state), record i { state = State.destroying })

-- The ids of the descriptor table's entries that are not null, in the table's order.
unfoldable pub app_fds : List (Option ℕ) → List ℕ
app_fds [] = []
app_fds (none ∷ fds) = app_fds fds
app_fds (some id ∷ fds) = id ∷ app_fds fds

abbrev pub when : Bool → List Action → List Action
when b acts = if b then acts else []

abbrev pub env_actions : Option ℕ → List Action
env_actions none = []
env_actions (some env) = destroy_exec_env env ∷ []

-- Between the sections: `has_dtors` says whether the module exports __wasm_call_dtors, `fds` is the
-- descriptor table of the instance.
unfoldable pub destroy_actions : Bool → Bool → List (Option ℕ) → Instance → List Action
unfolding app_fds
destroy_actions run_dtor has_dtors fds i =
    when (is_some i.main_exec_env) (cleanup_app_threads ∷ [])
    ++ (when (run_dtor && has_dtors) (call_dtors ∷ [])
        ++ (when (is_some i.main_instance) (map close_fd (app_fds fds))
            ++ (env_actions i.main_exec_env
                ++ when (is_some i.main_instance) (deinstantiate ∷ []))))

-- Both pointers are reset, and the second critical section sets the state.
unfoldable pub end_destroy : Instance → Instance
end_destroy i = record i { main_exec_env = none; main_instance = none; state = State.destroyed }

-- The whole call; it returns 0 on both ways, and leaves *inst null.
unfoldable pub wamr_ext_instance_destroy :
    Bool → List (Option ℕ) → Instance → List Action × Instance
unfolding begin_destroy end_destroy
wamr_ext_instance_destroy has_dtors fds i =
    let (first, i') = begin_destroy i in
    elim first [
      | none ↦ ([], i')
      | some run_dtor ↦ (destroy_actions run_dtor has_dtors fds i', end_destroy i')
    ]

-- How often an action of one kind is made.
abbrev pub count_if : (Action → Bool) → List Action → ℕ
count_if f [] = 0
count_if f (a ∷ acts) = let rest = count_if f acts in if f a then suc rest else rest

pub count_if-append :
    (f : Action → Bool) (acts bs : List Action)
    → count_if f (acts ++ bs) ≡ count_if f acts + count_if f bs
count_if-append f [] bs = omega arith
count_if-append f (a ∷ acts) bs = ground (arith, count_if-append f acts bs)

abbrev pub is_deinstantiate : Action → Bool
is_deinstantiate deinstantiate = true
is_deinstantiate _ = false

abbrev pub is_env : Action → Bool
is_env (destroy_exec_env e) = true
is_env _ = false

abbrev pub is_dtors : Action → Bool
is_dtors call_dtors = true
is_dtors _ = false

abbrev pub is_cleanup : Action → Bool
is_cleanup cleanup_app_threads = true
is_cleanup _ = false

abbrev pub one_if : Bool → ℕ
one_if b = if b then 1 else 0

count_closes :
    (f : Action → Bool)
    → ((n : ℕ) → f (close_fd n) ≡ false)
    → (ns : List ℕ) → count_if f (map close_fd ns) ≡ 0
count_closes f h [] = refl
count_closes f h (n ∷ ns) = rw (h n) (count_closes f h ns)

count-when_closes :
    (f : Action → Bool)
    → ((n : ℕ) → f (close_fd n) ≡ false)
    → (b : Bool) (ns : List ℕ) → count_if f (when b (map close_fd ns)) ≡ 0
count-when_closes f h true ns = count_closes f h ns
count-when_closes f h false ns = refl

-- How often an action stands in each part of a destruction's calls.
count-actions :
    (f : Action → Bool)
    → ((n : ℕ) → f (close_fd n) ≡ false)
    → (run_dtor has_dtors : Bool) (fds : List (Option ℕ)) (i : Instance)
    → count_if f (destroy_actions run_dtor has_dtors fds i)
      ≡ count_if f (when (is_some i.main_exec_env) (cleanup_app_threads ∷ []))
        + (count_if f (when (run_dtor && has_dtors) (call_dtors ∷ []))
            + (count_if f (env_actions i.main_exec_env)
                + count_if f (when (is_some i.main_instance) (deinstantiate ∷ []))))
unfolding destroy_actions
count-actions f h run_dtor has_dtors fds i =
    simp (count_if-append, count-when_closes f h) (omega arith)

-- Of an instance that no other call is destroying, a call frees the exec env and the runtime's
-- instance once each if they are there, cleans the app's threads up if there is an exec env, runs the
-- destructors once if the instance was STARTED and exports them, and leaves the instance DESTROYED
-- with neither pointer.
pub destroy_releases :
    (has_dtors : Bool) (fds : List (Option ℕ)) (i : Instance)
    → is_destroying i.state ≡ false
    → let (acts, j) = wamr_ext_instance_destroy has_dtors fds i in
      (count_if is_deinstantiate acts ≡ one_if (is_some i.main_instance))
      × (count_if is_env acts ≡ one_if (is_some i.main_exec_env))
      × (count_if is_cleanup acts ≡ one_if (is_some i.main_exec_env))
      × (count_if is_dtors acts ≡ one_if (is_started i.state && has_dtors))
      × (j.state ≡ State.destroyed)
      × (j.main_instance ≡ none)
      × (j.main_exec_env ≡ none)
unfolding wamr_ext_instance_destroy
destroy_releases has_dtors fds i h =
    let marked = record i { state = State.destroying } in
    ground (
      arith,
      count-actions is_deinstantiate (λ n. refl) (is_started i.state) has_dtors fds marked,
      count-actions is_env (λ n. refl) (is_started i.state) has_dtors fds marked,
      count-actions is_cleanup (λ n. refl) (is_started i.state) has_dtors fds marked,
      count-actions is_dtors (λ n. refl) (is_started i.state) has_dtors fds marked,
    )

-- A second call, and one beside a call that is under way, makes no calls and changes nothing.
pub destroy_again :
    (has_dtors again : Bool) (fds fds' : List (Option ℕ)) (i : Instance)
    → let j = (wamr_ext_instance_destroy has_dtors fds i).1 in
      wamr_ext_instance_destroy again fds' j ≡ ([], j)
unfolding wamr_ext_instance_destroy
destroy_again has_dtors again fds fds' i = ground arith
