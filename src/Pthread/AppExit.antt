-- ===== src/Pthread/AppExit.antt =====
-- DoAppThreadExit (src/wamr_ext_lib/WasiPthreadExt.cpp): a thread that ends with an exception passes it
-- on to the runtime instances of the other threads, among them the main thread's, where the loop of the
-- API finds it. `set` is what wasm_runtime_set_exception stores for a text.
use wamr_ext.Prelude.Text.{Text, bytes}
use wamr_ext.Prelude.{
  Bool, List, Option, [], arith, false, if◌then◌else◌, none, not, some, true, ℕ, ◌&&◌, ◌++◌, ◌==◌,
  ◌||◌, ◌∷◌, ◌≡◌, ◌≢◌, Bool-cases, inl, inr, ◌∙◌,
}
use wamr_ext.Pthread.{ThreadInfo, main_thread_id}
use wamr_ext.Socket.Address.{drop}

-- wasm_runtime_get_exception of the instance of each exec env.
abbrev pub Exceptions : Type 0
Exceptions = ℕ → Option Text

abbrev pub set_exception : (Text → Text) → ℕ → Text → Exceptions → Exceptions
set_exception set env text ex e = if e == env then some (set text) else ex e

-- The loop over m_threadMap.
unfoldable pub spread : (Text → Text) → ℕ → Text → List (ℕ × ThreadInfo) → Exceptions → Exceptions
spread set env text [] ex = ex
spread set env text ((k, t) ∷ m) ex =
    let ex' = if t.exec_env == env then ex else set_exception set t.exec_env text ex in
    spread set env text m ex'

-- exception += 11
abbrev pub without_prefix : Text → Text
without_prefix text = drop 11 text

-- The exceptions, and whether the thread's exec env is cancelled.
unfoldable pub do_app_thread_exit :
    (Text → Text) → ThreadInfo → List (ℕ × ThreadInfo) → Exceptions → Exceptions × Bool
unfolding spread
do_app_thread_exit set t m ex = if t.handle_id == main_thread_id then (ex, false) else (
  elim (ex t.exec_env) [ none ↦ ex | some text ↦ spread set t.exec_env (without_prefix text) m ex ],
  true,
)

-- Whether an entry of the map has this exec env.
pub elem_env : ℕ → List (ℕ × ThreadInfo) → Bool
elem_env e [] = false
elem_env e ((k, t) ∷ m) = (t.exec_env == e) || elem_env e m

spread_lem :
    (set : Text → Text) (env : ℕ) (text : Text) (m : List (ℕ × ThreadInfo)) (ex : Exceptions)
    (e : ℕ)
    → spread set env text m ex e
      ≡ (if not (e == env) && elem_env e m then some (set text) else ex e)
unfolding spread elem_env
spread_lem set env text [] ex e = ground arith
spread_lem set env text ((k, t) ∷ m) ex e = ground (
  arith,
  spread_lem set env text m (if t.exec_env == env then ex else set_exception set t.exec_env text ex)
      e,
)

-- Let the runtime store exceptions with the eleven bytes 'Exception: ' in front. When a thread other than
-- the main one ends with an exception of the runtime, exactly the instances of the other threads in the
-- map have that exception too, and every other instance has what it had.
pub exit_spreads :
    (t : ThreadInfo) (m : List (ℕ × ThreadInfo)) (ex : Exceptions) (text : Text) (e : ℕ)
    → t.handle_id ≢ main_thread_id
    → ex t.exec_env ≡ some (bytes "Exception: " ++ text)
    → (do_app_thread_exit (λ s. bytes "Exception: " ++ s) t m ex).0 e
      ≡ (if elem_env e m then (if e == t.exec_env then ex e else ex t.exec_env) else ex e)
unfolding do_app_thread_exit
exit_spreads t m ex text e n x = elim (Bool-cases (t.handle_id == main_thread_id)) [
  | inl q ↦ absurd (n (ground arith))
  | inr q ↦
      rw (q, x, do_app_thread_exit)
        (spread_lem (λ s. bytes "Exception: " ++ s) t.exec_env text m ex e ∙ ground arith)
]
