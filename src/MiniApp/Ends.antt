-- ===== src/MiniApp/Ends.antt =====
-- How the command line app (src/wamr_ext_app/MiniApp.cpp) ends.
use wamr_ext.Prelude.{List, some, true, ◌≡◌, none}
use wamr_ext.Prelude.Int.{ℤ}
use wamr_ext.Prelude.Text.{Text}
use wamr_ext.Config.{ExceptionCb, ok}
use wamr_ext.Instance.{Instance}
use wamr_ext.Instance.Start.{wamr_ext_instance_start}
use wamr_ext.Instance.Destroy.{
  Action, count_if, is_deinstantiate, is_env, is_dtors, is_cleanup, one_if,
}
use wamr_ext.Module.{wamr_ext_module_load_by_file, Module}
use wamr_ext.MiniApp.{MiniArgs, configure}
use wamr_ext.MiniApp.Main.{MainAnswers, MainEnd, returns_value, reports}

-- What a start made is freed: the instance of the runtime, the exec env, and the app's threads.
pub record Released (a : MainAnswers) (acts : List Action) : Type 0 where
  pub instance_once : count_if is_deinstantiate acts ≡ 1
  pub env_once : count_if is_env acts ≡ 1
  pub threads_once : count_if is_cleanup acts ≡ 1
  pub dtors_once : count_if is_dtors acts ≡ one_if a.has_dtors

-- A value is returned only of an app's main that returned it, with that freed and no exception reported.
abbrev EndsWell : MainAnswers → Instance → MainEnd → Type 0
EndsWell a i (returns_value v acts) =
    (a.main_func ≡ some v) × (a.has_main ≡ true) × Released a acts × (reports a i ≡ none)
EndsWell a i _ = Unit {0}

-- What it takes for the command line app to return the value: the app's file is loaded, the options are
-- well formed, the instance that they make is started, the app has a main that returns the value, and no exception of
-- the app was handed to the callback before.
pub record Succeeds (cb : ExceptionCb) (a : MainAnswers) (args : MiniArgs) (file : Text) (v : ℤ)
    : Type 0 where
  pub wasm : Module
  pub inst : Instance
  pub loaded :
      (wamr_ext_module_load_by_file a.load a.default_conf (some (a.stem file))).1 ≡ some wasm
  pub configured : configure cb args wasm ≡ some inst
  pub started : (wamr_ext_instance_start a.starting inst).0 ≡ ok
  pub not_reported : reports a (wamr_ext_instance_start a.starting inst).1 ≡ none
  pub main_there : a.has_main ≡ true
  pub main_returned : a.main_func ≡ some v

-- The same of the end.
abbrev Ends : ExceptionCb → MainAnswers → MiniArgs → Text → MainEnd → Type 0
Ends cb a args file (returns_value v acts) = Succeeds cb a args file v × Released a acts
Ends cb a args file _ = Unit {0}
