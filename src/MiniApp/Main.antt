-- ===== src/MiniApp/Main.antt =====
-- main of the command line app (src/wamr_ext_app/MiniApp.cpp): from the loaded module to the end of the
-- process. The callback for exceptions runs on the loop's thread and ends the process by _Exit, whatever
-- main does then.
use wamr_ext.Prelude.{Bool, List, Option, some, none, ℕ, true}
use wamr_ext.Prelude.Int.{ℤ, pos}
use wamr_ext.Prelude.Text.{Text}
use wamr_ext.Config.{ExceptionCb, InstanceConfig, ApiRet, ok}
use wamr_ext.Instance.{Instance}
use wamr_ext.Instance.Start.{
  StartAnswers, wamr_ext_instance_start, wamr_ext_instance_exec_main_func,
}
use wamr_ext.Instance.Destroy.{Action, wamr_ext_instance_destroy}
use wamr_ext.Module.{Module, LoadAnswers, wamr_ext_module_load_by_file}
use wamr_ext.Api.{ExceptionInfo, wamr_ext_exception_get_info, code, string}
use wamr_ext.Instance.Loop.{check_started}
use wamr_ext.MiniApp.{MiniArgs, configure}

-- What the standard library, the host and the runtime answer: the stem of a path, the default
-- configuration, and the answers to loading, starting, running main and destroying. `reported` is the
-- exception that the loop's check finds in the started instance, if one does so before destroy begins or
-- main's own error ends the process.
pub record MainAnswers : Type 0 where
  pub stem : Text → Text
  pub default_conf : InstanceConfig
  pub load : LoadAnswers
  pub starting : StartAnswers
  pub has_main : Bool
  pub main_func : Option ℤ
  pub reported : Option Text
  pub has_dtors : Bool
  pub fds : List (Option ℕ)

-- The end of the process: std::exit(1) of a key without a value, an error that main returns or gives to
-- _Exit, the _Exit of the exception's callback, or the value of the app's main, with what destroy did
-- before.
pub data MainEnd : Type 0 where
  bad_option : MainEnd
  returns_error exits_error : ApiRet → MainEnd
  callback_exits : ℤ → MainEnd
  returns_value : ℤ → List Action → MainEnd

-- From wamr_ext_instance_exec_main_func on.
unfoldable pub run_main : MainAnswers → Instance → MainEnd
run_main a i =
    let (r, v) = wamr_ext_instance_exec_main_func a.has_main a.main_func true i in
    elim v [
      | none ↦ exits_error r
      | some n ↦ returns_value n (wamr_ext_instance_destroy a.has_dtors a.fds i).0
    ]

-- The callback's errCode.
unfoldable pub exit_code : ExceptionInfo → ℤ
unfolding wamr_ext_exception_get_info
exit_code info = elim (wamr_ext_exception_get_info (some info) 1 true).1 [
  | some v ↦ elim v [ code c ↦ c | string t ↦ pos 233 ]
  | none ↦ pos 233
]

-- The code that the process ends with where the loop's check calls the callback of the instance.
unfoldable pub reports : MainAnswers → Instance → Option ℤ
unfolding check_started exit_code
reports a i = elim (check_started a.reported i).1 [
  | none ↦ none
  | some c ↦ some (exit_code (record { error_code = c.error_code; error_str = c.error_str }))
]

-- From wamr_ext_instance_exec_main_func on, with the loop's thread beside it.
unfoldable pub run_beside_loop : MainAnswers → Instance → MainEnd
unfolding reports run_main
run_beside_loop a i = elim (reports a i) [ none ↦ run_main a i | some c ↦ callback_exits c ]

-- By what wamr_ext_instance_start returned.
unfoldable pub after_start : MainAnswers → ApiRet → Instance → MainEnd
unfolding run_beside_loop
after_start a ok i = run_beside_loop a i
after_start a e i = returns_error e

-- From wamr_ext_instance_start on.
unfoldable pub start_and_run : MainAnswers → Instance → MainEnd
unfolding after_start
start_and_run a i = let (r, j) = wamr_ext_instance_start a.starting i in after_start a r j

unfoldable pub configure_and_run : ExceptionCb → MainAnswers → MiniArgs → Module → MainEnd
unfolding start_and_run
configure_and_run cb a args m = elim (configure cb args m) [
  | none ↦ bad_option
  | some i ↦ start_and_run a i
]

-- After the parser; `file` is progArgs.front().
unfoldable pub mini_main : ExceptionCb → MainAnswers → MiniArgs → Text → MainEnd
unfolding configure_and_run
mini_main cb a args file =
    let (r, m, files) = wamr_ext_module_load_by_file a.load a.default_conf (some (a.stem file)) in
    elim m [ none ↦ returns_error r | some m' ↦ configure_and_run cb a args m' ]
