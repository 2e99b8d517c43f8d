-- ===== src/Api.antt =====
-- wamr_ext_init, null handles, wamr_ext_strerror and wamr_ext_exception_get_info
-- (src/wamr_ext_api/wamr_ext_api.cpp). The table of syscalls that wamr_ext_init fills is
-- Syscall/Registry.
pub mod Init
use wamr_ext.Prelude.Int.{ℤ, negsuc, pos}
use wamr_ext.Prelude.{
  ℕ, Bool, Option, some, none, if◌then◌else◌, not, false, ◌==◌, List, [], refl, ◌≡◌,
}
use wamr_ext.Prelude.Text.{Text}
use wamr_ext.Config.{ApiRet, minus_one, ok, einval, OptValue}
use wamr_ext.Instance.{Instance}
use wamr_ext.Instance.Start.{StartAnswers, wamr_ext_instance_start}
use wamr_ext.Instance.Destroy.{Action, wamr_ext_instance_destroy}
use wamr_ext.Module.{
  Module, wamr_ext_module_set_inst_default_opt, wamr_ext_instance_create, wamr_ext_instance_set_opt,
}
use wamr_ext.LoopThread.{LoopThread, start, post_timer_task}
use wamr_ext.LoopThread.Steps.{Use, then}

-- The interval of LoopCheckInstanceRoutine in milliseconds.
abbrev pub check_interval : ℕ
check_interval = 100

-- wamr_ext_init with gLoopThread: `runtime_init` is what wasm_runtime_init answers, and
-- `uv_timer_start` whether a timer starts. What PostTimerTask returns is ignored.
unfoldable pub wamr_ext_init : Bool → (ℕ → Bool) → LoopThread → ApiRet × LoopThread
wamr_ext_init runtime_init uv_timer_start loop_thread =
    if not runtime_init then (minus_one, loop_thread) else (
      ok,
      (post_timer_task (uv_timer_start check_interval) check_interval (start loop_thread)).1,
    )

-- How the program uses its loop thread: wamr_ext_init alone posts a task, which posts none.
unfoldable pub api_use : (ℕ → Bool) → Use
api_use uv_timer_start = record {
  uv_timer_start = uv_timer_start;
  posted = λ r. r == check_interval;
  callbacks_post = false;
}

-- WamrExtExceptionInfo
pub record ExceptionInfo : Type 0 where
  pub error_code : ℤ
  pub error_str : Text

pub data InfoValue : Type 0 where
  code : ℤ → InfoValue
  string : Text → InfoValue

-- wamr_ext_exception_get_info: beside the code, what is stored in *value. `none` is a null exception.
unfoldable pub wamr_ext_exception_get_info :
    Option ExceptionInfo → ℕ → Bool → ApiRet × Option InfoValue
wamr_ext_exception_get_info none info has_value = (einval, none)
wamr_ext_exception_get_info (some e) info has_value =
    if not has_value
    then (einval, none)
    else if info == 1
    then (ok, some (code e.error_code))
    else if info == 2
    then (ok, some (string e.error_str))
    else (einval, none)

-- wamr_ext_strerror: `strerror` is the host's, and `last_error` the text in gLastErrorStr.
unfoldable pub wamr_ext_strerror : (ℕ → Text) → Text → ℤ → Text
wamr_ext_strerror strerror last_error (pos err) = strerror err
wamr_ext_strerror strerror last_error (negsuc err) = last_error

-- `if (!module || !(*module)) return EINVAL;`, and the same of an instance: `none` is null.
unfoldable pub on_handle : {A : Type 0} → Option A → (A → ApiRet × A) → ApiRet × Option A
on_handle none f = (einval, none)
on_handle (some a) f = let (r, b) = f a in (r, some b)

-- wamr_ext_module_set_inst_default_opt
unfoldable pub set_default_opt_of : Option Module → Option OptValue → ApiRet × Option Module
unfolding on_handle
set_default_opt_of m o = on_handle m (λ m'. wamr_ext_module_set_inst_default_opt m' o)

-- wamr_ext_instance_create: what is stored in *inst, if anything.
unfoldable pub create_from : Option Module → ApiRet × Option Instance
create_from none = (einval, none)
create_from (some m) = (ok, some (wamr_ext_instance_create m))

-- wamr_ext_instance_set_opt
unfoldable pub set_opt_of : Option Instance → Option OptValue → ApiRet × Option Instance
unfolding on_handle
set_opt_of i o = on_handle i (λ i'. wamr_ext_instance_set_opt i' o)

-- wamr_ext_instance_start
unfoldable pub start_of : Option Instance → StartAnswers → ApiRet × Option Instance
unfolding on_handle
start_of i a = on_handle i (wamr_ext_instance_start a)

-- wamr_ext_instance_destroy: the calls that it makes, and *inst, which is null after it.
unfoldable pub destroy_of :
    Option Instance → Bool → List (Option ℕ) → ApiRet × List Action × Option Instance
destroy_of none has_dtors fds = (einval, [], none)
destroy_of (some i) has_dtors fds = (ok, (wamr_ext_instance_destroy has_dtors fds i).0, none)

-- The handle of a destroyed instance is refused by every further call, which then makes no calls.
destroyed_handle_refused :
    (i : Instance) (has_dtors : Bool) (fds : List (Option ℕ)) (o : Option OptValue)
    (a : StartAnswers)
    → let gone = (destroy_of (some i) has_dtors fds).2 in
      (set_opt_of gone o ≡ (einval, none))
      × (start_of gone a ≡ (einval, none))
      × (destroy_of gone has_dtors fds ≡ (einval, [], none))
unfolding destroy_of set_opt_of start_of
destroyed_handle_refused i has_dtors fds o a = (refl, refl, refl)
