-- ===== src/Api/Init.antt =====
-- The loop thread as wamr_ext_init (src/wamr_ext_api/wamr_ext_api.cpp) leaves it, up to its end.
use wamr_ext.Prelude.{ℕ, Bool, true, false, ◌≡◌, refl, arith}
use wamr_ext.Prelude.Runs.{Inevitably}
use wamr_ext.LoopThread.{LoopThread, new_loop_thread, start, post_timer_task, begin_stop}
use wamr_ext.LoopThread.Once.{AllStart}
use wamr_ext.LoopThread.Repeating.{Repeats}
use wamr_ext.LoopThread.Stopping.{IsStopped, stop_returns}
use wamr_ext.LoopThread.Steps.{Step, Reach, begin, then, starts, posts, stop_begins}
use wamr_ext.Api.{api_use, wamr_ext_init}

api_use-Repeats :
    (uv_timer_start : ℕ → Bool)
    → ((r : ℕ) → uv_timer_start r ≡ true)
    → Repeats (api_use uv_timer_start)
unfolding api_use AllStart
api_use-Repeats uv_timer_start all = record { all_start = all; none_once = refl; none_posts = refl }

abbrev initialized : (ℕ → Bool) → LoopThread
initialized uv_timer_start = (wamr_ext_init true uv_timer_start new_loop_thread).1

to_initialized :
    (uv_timer_start : ℕ → Bool)
    → uv_timer_start 100 ≡ true
    → Reach (api_use uv_timer_start) new_loop_thread (initialized uv_timer_start)
unfolding wamr_ext_init api_use new_loop_thread start
to_initialized uv_timer_start e =
    then (then begin (starts refl refl refl)) (posts 100 refl refl refl refl)

init_runs :
    (uv_timer_start : ℕ → Bool)
    → uv_timer_start 100 ≡ true
    → ((initialized uv_timer_start).aborted ≡ false)
      × ((initialized uv_timer_start).stopping ≡ false)
      × ((begin_stop (initialized uv_timer_start)).stopping ≡ true)
unfolding wamr_ext_init new_loop_thread start post_timer_task begin_stop
init_runs uv_timer_start e = ground arith

-- Where timers can be started: the destructor of the loop thread that wamr_ext_init has started calls
-- Stop, which returns whatever the loop does meanwhile, with the data of the one task deleted.
pub stop_after_init_returns :
    (uv_timer_start : ℕ → Bool)
    → ((r : ℕ) → uv_timer_start r ≡ true)
    → Inevitably
        (Step (api_use uv_timer_start))
        IsStopped
        (begin_stop (wamr_ext_init true uv_timer_start new_loop_thread).1)
stop_after_init_returns uv_timer_start all =
    let runs = init_runs uv_timer_start (all 100) in
    stop_returns (api_use-Repeats uv_timer_start all)
      (then (to_initialized uv_timer_start (all 100)) (stop_begins runs.0 runs.1 refl)) runs.2
