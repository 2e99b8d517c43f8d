-- ===== src/Tests/LoopThread.antt =====
-- A run of the loop thread (LoopThread) as wamr_ext_init uses it.
use wamr_ext.Prelude.{ℕ, Bool, true, false, ◌≡◌, ◌<◌, refl, arith, some, ◌≤◌}
use wamr_ext.Prelude.Runs.{Inevitably}
use wamr_ext.LoopThread.{
  LoopThread, new_loop_thread, begin_stop, post_timer_task, start, timer_called, ThreadState,
  any_closing,
}
use wamr_ext.LoopThread.Handles.{count, count_by}
use wamr_ext.LoopThread.Once.{AllStart, called_back}
use wamr_ext.LoopThread.Repeating.{Repeats, data_deleted_once}
use wamr_ext.LoopThread.Stopping.{IsStopped, stop_returns}
use wamr_ext.LoopThread.Steps.{
  Use, Reach, begin, then, starts, posts, stop_begins, fires, Step, any_open_timer, sleeps,
}
use wamr_ext.Api.{api_use}

abbrev always : ℕ → Bool
always r = true

abbrev api : Use
api = api_use always

api-Repeats : Repeats api
unfolding api_use AllStart
api-Repeats = record { all_start = λ r. refl; none_once = refl; none_posts = refl }

abbrev ticking : LoopThread
ticking = timer_called 0 (post_timer_task true 100 (start new_loop_thread)).1

to_ticking : Reach api new_loop_thread ticking
unfolding new_loop_thread start post_timer_task timer_called api_use count_by
to_ticking =
    then (then (then begin (starts refl refl refl)) (posts 100 refl refl refl refl))
      (fires 0 refl refl (omega arith) refl)

abbrev joining : LoopThread
joining = begin_stop ticking

to_joining : Reach api new_loop_thread joining
unfolding new_loop_thread start post_timer_task timer_called api_use
to_joining = then to_ticking (stop_begins refl refl refl)

-- The loop has no timer yet, and sleeps without a timeout when Stop comes.
abbrev asleep : LoopThread
asleep = record (start new_loop_thread) { thread = ThreadState.polling false }

to_asleep : Reach api new_loop_thread asleep
unfolding new_loop_thread start any_closing any_open_timer
to_asleep = then (then begin (starts refl refl refl)) (sleeps refl refl refl refl refl)

abbrev woken : LoopThread
woken = begin_stop asleep

to_woken : Reach api new_loop_thread woken
unfolding new_loop_thread start
to_woken = then to_asleep (stop_begins refl refl refl)

stop_returns_example : Inevitably (Step api) IsStopped woken
unfolding new_loop_thread start begin_stop
stop_returns_example = stop_returns api-Repeats to_woken refl

data_deleted_once_example :
    (joining.aborted ≡ false)
    × (count 0 joining.deleted ≤ 1)
    × (called_back joining.thread ≡ some 0 → count 0 joining.deleted ≡ 0)
    × (joining.running ≡ false → 0 < joining.allocated → count 0 joining.deleted ≡ 1)
data_deleted_once_example = data_deleted_once api-Repeats to_joining 0
