-- ===== src/LoopThread/Steps.antt =====
-- The loop thread while other threads call it; no task calls Stop itself. A step is what one thread does
-- with m_lock held, or one action of libuv's loop; uv_walk and uv_close in Stop, which run on the caller's
-- thread, are taken as one step.
use wamr_ext.Prelude.{ℕ, Bool, true, false, List, [], ◌∷◌, ◌++◌, ◌≡◌, ◌<◌, is_empty, not, ◌||◌}
use wamr_ext.LoopThread.{
  LoopThread, ThreadState, Handle, start, post_timer_task, begin_stop, end_stop, timer_called,
  timer_returned, destroy_uv_handle_data, any_closing, uv_timer, uv_async,
}
use wamr_ext.LoopThread.Handles.{count_by, is_open_timer}

-- The program around the loop thread: whether uv_timer_start starts a timer, and the repeat intervals
-- that tasks are posted with, and whether callbacks post tasks.
pub record Use : Type 0 where
  pub uv_timer_start : ℕ → Bool
  pub posted : ℕ → Bool
  pub callbacks_post : Bool

-- Whether the loop has a timer that runs.
unfoldable pub any_open_timer : List Handle → Bool
any_open_timer [] = false
any_open_timer (h ∷ hs) = elim h.kind [
  | uv_timer ↦ not h.closing || any_open_timer hs
  | uv_async ↦ any_open_timer hs
]

pub data Step (u : Use) (s : LoopThread) (t : LoopThread) : Type 0 where
  starts : s.aborted ≡ false → s.stopping ≡ false → t ≡ start s → Step u s t
  posts :
      (repeat_interval : ℕ)
      → s.aborted ≡ false
      → s.stopping ≡ false
      → u.posted repeat_interval ≡ true
      → t ≡ (post_timer_task (u.uv_timer_start repeat_interval) repeat_interval s).1
      → Step u s t
  stop_begins : s.aborted ≡ false → s.stopping ≡ false → t ≡ begin_stop s → Step u s t
  stop_ends :
      s.aborted ≡ false
      → s.stopping ≡ true
      → s.thread ≡ ThreadState.finished
      → t ≡ end_stop s
      → Step u s t
  -- a timer is due
  fires :
      (i : ℕ)
      → s.aborted ≡ false
      → s.thread ≡ ThreadState.in_loop
      → 0 < count_by (is_open_timer i) s.handles
      → t ≡ timer_called i s
      → Step u s t
  returns :
      (i : ℕ)
      → s.aborted ≡ false
      → s.thread ≡ ThreadState.in_callback i
      → t ≡ timer_returned i s
      → Step u s t
  -- a callback calls PostTimerTask, and later gets m_lock
  callback_posts :
      (i : ℕ)
      → s.aborted ≡ false
      → s.thread ≡ ThreadState.in_callback i
      → u.callbacks_post ≡ true
      → t ≡ record s { thread = ThreadState.posting i }
      → Step u s t
  callback_posted :
      (i repeat_interval : ℕ)
      → s.aborted ≡ false
      → s.stopping ≡ false
      → s.thread ≡ ThreadState.posting i
      → u.posted repeat_interval ≡ true
      → t
        ≡ (post_timer_task
            (u.uv_timer_start repeat_interval)
            repeat_interval
            (record s { thread = ThreadState.in_callback i })).1
      → Step u s t
  -- the loop calls the close callback of a closing handle, in any order
  closes :
      (before : List Handle) (h : Handle) (after : List Handle)
      → s.aborted ≡ false
      → s.thread ≡ ThreadState.in_loop
      → s.handles ≡ before ++ (h ∷ after)
      → h.closing ≡ true
      → t ≡ record s { handles = before ++ after; deleted = destroy_uv_handle_data h s.deleted }
      → Step u s t
  -- the loop has nothing to do: it sleeps until it is woken, or until its next timer is due if it has one
  sleeps :
      s.aborted ≡ false
      → s.thread ≡ ThreadState.in_loop
      → any_closing s.handles ≡ false
      → is_empty s.handles ≡ false
      → t ≡ record s { thread = ThreadState.polling (any_open_timer s.handles) }
      → Step u s t
  wakes :
      (with_timeout : Bool)
      → s.aborted ≡ false
      → s.thread ≡ ThreadState.polling with_timeout
      → s.async_sent ≡ true
      → t ≡ record s { thread = ThreadState.in_loop; async_sent = false }
      → Step u s t
  times_out :
      s.aborted ≡ false
      → s.thread ≡ ThreadState.polling true
      → t ≡ record s { thread = ThreadState.in_loop }
      → Step u s t
  -- uv_run returns when no handle is left
  loop_ends :
      s.aborted ≡ false
      → s.thread ≡ ThreadState.in_loop
      → s.handles ≡ []
      → t ≡ record s { thread = ThreadState.finished }
      → Step u s t

pub data Reach (u : Use) (s : LoopThread) : LoopThread → Type 0 where
  begin : Reach u s s
  then : {t v : LoopThread} → Reach u s t → Step u t v → Reach u s v
