-- ===== src/LoopThread.antt =====
-- The loop thread: LoopThread (src/base/LoopThread.h, LoopThread.cpp). libuv's handles are modelled by
-- what the program does with them: a handle is registered with the loop from its init until its close
-- callback, and closing from uv_close on. What uv_timer_start returns is an argument. uv_async_send is
-- what wakes a loop that sleeps in its poll, also where its handle is closing.
pub mod Handles
pub mod Steps
pub mod Once
pub mod Repeating
pub mod Stopping
pub mod Races
use wamr_ext.Prelude.{
  ℕ, Bool, true, false, not, ◌||◌, ◌&&◌, List, [], ◌∷◌, ◌++◌, map, Option, none, some, ◌+◌, ◌==◌,
  if◌then◌else◌, is_empty,
}

-- pUVHandle->type, of the handles that the program makes.
pub data HandleType : Type 0 where
  uv_async uv_timer : HandleType

-- UVHandleTimerData, and m_uvAsync. `id` tells the allocations of timer data apart.
pub record Handle : Type 0 where
  pub kind : HandleType
  pub id : ℕ
  pub repeat : ℕ
  pub closing : Bool

-- What m_pThread does: `posting` is inside a timer's callback that waits for m_lock in PostTimerTask;
-- `polling` sleeps in the loop's poll, with a timeout if a timer was open when it went to sleep.
pub data ThreadState : Type 0 where
  no_thread in_loop finished : ThreadState
  polling : (with_timeout : Bool) → ThreadState
  in_callback posting : ℕ → ThreadState

-- `stopping`: Stop holds m_lock and waits in join. `allocated` counts the timer data made by new,
-- `deleted` lists those given to delete, `called` those whose callback was called, latest first.
-- `async_sent`: uv_async_send was called and has not woken the loop yet.
-- `aborted`: uv_close was called on a closing handle or uv_loop_close failed. libuv and the program assert
-- against that; what happens then where assertions are compiled out is undefined, and no step is given for
-- it. LoopThread/Repeating shows when it does not come to that, LoopThread/Races when it does.
pub record LoopThread : Type 0 where
  pub running : Bool
  pub stopping : Bool
  pub thread : ThreadState
  pub handles : List Handle
  pub allocated : ℕ
  pub deleted : List ℕ
  pub called : List ℕ
  pub async_sent : Bool
  pub aborted : Bool

-- LoopThread(threadName)
unfoldable pub new_loop_thread : LoopThread
new_loop_thread = record {
  running = false;
  stopping = false;
  thread = no_thread;
  handles = [];
  allocated = 0;
  deleted = [];
  called = [];
  async_sent = false;
  aborted = false;
}

abbrev pub async_handle : Handle
async_handle = record { kind = uv_async; id = 0; repeat = 0; closing = false }

-- Start: uv_loop_init and uv_async_init, and the thread.
unfoldable pub start : LoopThread → LoopThread
start s = if s.running then s else record s {
  handles = async_handle ∷ [];
  thread = in_loop;
  running = true;
  async_sent = false;
}

-- DoPostTimerTask: the data is registered by its constructor. Where uv_timer_start fails, the data is
-- deleted and no uv_close takes its handle off the loop.
unfoldable pub do_post_timer_task : Bool → ℕ → LoopThread → Bool × LoopThread
do_post_timer_task started repeat_interval s =
    let h : Handle = record {
      kind = uv_timer;
      id = s.allocated;
      repeat = repeat_interval;
      closing = false;
    } in
    let made = record s { allocated = s.allocated + 1; handles = s.handles ++ (h ∷ []) } in
    if started
    then (true, record made { async_sent = true })
    else (false, record made { deleted = s.allocated ∷ s.deleted })

-- PostTimerTask, with m_lock.
unfoldable pub post_timer_task : Bool → ℕ → LoopThread → Bool × LoopThread
unfolding do_post_timer_task
post_timer_task started repeat_interval s =
    if not s.running then (false, s) else do_post_timer_task started repeat_interval s

abbrev pub uv_close : Handle → Handle
uv_close h = record h { closing = true }

unfoldable pub any_closing : List Handle → Bool
any_closing [] = false
any_closing (h ∷ hs) = h.closing || any_closing hs

-- Stop, up to the join: uv_walk closes every registered handle, and uv_async_send wakes the loop.
unfoldable pub begin_stop : LoopThread → LoopThread
begin_stop s = if not s.running then s else record s {
  handles = map uv_close s.handles;
  aborted = any_closing s.handles;
  async_sent = true;
  stopping = true;
}

-- Stop, after the join: uv_loop_close fails while a handle is registered, which is asserted against.
unfoldable pub end_stop : LoopThread → LoopThread
end_stop s = record s {
  aborted = not (is_empty s.handles);
  thread = no_thread;
  running = false;
  stopping = false;
}

-- DestroyUVHandleData, the close callback.
unfoldable pub destroy_uv_handle_data : Handle → List ℕ → List ℕ
destroy_uv_handle_data h deleted = elim h.kind [ uv_timer ↦ h.id ∷ deleted | uv_async ↦ deleted ]

abbrev pub is_timer : ℕ → Handle → Bool
is_timer i h = elim h.kind [ uv_timer ↦ h.id == i | uv_async ↦ false ]

unfoldable pub find_timer : ℕ → List Handle → Option Handle
find_timer i [] = none
find_timer i (h ∷ hs) = if is_timer i h then some h else find_timer i hs

unfoldable pub close_timer : ℕ → List Handle → List Handle
close_timer i [] = []
close_timer i (h ∷ hs) =
    let rest = close_timer i hs in if is_timer i h then uv_close h ∷ hs else h ∷ rest

-- The timer's callback: it calls `cb` …
unfoldable pub timer_called : ℕ → LoopThread → LoopThread
timer_called i s = record s { thread = in_callback i; called = i ∷ s.called }

-- … and once that has returned, it closes a timer that does not repeat. (The data is registered: see
-- LoopThread/Once.)
unfoldable pub timer_returned : ℕ → LoopThread → LoopThread
unfolding find_timer close_timer
timer_returned i s = elim (find_timer i s.handles) [
  | none ↦ record s { thread = in_loop }
  | some h ↦
      if h.repeat == 0
      then record s { thread = in_loop; handles = close_timer i s.handles; aborted = h.closing }
      else record s { thread = in_loop }
]
