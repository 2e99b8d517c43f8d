-- ===== src/LoopThread/Once.antt =====
-- What holds of the loop thread whoever calls it and whenever: what becomes of the timers' data.
use wamr_ext.Prelude.{
  ℕ, true, false, List, [], ◌∷◌, ◌≡◌, ◌<◌, Option, arith, ltb, none, some, ◌+◌, ◌≢◌, refl, ◌++◌,
  ◌≤◌, Bool, is_empty,
}
use wamr_ext.LoopThread.{
  LoopThread, ThreadState, is_timer, new_loop_thread, begin_stop, end_stop, post_timer_task, start,
  timer_called, timer_returned, Handle, destroy_uv_handle_data, any_closing,
}
use wamr_ext.LoopThread.Handles.{
  count_by, is_open_timer, count, is_open, is_open_async, one_if, count_by-append,
  count_by-close_timer, count_by-uv_close, open-close_timer, open-uv_close, open_async-timer,
  open_timer-le, count_by-split, timer,
}
use wamr_ext.LoopThread.Steps.{
  Step, Use, Reach, begin, then, starts, posts, stop_begins, stop_ends, fires, returns,
  callback_posts, callback_posted, closes, sleeps, wakes, times_out, loop_ends,
}

-- The timer of a callback that runs or waits.
abbrev pub called_back : ThreadState → Option ℕ
called_back (ThreadState.in_callback i) = some i
called_back (ThreadState.posting i) = some i
called_back _ = none

abbrev pub below : ℕ → ℕ → ℕ
below i n = one_if (ltb i n)

-- `once`: each timer's data is registered or deleted, and never both or twice.
pub record Inv (s : LoopThread) : Type 0 where
  pub once : (i : ℕ) → count_by (is_timer i) s.handles + count i s.deleted ≡ below i s.allocated
  pub joining_closed : s.stopping ≡ true → count_by is_open s.handles ≡ 0
  pub joining_running : s.stopping ≡ true → s.running ≡ true
  pub stopped_no_thread : s.running ≡ false → s.thread ≡ ThreadState.no_thread
  pub running_thread : s.running ≡ true → s.thread ≢ ThreadState.no_thread
  pub stopped_empty : s.running ≡ false → s.handles ≡ []
  pub callback_registered :
      (i : ℕ) → called_back s.thread ≡ some i → count_by (is_timer i) s.handles ≡ 1
  pub finished_empty : s.thread ≡ ThreadState.finished → s.handles ≡ []
  pub join_wakes :
      (b : Bool) → s.stopping ≡ true → s.thread ≡ ThreadState.polling b → s.async_sent ≡ true
  pub open_async : s.running ≡ true → s.stopping ≡ false → count_by is_open_async s.handles ≡ 1

pub some_open :
    (hs : List Handle) → any_closing hs ≡ false → is_empty hs ≡ false → 0 < count_by is_open hs
unfolding any_closing count_by
some_open [] c f = absurd (cc f)
some_open (h ∷ hs) c f = ground arith

pub new-Inv : Inv new_loop_thread
unfolding new_loop_thread count_by count
new-Inv = ground arith

start-Inv : (s : LoopThread) → Inv s → Inv (start s)
unfolding start count_by
start-Inv s v = ground arith

post-Inv : (s : LoopThread) (r : ℕ) → s.stopping ≡ false → Inv s → Inv (post_timer_task true r s).1
unfolding post_timer_task count_by
post-Inv s r n v = ground (
  arith,
  v.once s.allocated,
  λ (i : ℕ). count_by-append (is_timer i) s.handles (timer s.allocated r),
  count_by-append is_open_async s.handles (timer s.allocated r),
)

begin_stop-Inv : (s : LoopThread) → s.stopping ≡ false → Inv s → Inv (begin_stop s)
unfolding begin_stop
begin_stop-Inv s n v = ground (
  arith,
  open-uv_close s.handles,
  λ (i : ℕ). count_by-uv_close (is_timer i) (λ h. refl) s.handles,
)

end_stop-Inv : (s : LoopThread) → s.thread ≡ ThreadState.finished → Inv s → Inv (end_stop s)
unfolding end_stop
end_stop-Inv s f v = ground arith

timer_called-Inv :
    (s : LoopThread) (i : ℕ)
    → 0 < count_by (is_open_timer i) s.handles
    → s.thread ≡ ThreadState.in_loop
    → Inv s
    → Inv (timer_called i s)
unfolding timer_called
timer_called-Inv s i o l v = ground (arith, open_timer-le i s.handles, v.once i)

timer_returned-Inv :
    (s : LoopThread) (i : ℕ)
    → s.thread ≡ ThreadState.in_callback i
    → Inv s
    → Inv (timer_returned i s)
unfolding timer_returned
timer_returned-Inv s i c v = ground (
  arith,
  open-close_timer i s.handles,
  λ (j : ℕ). count_by-close_timer (is_timer j) i (λ h e. refl) s.handles,
  count_by-close_timer is_open_async i (open_async-timer i) s.handles,
)

closes-Inv :
    (s : LoopThread) (before : List Handle) (h : Handle) (after : List Handle)
    → s.thread ≡ ThreadState.in_loop
    → s.handles ≡ before ++ (h ∷ after)
    → h.closing ≡ true
    → Inv s
    → Inv (record s { handles = before ++ after; deleted = destroy_uv_handle_data h s.deleted })
unfolding destroy_uv_handle_data count
closes-Inv s before h after l e c v = ground (
  arith,
  λ (i : ℕ). count_by-split (is_timer i) before h after,
  count_by-split is_open before h after,
  count_by-split is_open_async before h after,
)

callback_posted-Inv :
    (s : LoopThread) (i : ℕ)
    → s.thread ≡ ThreadState.posting i
    → Inv s
    → Inv (record s { thread = ThreadState.in_callback i })
callback_posted-Inv s i c v = ground arith

-- While Stop waits, the loop does not go to sleep again.
sleeps-Inv :
    (s : LoopThread) (b : Bool)
    → s.thread ≡ ThreadState.in_loop
    → any_closing s.handles ≡ false
    → is_empty s.handles ≡ false
    → Inv s
    → Inv (record s { thread = ThreadState.polling b })
sleeps-Inv s b l c f v = ground (arith, some_open s.handles c f)

-- uv_timer_start starts every timer: it refuses only a null callback and a closing handle.
unfoldable pub AllStart : Use → Type 0
AllStart u = (r : ℕ) → u.uv_timer_start r ≡ true

pub Step-Inv : {u : Use} {s t : LoopThread} → AllStart u → Step u s t → Inv s → Inv t
unfolding AllStart
Step-Inv {u} {s} all (starts a n e) v = rw e (start-Inv s v)
Step-Inv {u} {s} all (posts r a n p e) v = rw (e, all r) (post-Inv s r n v)
Step-Inv {u} {s} all (stop_begins a n e) v = rw e (begin_stop-Inv s n v)
Step-Inv {u} {s} all (stop_ends a n f e) v = rw e (end_stop-Inv s f v)
Step-Inv {u} {s} all (fires i a l o e) v = rw e (timer_called-Inv s i o l v)
Step-Inv {u} {s} all (returns i a c e) v = rw e (timer_returned-Inv s i c v)
Step-Inv {u} {s} all (callback_posts i a c p e) v = ground arith
Step-Inv {u} {s} all (callback_posted i r a n c p e) v =
    rw (e, all r)
      (post-Inv (record s { thread = ThreadState.in_callback i }) r n (callback_posted-Inv s i c v))
Step-Inv {u} {s} all (closes before h after a l q c e) v =
    rw e (closes-Inv s before h after l q c v)
Step-Inv {u} {s} all (sleeps a l c f e) v = rw e (sleeps-Inv s _ l c f v)
Step-Inv {u} {s} all (wakes b a l w e) v = ground arith
Step-Inv {u} {s} all (times_out a l e) v = ground arith
Step-Inv {u} {s} all (loop_ends a l q e) v = ground arith

pub Reach-Inv : {u : Use} {s t : LoopThread} → AllStart u → Inv s → Reach u s t → Inv t
Reach-Inv all v begin = v
Reach-Inv all v (then r st) = Step-Inv all st (Reach-Inv all v r)

-- Where uv_timer_start succeeds, up to the first failed assertion: no timer's data is deleted twice, the
-- data of a timer in its callback is not deleted, and once the thread is stopped, that of every timer is.
pub deleted_once :
    {u : Use} {s : LoopThread}
    → AllStart u
    → Reach u new_loop_thread s
    → (i : ℕ)
    → (count i s.deleted ≤ 1)
      × (called_back s.thread ≡ some i → count i s.deleted ≡ 0)
      × (s.running ≡ false → i < s.allocated → count i s.deleted ≡ 1)
unfolding count_by
deleted_once {s} all r i =
    let v = Reach-Inv all new-Inv r in
    ground (arith, v.once i, v.callback_registered i, v.stopped_empty)
