-- ===== src/LoopThread/Repeating.antt =====
-- The loop thread as the API uses it: every task repeats, and no callback posts a task.
use wamr_ext.Prelude.{
  ℕ, true, false, List, ◌∷◌, ◌++◌, ◌≡◌, Option-cases, arith, inl, inr, refl, ◌==◌, ◌≢◌, some, ◌<◌,
  ◌≤◌,
}
use wamr_ext.LoopThread.{
  LoopThread, ThreadState, Handle, begin_stop, destroy_uv_handle_data, end_stop, find_timer,
  new_loop_thread, post_timer_task, start, timer_returned, timer_called,
}
use wamr_ext.LoopThread.Handles.{
  count_by, count_by-append, count_by-split, count_by-uv_close, find_timer-repeats, is_closing,
  count, is_one_shot, none_closing, timer,
}
use wamr_ext.LoopThread.Once.{Inv, AllStart, Reach-Inv, new-Inv, called_back, deleted_once}
use wamr_ext.LoopThread.Steps.{
  Step, Use, Reach, begin, then, starts, posts, stop_begins, stop_ends, fires, returns,
  callback_posts, callback_posted, closes, sleeps, wakes, times_out, loop_ends,
}

pub record Repeats (u : Use) : Type 0 where
  pub all_start : AllStart u
  pub none_once : u.posted 0 ≡ false
  pub none_posts : u.callbacks_post ≡ false

-- Nothing is closing before Stop, and nothing has failed.
pub record Calm (s : LoopThread) : Type 0 where
  pub whole : s.aborted ≡ false
  pub repeating : count_by is_one_shot s.handles ≡ 0
  pub all_open : s.stopping ≡ false → count_by is_closing s.handles ≡ 0
  pub no_posting : (i : ℕ) → s.thread ≢ ThreadState.posting i

pub new-Calm : Calm new_loop_thread
unfolding new_loop_thread count_by
new-Calm = ground arith

start-Calm : (s : LoopThread) → Calm s → Calm (start s)
unfolding start count_by
start-Calm s v = ground arith

post-Calm : (s : LoopThread) (r : ℕ) → (r == 0) ≡ false → Calm s → Calm (post_timer_task true r s).1
unfolding post_timer_task count_by
post-Calm s r n v = ground (
  arith,
  count_by-append is_one_shot s.handles (timer s.allocated r),
  count_by-append is_closing s.handles (timer s.allocated r),
)

begin_stop-Calm : (s : LoopThread) → s.stopping ≡ false → Calm s → Calm (begin_stop s)
unfolding begin_stop
begin_stop-Calm s n v =
    ground (arith, none_closing s.handles, count_by-uv_close is_one_shot (λ h. refl) s.handles)

end_stop-Calm :
    (s : LoopThread) → s.thread ≡ ThreadState.finished → Inv s → Calm s → Calm (end_stop s)
unfolding end_stop count_by
end_stop-Calm s f v c = ground arith

timer_returned-Calm : (s : LoopThread) (i : ℕ) → Calm s → Calm (timer_returned i s)
unfolding timer_returned
timer_returned-Calm s i v = elim (Option-cases (find_timer i s.handles)) [
  | inl e ↦ ground arith
  | inr (h, e) ↦ ground (arith, find_timer-repeats i s.handles h e v.repeating)
]

timer_called-Calm : (s : LoopThread) (i : ℕ) → Calm s → Calm (timer_called i s)
unfolding timer_called
timer_called-Calm s i c = ground arith

closes-Calm :
    (s : LoopThread) (before : List Handle) (h : Handle) (after : List Handle)
    → s.handles ≡ before ++ (h ∷ after)
    → h.closing ≡ true
    → Calm s
    → Calm (record s { handles = before ++ after; deleted = destroy_uv_handle_data h s.deleted })
closes-Calm s before h after e c v =
    ground
      (arith, count_by-split is_one_shot before h after, count_by-split is_closing before h after)

posted_not_once : {u : Use} (r : ℕ) → Repeats u → u.posted r ≡ true → (r == 0) ≡ false
posted_not_once r p e = ground (arith, p.none_once)

pub Step-Calm : {u : Use} {s t : LoopThread} → Repeats u → Step u s t → Inv s → Calm s → Calm t
unfolding AllStart
Step-Calm {u} {s} p (starts a n e) v c = rw e (start-Calm s c)
Step-Calm {u} {s} p (posts r a n q e) v c =
    rw (e, p.all_start r) (post-Calm s r (posted_not_once r p q) c)
Step-Calm {u} {s} p (stop_begins a n e) v c = rw e (begin_stop-Calm s n c)
Step-Calm {u} {s} p (stop_ends a n f e) v c = rw e (end_stop-Calm s f v c)
Step-Calm {u} {s} p (fires i a l o e) v c = rw e (timer_called-Calm s i c)
Step-Calm {u} {s} p (returns i a q e) v c = rw e (timer_returned-Calm s i c)
Step-Calm {u} {s} p (callback_posts i a q b e) v c = ground (arith, p.none_posts)
Step-Calm {u} {s} p (callback_posted i r a n q b e) v c = absurd (c.no_posting i q)
Step-Calm {u} {s} p (closes before h after a l q b e) v c =
    rw e (closes-Calm s before h after q b c)
Step-Calm {u} {s} p (sleeps a l o f e) v c = ground arith
Step-Calm {u} {s} p (wakes b a l w e) v c = ground arith
Step-Calm {u} {s} p (times_out a l e) v c = ground arith
Step-Calm {u} {s} p (loop_ends a l q e) v c = ground arith

pub Reach-Calm : {u : Use} {s t : LoopThread} → Repeats u → Inv s → Calm s → Reach u s t → Calm t
Reach-Calm p v c begin = c
Reach-Calm p v c (then r st) = Step-Calm p st (Reach-Inv p.all_start v r) (Reach-Calm p v c r)

-- Where all tasks repeat, no callback posts one and uv_timer_start succeeds, whoever calls Start, Stop and
-- PostTimerTask and whenever: no assertion ever fails, so that no handle is closed twice; no timer's data
-- is deleted twice, the data of a timer in its callback is not deleted, and once the thread is stopped, the
-- data of every timer is.
pub data_deleted_once :
    {u : Use} {s : LoopThread}
    → Repeats u
    → Reach u new_loop_thread s
    → (i : ℕ)
    → (s.aborted ≡ false)
      × (count i s.deleted ≤ 1)
      × (called_back s.thread ≡ some i → count i s.deleted ≡ 0)
      × (s.running ≡ false → i < s.allocated → count i s.deleted ≡ 1)
data_deleted_once p r i = (
  (Reach-Calm p new-Inv new-Calm r).whole,
  (deleted_once p.all_start r i).0,
  (deleted_once p.all_start r i).1,
  (deleted_once p.all_start r i).2,
)
