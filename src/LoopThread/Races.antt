-- ===== src/LoopThread/Races.antt =====
-- What goes wrong where tasks run once or post tasks: the two ways in which a Stop meets a callback.
use wamr_ext.Prelude.{
  ℕ, true, false, List, [], ◌∷◌, ◌≡◌, Bool-cases, arith, inl, inr, map, refl, some, ◌∙◌,
}
use wamr_ext.LoopThread.{
  LoopThread, ThreadState, Handle, any_closing, begin_stop, find_timer, new_loop_thread,
  timer_returned, uv_close,
}
use wamr_ext.LoopThread.Once.{AllStart, Reach-Inv, new-Inv}
use wamr_ext.LoopThread.Steps.{
  Step, Use, Reach, begin, then, starts, posts, stop_begins, stop_ends, fires, returns,
  callback_posts, callback_posted, closes, sleeps, wakes, times_out, loop_ends,
}

find_timer-uv_close :
    (i : ℕ) (hs : List Handle) (h : Handle)
    → find_timer i hs ≡ some h
    → find_timer i (map uv_close hs) ≡ some (uv_close h)
unfolding find_timer
find_timer-uv_close i [] h e = absurd (ground arith)
find_timer-uv_close i (j ∷ hs) h e = ground (arith, find_timer-uv_close i hs h)

stop_then_return :
    (s : LoopThread) (i : ℕ) (h : Handle)
    → s.running ≡ true
    → find_timer i s.handles ≡ some h
    → h.repeat ≡ 0
    → (timer_returned i (begin_stop s)).aborted ≡ true
unfolding begin_stop timer_returned
stop_then_return s i h r e z = ground (arith, find_timer-uv_close i s.handles h e)

begin_stop_thread : (s : LoopThread) → (begin_stop s).thread ≡ s.thread
unfolding begin_stop
begin_stop_thread s = ground arith

-- A defect: in any reachable state in which the callback of a task that runs once is running, a Stop
-- by another thread leads to an abort: Stop closes the timer that is being called, and its callback
-- closes it again when the task returns.
pub stop_beside_one_shot_aborts :
    {u : Use} {s : LoopThread} (i : ℕ) (h : Handle)
    → AllStart u
    → Reach u new_loop_thread s
    → s.aborted ≡ false
    → s.stopping ≡ false
    → s.thread ≡ ThreadState.in_callback i
    → find_timer i s.handles ≡ some h
    → h.repeat ≡ 0
    → (t : LoopThread) × Reach u s t × (t.aborted ≡ true)
stop_beside_one_shot_aborts {u} {s} i h all r a n c e z =
    let v = Reach-Inv all new-Inv r in
    let running : s.running ≡ true = ground (arith, v.stopped_no_thread) in
    let stop : Reach u s (begin_stop s) = then begin (stop_begins a n refl) in
    elim (Bool-cases (begin_stop s).aborted) [
      | inl twice ↦ (begin_stop s, stop, twice)
      | inr once ↦ (
        timer_returned i (begin_stop s),
        then stop (returns i once (begin_stop_thread s ∙ c) refl),
        stop_then_return s i h running e z,
      )
    ]

stuck :
    {u : Use} (s t : LoopThread) (i : ℕ)
    → s.stopping ≡ true
    → s.thread ≡ ThreadState.posting i
    → ¬ Step u s t
stuck s t i j c (starts a n e) = absurd (ground arith)
stuck s t i j c (posts r a n q e) = absurd (ground arith)
stuck s t i j c (stop_begins a n e) = absurd (ground arith)
stuck s t i j c (stop_ends a n f e) = absurd (ground arith)
stuck s t i j c (fires k a l o e) = absurd (ground arith)
stuck s t i j c (returns k a q e) = absurd (ground arith)
stuck s t i j c (callback_posts k a q b e) = absurd (ground arith)
stuck s t i j c (callback_posted k r a n q b e) = absurd (ground arith)
stuck s t i j c (closes before h after a l q b e) = absurd (ground arith)
stuck s t i j c (sleeps a l o f e) = absurd (ground arith)
stuck s t i j c (wakes b a l w e) = absurd (ground arith)
stuck s t i j c (times_out a l e) = absurd (ground arith)
stuck s t i j c (loop_ends a l q e) = absurd (ground arith)

stop_beside_posting :
    (s : LoopThread) (i : ℕ)
    → s.running ≡ true
    → any_closing s.handles ≡ false
    → s.thread ≡ ThreadState.posting i
    → ((begin_stop s).aborted ≡ false)
      × ((begin_stop s).stopping ≡ true)
      × ((begin_stop s).thread ≡ ThreadState.posting i)
unfolding begin_stop
stop_beside_posting s i r o c = ground arith

-- A defect: in any reachable state in which a callback waits for m_lock in PostTimerTask and no handle
-- is closing, a Stop leads to a deadlock: Stop holds m_lock and waits in join for the thread that
-- waits for m_lock, and no step can be taken.
pub stop_beside_posting_hangs :
    {u : Use} {s : LoopThread} (i : ℕ)
    → AllStart u
    → Reach u new_loop_thread s
    → s.aborted ≡ false
    → s.stopping ≡ false
    → s.thread ≡ ThreadState.posting i
    → any_closing s.handles ≡ false
    → (t : LoopThread) × Reach u s t
      × (t.aborted ≡ false)
      × (t.stopping ≡ true)
      × ((x : LoopThread) → ¬ Step u t x)
stop_beside_posting_hangs {u} {s} i all r a n c o =
    let v = Reach-Inv all new-Inv r in
    let running : s.running ≡ true = ground (arith, v.stopped_no_thread) in
    let (whole, joining, waits) = stop_beside_posting s i running o c in
    (
      begin_stop s,
      then begin (stop_begins a n refl),
      whole,
      joining,
      λ x. stuck (begin_stop s) x i joining waits,
    )
