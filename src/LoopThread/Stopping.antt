-- ===== src/LoopThread/Stopping.antt =====
-- Stop: once it has closed the handles and waits in join, the loop runs out of work and it returns.
use wamr_ext.Prelude.{
  ℕ, true, false, List, [], ◌∷◌, ◌++◌, ◌≡◌, ◌<◌, arith, inl, inr, length, refl, suc, ◌+◌, ◌⊎◌,
}
use wamr_ext.Prelude.Runs.{Inevitably, inevitable}
use wamr_ext.LoopThread.{
  LoopThread, ThreadState, Handle, close_timer, end_stop, timer_returned, new_loop_thread,
}
use wamr_ext.LoopThread.Handles.{count_by, count, is_open, open_timer-open}
use wamr_ext.LoopThread.Once.{Inv, Reach-Inv, Step-Inv, new-Inv, some_open}
use wamr_ext.LoopThread.Repeating.{
  new-Calm, Step-Calm, Reach-Calm, Calm, Repeats, Step-Calm, Reach-Calm,
}
use wamr_ext.LoopThread.Steps.{
  Step, Use, Reach, starts, posts, stop_begins, stop_ends, fires, returns, callback_posts,
  callback_posted, closes, sleeps, wakes, times_out, loop_ends,
}

abbrev rank : ThreadState → ℕ
rank ThreadState.no_thread = 0
rank ThreadState.finished = 1
rank ThreadState.in_loop = 2
rank (ThreadState.polling b) = 3
rank (ThreadState.in_callback i) = 4
rank (ThreadState.posting i) = 3

-- What is left to do while Stop waits.
abbrev work : LoopThread → ℕ
work s = length s.handles + rank s.thread

closing_of_none_open :
    (h : Handle) (hs : List Handle) → count_by is_open (h ∷ hs) ≡ 0 → h.closing ≡ true
unfolding count_by
closing_of_none_open h hs e = ground arith

next_in_loop :
    {u : Use} (s : LoopThread)
    → Inv s
    → s.aborted ≡ false
    → s.stopping ≡ true
    → s.thread ≡ ThreadState.in_loop
    → (hs : List Handle) → s.handles ≡ hs
    → (t : LoopThread) × Step u s t
next_in_loop s v a j l [] e = (record s { thread = ThreadState.finished }, loop_ends a l e refl)
next_in_loop s v a j l (h ∷ hs) e =
    (_, closes [] h hs a l e (closing_of_none_open h hs (rw (← e) (v.joining_closed j))) refl)

-- A step can be taken.
can_go_on :
    {u : Use} (s : LoopThread)
    → Inv s
    → Calm s
    → s.stopping ≡ true
    → (th : ThreadState) → s.thread ≡ th
    → (t : LoopThread) × Step u s t
can_go_on s v c j ThreadState.no_thread e = absurd (v.running_thread (v.joining_running j) e)
can_go_on s v c j ThreadState.in_loop e = next_in_loop s v c.whole j e s.handles refl
can_go_on s v c j ThreadState.finished e = (end_stop s, stop_ends c.whole j e refl)
can_go_on s v c j (ThreadState.polling b) e = (_, wakes b c.whole e (v.join_wakes b j e) refl)
can_go_on s v c j (ThreadState.in_callback i) e = (timer_returned i s, returns i c.whole e refl)
can_go_on s v c j (ThreadState.posting i) e = absurd (c.no_posting i e)

length-split :
    (before : List Handle) (h : Handle) (after : List Handle)
    → length (before ++ (h ∷ after)) ≡ suc (length (before ++ after))
length-split [] h after = refl
length-split (j ∷ before) h after = omega (arith, length-split before h after)

length-close_timer : (i : ℕ) (hs : List Handle) → length (close_timer i hs) ≡ length hs
unfolding close_timer
length-close_timer i [] = refl
length-close_timer i (h ∷ hs) = ground (arith, length-close_timer i hs)

abbrev Nearer : LoopThread → LoopThread → Type 0
Nearer s t =
    ((t.stopping ≡ false) × (t.running ≡ false)) ⊎ ((t.stopping ≡ true) × (work t < work s))

timer_returned-Nearer :
    (s : LoopThread) (i : ℕ)
    → s.stopping ≡ true
    → s.thread ≡ ThreadState.in_callback i
    → Nearer s (timer_returned i s)
unfolding timer_returned
timer_returned-Nearer s i j e = ground (arith, length-close_timer i s.handles)

-- Every step leaves less to do, or is the end of Stop.
Step-Nearer :
    {u : Use} {s t : LoopThread} → Repeats u → Inv s → s.stopping ≡ true → Step u s t → Nearer s t
unfolding end_stop
Step-Nearer p v j (starts a n e) = absurd (ground arith)
Step-Nearer p v j (posts r a n q e) = absurd (ground arith)
Step-Nearer p v j (stop_begins a n e) = absurd (ground arith)
Step-Nearer p v j (stop_ends a n f e) = ground arith
Step-Nearer {s = s} p v j (fires i a l o e) =
    absurd (omega (arith, open_timer-open i s.handles, v.joining_closed j))
Step-Nearer {s = s} p v j (returns i a q e) = rw e (timer_returned-Nearer s i j q)
Step-Nearer p v j (callback_posts i a q b e) = absurd (ground (arith, p.none_posts))
Step-Nearer p v j (callback_posted i r a n q b e) = absurd (ground arith)
Step-Nearer p v j (closes before h after a l q b e) = ground (arith, length-split before h after)
Step-Nearer {s = s} p v j (sleeps a l c f e) =
    absurd (omega (arith, some_open s.handles c f, v.joining_closed j))
Step-Nearer p v j (wakes b a l w e) = ground arith
Step-Nearer p v j (times_out a l e) = ground arith
Step-Nearer p v j (loop_ends a l q e) = ground arith

-- Stop has returned: the thread is gone, no assertion failed, and all timers' data is deleted.
pub record IsStopped (s : LoopThread) : Type 0 where
  pub not_running : s.running ≡ false
  pub not_stopping : s.stopping ≡ false
  pub no_abort : s.aborted ≡ false
  pub no_handles : s.handles ≡ []
  pub all_deleted : (i : ℕ) → i < s.allocated → count i s.deleted ≡ 1

rest-IsStopped :
    (s : LoopThread) → Inv s → Calm s → s.stopping ≡ false → s.running ≡ false → IsStopped s
unfolding count_by
rest-IsStopped s v c n r = ground (arith, v.stopped_empty r)

-- Stop waits in join.
record Joins (s : LoopThread) : Type 0 where
  inv : Inv s
  calm : Calm s
  joining : s.stopping ≡ true

ahead :
    {u : Use} {s t : LoopThread}
    → Repeats u
    → Joins s
    → Step u s t
    → IsStopped t ⊎ (Joins t × (work t < work s))
ahead {t = t} p j st =
    let v = Step-Inv p.all_start st j.inv in
    let c = Step-Calm p st j.inv j.calm in
    elim (Step-Nearer p j.inv j.joining st) [
      | inl (n, r) ↦ inl (rest-IsStopped t v c n r)
      | inr (still, less) ↦ inr (record { inv = v; calm = c; joining = still }, less)
    ]

-- Where all tasks repeat, no callback posts one and uv_timer_start succeeds: whatever the threads do, and
-- also where the loop sleeps in its poll without a timeout, a Stop that waits in join returns, with no
-- assertion failed and each timer's data deleted once.
pub stop_returns :
    {u : Use} {s : LoopThread}
    → Repeats u
    → Reach u new_loop_thread s
    → s.stopping ≡ true
    → Inevitably (Step u) IsStopped s
stop_returns {u} {s} p r j =
    inevitable (Step u) IsStopped Joins work
      (λ t q. can_go_on t q.inv q.calm q.joining t.thread refl) (λ t v q st. ahead p q st) s
      (record {
        inv = Reach-Inv p.all_start new-Inv r;
        calm = Reach-Calm p new-Inv new-Calm r;
        joining = j;
      })
