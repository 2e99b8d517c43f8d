-- ===== src/Poll/Events.antt =====
-- The events that WasiPollOneOff writes to the app's array, which has one place for each subscription.
use wamr_ext.Errno.{Errno, ebadf, epipe, success}
use wamr_ext.Prelude.{
  List, [], ap, arith, inl, inr, length, refl, ◌∷◌, ◌≡◌, ◌≤◌, ◌⊎◌, Bool, Bool-cases, false, is_some,
  not, true, ◌||◌, ℕ, ◌==◌,
}
use wamr_ext.Poll.{
  poll_timeout, timeout_events, Event, PollFd, PollHost, Revents, SubKind, Subscription, fd_read,
  fd_write, prepare, start, collect, event_of, fd_event, event_type, timeout_event,
  wasi_poll_one_off, answered, sleep_only, timeout_events,
}
use wamr_ext.Poll.Timeout.{In, prepare_least}
use wamr_ext.Exec.{Result, CRet, done, checked, continue, fails, pure, raise, returns}

-- The events are, in their order, for some of the subscriptions, each for one of its own.
abbrev pub Matches : List Event → List Subscription → Type 0
Matches [] subs = Unit {0}
Matches (e ∷ es) [] = ⊥
Matches (e ∷ es) (s ∷ subs) =
    ((e.userdata ≡ s.userdata) × (e.type ≡ event_type s.kind) × Matches es subs)
    ⊎ Matches (e ∷ es) subs

Matches-skip :
    (es : List Event) (s : Subscription) (subs : List Subscription)
    → Matches es subs
    → Matches es (s ∷ subs)
Matches-skip [] s subs m = tt
Matches-skip (e ∷ es) s subs m = inr m

pub length-Matches :
    (es : List Event) (subs : List Subscription) → Matches es subs → length es ≤ length subs
length-Matches [] subs m = omega arith
length-Matches (e ∷ es) [] m = absurd m
length-Matches (e ∷ es) (s ∷ subs) (inl (a, b, m)) = omega (arith, length-Matches es subs m)
length-Matches (e ∷ es) (s ∷ subs) (inr m) = omega (arith, length-Matches (e ∷ es) subs m)

abbrev event_for : Subscription → Errno → Bool → Event
event_for s e hangup = record {
  error = e;
  userdata = s.userdata;
  type = event_type s.kind;
  hangup = hangup;
}

-- One subscription gives no event or one of its own.
abbrev OneOrNone : Subscription → List Event → Type 0
OneOrNone s es =
    (es ≡ [])
    ⊎ ((e : Event) × (es ≡ e ∷ []) × (e.userdata ≡ s.userdata) × (e.type ≡ event_type s.kind))

fd_event_cases : (s : Subscription) (fd : PollFd) (r : Revents) → OneOrNone s (fd_event s fd r)
unfolding fd_event
fd_event_cases s fd r = elim (Bool-cases (not (is_some fd) || r.nval)) [
  | inl bad ↦ rw (bad, fd_event) (inr (event_for s ebadf false, refl, refl, refl))
  | inr good ↦ elim (Bool-cases r.norm) [
    | inl ready ↦ rw (good, ready, fd_event) (inr (event_for s success r.hup, refl, refl, refl))
    | inr idle ↦ elim (Bool-cases r.hup) [
      | inl hung ↦ rw (good, idle, hung, fd_event) (inr (event_for s epipe true, refl, refl, refl))
      | inr open_still ↦ rw (good, idle, open_still, fd_event) (inl refl)
    ]
  ]
]

event_of_cases :
    (s : Subscription) (k : SubKind) (fd : PollFd) (r : Revents) → OneOrNone s (event_of s k fd r)
unfolding event_of
event_of_cases s (fd_read a) fd r = fd_event_cases s fd r
event_of_cases s (fd_write a) fd r = fd_event_cases s fd r
event_of_cases s _ fd r = inl refl

collect-Matches :
    (subs : List Subscription) (fds : List PollFd) (rs : List Revents)
    → Matches (collect subs fds rs) subs
unfolding collect
collect-Matches [] fds rs = tt
collect-Matches (s ∷ subs) [] rs = tt
collect-Matches (s ∷ subs) (fd ∷ fds) [] = tt
collect-Matches (s ∷ subs) (fd ∷ fds) (r ∷ rs) = elim (event_of_cases s s.kind fd r) [
  | inl none_here ↦
      rw none_here (Matches-skip (collect subs fds rs) s subs (collect-Matches subs fds rs))
  | inr (e, is, u, t) ↦ rw is (inl (u, t, collect-Matches subs fds rs))
]

timeout_event-Matches :
    (s : Subscription) (subs : List Subscription) → In s subs → Matches (timeout_event s ∷ []) subs
unfolding timeout_event
timeout_event-Matches s [] i = absurd i
timeout_event-Matches s (x ∷ subs) (inl e) =
    inl (ap Subscription.userdata e, ap (λ (y : Subscription). event_type y.kind) e, tt)
timeout_event-Matches s (x ∷ subs) (inr i) = inr (timeout_event-Matches s subs i)

timeout_events-Matches :
    {W : Type 0} (h : PollHost W) (subs : List Subscription)
    → Matches (timeout_events (prepare h subs start).1.timeout_sub) subs
timeout_events-Matches h subs = elim (prepare_least h subs).1 [
  | inl (e, m) ↦ rw e tt
  | inr (s, e, i, t) ↦ rw e (timeout_event-Matches s subs i)
]

-- What is to hold of a result.
abbrev Posts : List Subscription → Result (List Event) → Type 0
Posts subs (done es) = Matches es subs
Posts subs (raise e) = Unit {0}

answered-Matches :
    {W : Type 0} (h : PollHost W) (subs : List Subscription) (fds : List PollFd)
    (a : ℕ × List Revents)
    → Matches (answered h subs fds (prepare h subs start).1 a) subs
unfolding answered
answered-Matches h subs fds a = elim (Bool-cases (a.0 == 0)) [
  | inl late ↦ rw (late, answered) (timeout_events-Matches h subs)
  | inr some_ready ↦ rw (some_ready, answered) (collect-Matches subs fds a.1)
]

polled-Posts :
    {W : Type 0} (h : PollHost W) (subs : List Subscription) (fds : List PollFd)
    (c : CRet (ℕ × List Revents)) (w : W)
    → Posts subs
        (continue {W = W}
          (checked h.errnos c)
          (λ a. pure (answered h subs fds (prepare h subs start).1 a))
          w).0
polled-Posts h subs fds (returns a) w = answered-Matches h subs fds a
polled-Posts h subs fds (fails n) w = tt

slept-Posts :
    {W : Type 0} (h : PollHost W) (subs : List Subscription) (w : W)
    → Posts subs (sleep_only h (prepare h subs start).1 w).0
unfolding sleep_only
slept-Posts h subs w = elim (prepare_least h subs).1 [
  | inl (e, m) ↦ rw (e, sleep_only) tt
  | inr (s, e, i, t) ↦ rw (e, sleep_only) (timeout_event-Matches s subs i)
]

poll-Posts :
    {W : Type 0} (h : PollHost W) (valid : Bool) (subs : List Subscription) (w : W)
    → Posts subs (wasi_poll_one_off h valid subs w).0
unfolding wasi_poll_one_off
poll-Posts h false subs w = tt
poll-Posts h true [] w = tt
poll-Posts h true (s ∷ subs) w =
    let q = prepare h (s ∷ subs) start in
    let ran = h.poll q.0 (poll_timeout q.1.timeout_nano_sec) w in
    elim (Bool-cases q.1.sleep_only) [
      | inl only ↦ rw (only, wasi_poll_one_off) (slept-Posts h (s ∷ subs) w)
      | inr fds ↦ rw (fds, wasi_poll_one_off) (polled-Posts h (s ∷ subs) q.0 ran.0 ran.1)
    ]

Posts-done :
    (subs : List Subscription) (r : Result (List Event)) (es : List Event)
    → r ≡ done es
    → Posts subs r
    → Matches es subs
Posts-done subs r es e p = rw e at p

-- Whatever the clock, the table and poll answer, a call that returns 0 writes events for some of the
-- subscriptions, in their order, each with that one's userdata and type, and so no more than the array has
-- room for.
pub poll_events-Matches :
    {W : Type 0} (h : PollHost W) (valid : Bool) (subs : List Subscription) (w : W)
    (es : List Event)
    → (wasi_poll_one_off h valid subs w).0 ≡ done es
    → Matches es subs × (length es ≤ length subs)
poll_events-Matches h valid subs w es e =
    let m = Posts-done subs (wasi_poll_one_off h valid subs w).0 es e (poll-Posts h valid subs w) in
    (m, length-Matches es subs m)
