-- ===== src/Poll.antt =====
-- WasiPollOneOff (src/wamr_ext_lib/WasiSocketExt.cpp), which replaces the runtime's poll_oneoff. The
-- clock, uvwasi's descriptor table, poll and sleeping are the parameter `PollHost`.
pub mod Timeout
pub mod Events
pub mod Waits
use wamr_ext.Prelude.{
  Bool, List, Option, [], false, if◌then◌else◌, is_empty, is_some, ltb, none, not, some, true, ℕ,
  ◌++◌, ◌-◌, ◌/◌, ◌==◌, ◌^◌, ◌||◌, ◌∷◌,
}
use wamr_ext.Errno.{HostErrnos, Errno, ebadf, efault, einval, epipe, success}
use wamr_ext.Exec.{◌>>=◌, ◌>>◌, CRet, Exec, Result, done, pure, raise, require, sys}

-- uvwasi_eventtype_t
pub data EventType : Type 0 where
  ev_clock ev_fd_read ev_fd_write : EventType
  ev_other : ℕ → EventType

-- uvwasi_subscription_t, by its type; `abstime` is the flag of that name.
pub data SubKind : Type 0 where
  clock : (abstime : Bool) (clock_id timeout precision : ℕ) → SubKind
  fd_read fd_write : (app_fd : ℕ) → SubKind
  other_kind : ℕ → SubKind

pub record Subscription : Type 0 where
  pub userdata : ℕ
  pub kind : SubKind

-- uvwasi_event_t; `hangup` is the flag in u.fd_readwrite.
pub record Event : Type 0 where
  pub error : Errno
  pub userdata : ℕ
  pub type : EventType
  pub hangup : Bool

-- An entry of pollArr: `none` where fd is INVALID_SOCKET, else the host's descriptor and whether it is
-- polled for writing.
abbrev pub PollFd : Type 0
PollFd = Option (ℕ × Bool)

-- What poll sets in revents: POLLNVAL, POLLRDNORM | POLLWRNORM, and POLLHUP.
pub record Revents : Type 0 where
  pub nval : Bool
  pub norm : Bool
  pub hup : Bool

-- `poll` returns its number and the revents, `poll_fd` is the host's descriptor of an app's that may be
-- polled.
pub record PollHost (W : Type 0) : Type 0 where
  pub errnos : HostErrnos
  pub clock_time_get : ℕ → ℕ → Option ℕ
  pub poll_fd : ℕ → Option ℕ
  pub poll : List PollFd → ℕ → W → CRet (ℕ × List Revents) × W
  pub sleep_for : ℕ → W → W

unfoldable pub event_type : SubKind → EventType
event_type (clock a c t p) = ev_clock
event_type (fd_read fd) = ev_fd_read
event_type (fd_write fd) = ev_fd_write
event_type (other_kind n) = ev_other n

abbrev pub uint64_max : ℕ
uint64_max = 2 ^ 64 - 1

abbrev pub int_max : ℕ
int_max = 2 ^ 31 - 1

-- The variables of the first loop: timeoutNanoSec, pTimeoutSub, bSleepOnly.
pub record Pending : Type 0 where
  pub timeout_nano_sec : ℕ
  pub timeout_sub : Option Subscription
  pub sleep_only : Bool

abbrev pub start : Pending
start = record { timeout_nano_sec = uint64_max; timeout_sub = none; sleep_only = true }

-- tempTimeout of a clock, from the current time.
unfoldable pub temp_timeout : Bool → ℕ → Option ℕ → ℕ
temp_timeout false timeout cur = timeout
temp_timeout true timeout none = uint64_max
temp_timeout true timeout (some cur) = if ltb cur timeout then timeout - cur else 0

unfoldable pub take_clock : Subscription → ℕ → Pending → Pending
take_clock s t p =
    if ltb t p.timeout_nano_sec then record p { timeout_nano_sec = t; timeout_sub = some s } else p

abbrev pub with_fd : Bool → Option ℕ → Pending → PollFd × Pending
with_fd write none p = (none, p)
with_fd write (some fd) p = (some (fd, write), record p { sleep_only = false })

module _ {W : Type 0} (h : PollHost W) where
  -- One round of the first loop: the entry of pollArr, and the variables.
  unfoldable pub prepare_one : Subscription → SubKind → Pending → PollFd × Pending
  unfolding temp_timeout take_clock
  prepare_one s (clock abstime id timeout precision) p =
      (none, take_clock s (temp_timeout abstime timeout (h.clock_time_get id precision)) p)
  prepare_one s (fd_read fd) p = with_fd false (h.poll_fd fd) p
  prepare_one s (fd_write fd) p = with_fd true (h.poll_fd fd) p
  prepare_one s (other_kind n) p = (none, p)

  unfoldable pub prepare : List Subscription → Pending → List PollFd × Pending
  unfolding prepare_one
  prepare [] p = ([], p)
  prepare (s ∷ subs) p =
      let (fd, p') = prepare_one s s.kind p in let (fds, p'') = prepare subs p' in (fd ∷ fds, p'')

unfoldable pub timeout_event : Subscription → Event
unfolding event_type
timeout_event s = record {
  error = success;
  userdata = s.userdata;
  type = event_type s.kind;
  hangup = false;
}

abbrev pub timeout_events : Option Subscription → List Event
timeout_events none = []
timeout_events (some s) = timeout_event s ∷ []

-- The tests of the last loop, for a descriptor's subscription.
unfoldable pub fd_event : Subscription → PollFd → Revents → List Event
unfolding event_type
fd_event s fd r =
    let event = λ (e : Errno) (hangup : Bool).
      let ev : Event = record {
        error = e;
        userdata = s.userdata;
        type = event_type s.kind;
        hangup = hangup;
      } in
      ev ∷ [] in
    if not (is_some fd) || r.nval
    then event ebadf false
    else if r.norm
    then event success r.hup
    else if r.hup
    then event epipe true
    else []

unfoldable pub event_of : Subscription → SubKind → PollFd → Revents → List Event
unfolding fd_event
event_of s (fd_read app_fd) fd r = fd_event s fd r
event_of s (fd_write app_fd) fd r = fd_event s fd r
event_of s _ fd r = []

-- The last loop; poll gives as many revents as it was given entries.
unfoldable pub collect : List Subscription → List PollFd → List Revents → List Event
unfolding event_of
collect (s ∷ subs) (fd ∷ fds) (r ∷ rs) = event_of s s.kind fd r ++ collect subs fds rs
collect _ _ _ = []

-- std::min<uint64_t>(timeoutNanoSec / 1000 / 1000, INT_MAX)
unfoldable pub poll_timeout : ℕ → ℕ
poll_timeout nano = let milli = nano / 1000 / 1000 in if ltb int_max milli then int_max else milli

module _ {W : Type 0} (h : PollHost W) where
  -- Only clocks, or no descriptor that can be polled.
  unfoldable pub sleep_only : Pending → Exec W (List Event)
  sleep_only p w = elim p.timeout_sub [
    | none ↦ (raise einval, w)
    | some s ↦ (
      done (timeout_event s ∷ []),
      if ltb 0 p.timeout_nano_sec then h.sleep_for p.timeout_nano_sec w else w,
    )
  ]

  unfoldable pub answered :
      List Subscription → List PollFd → Pending → ℕ × List Revents → List Event
  unfolding collect
  answered subs fds p a = if a.0 == 0 then timeout_events p.timeout_sub else collect subs fds a.1

  -- The events are those written to the app, and *pAppNEvents is their number.
  unfoldable pub wasi_poll_one_off : (valid : Bool) → List Subscription → Exec W (List Event)
  unfolding prepare sleep_only answered poll_timeout
  wasi_poll_one_off valid subs = do
    require valid efault
    if is_empty subs
        then pure []
        else let (fds, p) = prepare h subs start in
          if p.sleep_only then sleep_only p else do
            a ← sys h.errnos (h.poll fds (poll_timeout p.timeout_nano_sec))
            pure (answered subs fds p a)
