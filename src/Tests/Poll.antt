-- ===== src/Tests/Poll.antt =====
-- Polling (Poll and its children) on a host with one descriptor, 3, where the time is 100.
use wamr_ext.Prelude.{
  All, List, [], false, if◌then◌else◌, none, not, refl, some, true, ◌==◌, ◌∷◌, ◌≡◌, ◌≤◌, ◌⊎◌,
  length,
}
use wamr_ext.Errno.{ebadf, success}
use wamr_ext.Tests.Errno.{test_errnos}
use wamr_ext.Exec.{done, returns}
use wamr_ext.Poll.{
  Event, PollHost, Subscription, clock, fd_read, fd_write, prepare, start, uint64_max,
  wasi_poll_one_off, ev_fd_read, event_type,
}
use wamr_ext.Poll.Timeout.{AtMost, In, any_polled, prepare_least, timeout_of}
use wamr_ext.Poll.Events.{Matches, poll_events-Matches}

abbrev poll_host : PollHost (Unit {0})
poll_host = record {
  errnos = test_errnos;
  clock_time_get = λ id precision. some 100;
  poll_fd = λ fd. if fd == 3 then some 3 else none;
  poll = λ fds timeout w. (
    returns (
      1,
      (record { nval = false; norm = false; hup = false })
          ∷ (record { nval = false; norm = true; hup = true })
          ∷ (record { nval = false; norm = false; hup = false })
          ∷ [],
    ),
    w,
  );
  sleep_for = λ n w. w;
}

abbrev until_150 : Subscription
until_150 = record { userdata = 1; kind = clock true 0 150 0 }

abbrev readable : Subscription
readable = record { userdata = 2; kind = fd_read 3 }

abbrev not_open : Subscription
not_open = record { userdata = 3; kind = fd_write 9 }

abbrev subs : List Subscription
subs = until_150 ∷ readable ∷ not_open ∷ []

prepare_least_example :
    let q = (prepare poll_host subs start).1 in
    All (λ (s : Subscription). AtMost q.timeout_nano_sec (timeout_of poll_host s.kind)) subs
    × (((q.timeout_sub ≡ none) × (q.timeout_nano_sec ≡ uint64_max))
        ⊎ ((s : Subscription) × (q.timeout_sub ≡ some s)
            × In s subs
            × (timeout_of poll_host s.kind ≡ some q.timeout_nano_sec)))
    × (q.sleep_only ≡ not (any_polled poll_host subs))
prepare_least_example = prepare_least poll_host subs

abbrev events : List Event
events =
    (record { error = success; userdata = 2; type = ev_fd_read; hangup = true })
    ∷ (record { error = ebadf; userdata = 3; type = event_type not_open.kind; hangup = false })
    ∷ []

polls : (wasi_poll_one_off poll_host true subs tt).0 ≡ done events
unfolding wasi_poll_one_off event_type
polls = refl

poll_events-Matches_example : Matches events subs × (length events ≤ length subs)
poll_events-Matches_example = poll_events-Matches poll_host true subs tt events polls
