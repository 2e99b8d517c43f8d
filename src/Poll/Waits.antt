-- ===== src/Poll/Waits.antt =====
-- Calls of WasiPollOneOff that do not reach poll.
use wamr_ext.Prelude.{
  All, List, [], ap, arith, false, inl, inr, none, refl, some, true, ℕ, ◌∷◌, ◌≡◌,
}
use wamr_ext.Errno.{einval}
use wamr_ext.Poll.{PollHost, Subscription, prepare, start, wasi_poll_one_off, sleep_only}
use wamr_ext.Poll.Timeout.{timeout_of, any_polled, In, prepare_least}
use wamr_ext.Exec.{raise}

abbrev pub NoClock : {W : Type 0} → PollHost W → List Subscription → Type 0
NoClock h subs = All (λ (s : Subscription). timeout_of h s.kind ≡ none) subs

NoClock-In :
    {W : Type 0} (h : PollHost W) (subs : List Subscription) (s : Subscription) (t : ℕ)
    → NoClock h subs
    → In s subs
    → ¬ (timeout_of h s.kind ≡ some t)
NoClock-In h [] s t n i e = i
NoClock-In h (x ∷ subs) s t n (inl q) e =
    let same : timeout_of h s.kind ≡ timeout_of h x.kind =
      ap (λ (y : Subscription). timeout_of h y.kind) q in
    cc (same, n.0, e)
NoClock-In h (x ∷ subs) s t n (inr i) e = NoClock-In h subs s t n.1 i e

-- A defect: where every subscription is for a descriptor that is not open or may not be polled, the call
-- returns EINVAL and writes no event, while beside another descriptor each such one is answered with an
-- event of EBADF.
pub bad_fds_einval :
    {W : Type 0} (h : PollHost W) (s : Subscription) (subs : List Subscription) (w : W)
    → NoClock h (s ∷ subs)
    → any_polled h (s ∷ subs) ≡ false
    → wasi_poll_one_off h true (s ∷ subs) w ≡ (raise einval, w)
unfolding wasi_poll_one_off sleep_only
bad_fds_einval h s subs w n a =
    let (lows, holds, sleeping) = prepare_least h (s ∷ subs) in
    let only : (prepare h (s ∷ subs) start).1.sleep_only ≡ true = ground (arith, a) in
    elim holds [
      | inl (e, m) ↦ rw (only, wasi_poll_one_off, e, sleep_only) refl
      | inr (x, e, i, t) ↦ absurd (NoClock-In h (s ∷ subs) x _ n i t)
    ]
