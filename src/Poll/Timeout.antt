-- ===== src/Poll/Timeout.antt =====
-- What the first loop of WasiPollOneOff finds out: the earliest of the clocks, and whether there is a
-- descriptor to poll.
use wamr_ext.Prelude.{
  All, Bool, List, Option, [], arith, false, is_some, none, not, some, ℕ, ◌&&◌, ◌||◌, ◌∷◌, ◌≡◌, ◌≤◌,
  ◌⊎◌, ap, inl, inr, refl, sym, ◌∙◌,
}
use wamr_ext.Poll.{
  PollHost, Pending, SubKind, Subscription, clock, fd_read, fd_write, other_kind, prepare_one,
  temp_timeout, prepare, start, uint64_max,
}

-- How long a clock's subscription is to wait.
unfoldable pub timeout_of : {W : Type 0} → PollHost W → SubKind → Option ℕ
timeout_of h (clock abstime id timeout precision) =
    some (temp_timeout abstime timeout (h.clock_time_get id precision))
timeout_of h _ = none

-- The host's descriptor to poll.
unfoldable pub polled_fd : {W : Type 0} → PollHost W → SubKind → Option ℕ
polled_fd h (fd_read fd) = h.poll_fd fd
polled_fd h (fd_write fd) = h.poll_fd fd
polled_fd h _ = none

abbrev pub AtMost : ℕ → Option ℕ → Type 0
AtMost n none = Unit {0}
AtMost n (some t) = n ≤ t

abbrev pub In : Subscription → List Subscription → Type 0
In s [] = ⊥
In s (x ∷ xs) = (s ≡ x) ⊎ In s xs

unfoldable pub any_polled : {W : Type 0} → PollHost W → List Subscription → Bool
any_polled h [] = false
any_polled h (s ∷ subs) = is_some (polled_fd h s.kind) || any_polled h subs

-- The subscription that the loop keeps, from what it kept before.
abbrev pub Kept : {W : Type 0} → PollHost W → List Subscription → Pending → Pending → Type 0
Kept h subs p q =
    ((q.timeout_sub ≡ p.timeout_sub) × (q.timeout_nano_sec ≡ p.timeout_nano_sec))
    ⊎ ((s : Subscription) × (q.timeout_sub ≡ some s)
        × In s subs
        × (timeout_of h s.kind ≡ some q.timeout_nano_sec))

pub record Found {W : Type 0} (h : PollHost W) (subs : List Subscription) (p q : Pending)
    : Type 0 where
  pub below : q.timeout_nano_sec ≤ p.timeout_nano_sec
  pub least : All (λ (s : Subscription). AtMost q.timeout_nano_sec (timeout_of h s.kind)) subs
  pub kept : Kept h subs p q
  pub sleeps : q.sleep_only ≡ (p.sleep_only && not (any_polled h subs))

-- One round.
pub record FoundOne {W : Type 0} (h : PollHost W) (s : Subscription) (k : SubKind) (p q : Pending)
    : Type 0 where
  pub below : q.timeout_nano_sec ≤ p.timeout_nano_sec
  pub least : AtMost q.timeout_nano_sec (timeout_of h k)
  pub kept :
      ((q.timeout_sub ≡ p.timeout_sub) × (q.timeout_nano_sec ≡ p.timeout_nano_sec))
      ⊎ ((q.timeout_sub ≡ some s) × (timeout_of h k ≡ some q.timeout_nano_sec))
  pub sleeps : q.sleep_only ≡ (p.sleep_only && not (is_some (polled_fd h k)))

prepare_one-FoundOne :
    {W : Type 0} (h : PollHost W) (s : Subscription) (k : SubKind) (p : Pending)
    → FoundOne h s k p (prepare_one h s k p).1
unfolding prepare_one timeout_of polled_fd
prepare_one-FoundOne h s (clock a c t pr) p = ground arith
prepare_one-FoundOne h s (fd_read fd) p = ground arith
prepare_one-FoundOne h s (fd_write fd) p = ground arith
prepare_one-FoundOne h s (other_kind n) p = ground arith

AtMost-le : (m n : ℕ) (o : Option ℕ) → m ≤ n → AtMost n o → AtMost m o
AtMost-le m n none l a = tt
AtMost-le m n (some t) l a = omega arith

Kept-cons :
    {W : Type 0} (h : PollHost W) (s : Subscription) (subs : List Subscription) (p q r : Pending)
    → FoundOne h s s.kind p q
    → Kept h subs q r
    → Kept h (s ∷ subs) p r
Kept-cons h s subs p q r f (inr (x, e, i, t)) = inr (x, e, inr i, t)
Kept-cons h s subs p q r f (inl (a, b)) = elim f.kept [
  | inl (c, d) ↦ inl (a ∙ c, b ∙ d)
  | inr (c, d) ↦ inr (s, a ∙ c, inl refl, d ∙ ap some (sym b))
]

pub prepare-Found :
    {W : Type 0} (h : PollHost W) (subs : List Subscription) (p : Pending)
    → Found h subs p (prepare h subs p).1
unfolding prepare any_polled
prepare-Found h [] p = record {
  below = omega arith;
  least = tt;
  kept = inl (refl, refl);
  sleeps = ground arith;
}
prepare-Found h (s ∷ subs) p =
    let q = (prepare_one h s s.kind p).1 in
    let one = prepare_one-FoundOne h s s.kind p in
    let rest = prepare-Found h subs q in
    record {
      below = omega (arith, one.below, rest.below);
      least = (AtMost-le _ _ (timeout_of h s.kind) rest.below one.least, rest.least);
      kept = Kept-cons h s subs p q (prepare h subs q).1 one rest.kept;
      sleeps = ground (arith, one.sleeps, rest.sleeps);
    }

-- After the first loop over any subscriptions the timeout is the least of the clocks', and what is kept
-- is a clock of that timeout; without one that is below 2 ^ 64 - 1 nothing is kept. Only sleeping is left
-- exactly if no subscription is for a descriptor that can be polled.
pub prepare_least :
    {W : Type 0} (h : PollHost W) (subs : List Subscription)
    → let q = (prepare h subs start).1 in
      All (λ (s : Subscription). AtMost q.timeout_nano_sec (timeout_of h s.kind)) subs
      × (((q.timeout_sub ≡ none) × (q.timeout_nano_sec ≡ uint64_max))
          ⊎ ((s : Subscription) × (q.timeout_sub ≡ some s)
              × In s subs
              × (timeout_of h s.kind ≡ some q.timeout_nano_sec)))
      × (q.sleep_only ≡ not (any_polled h subs))
prepare_least h subs = let f = prepare-Found h subs start in (f.least, f.kept, f.sleeps)
