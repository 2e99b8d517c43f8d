-- ===== src/LoopThread/Handles.antt =====
-- Counts of handles, which the loop thread's invariants are stated on.
use wamr_ext.Prelude.{
  ℕ, Bool, true, false, not, ◌&&◌, List, [], ◌∷◌, ◌++◌, map, ◌+◌, ◌≡◌, ◌≤◌, arith, ◌==◌,
  if◌then◌else◌, refl, some,
}
use wamr_ext.LoopThread.{
  Handle, HandleType, uv_close, close_timer, is_timer, any_closing, find_timer,
}

abbrev pub one_if : Bool → ℕ
one_if b = if b then 1 else 0

-- How many handles pass a test.
unfoldable pub count_by : (Handle → Bool) → List Handle → ℕ
count_by f [] = 0
count_by f (h ∷ hs) = one_if (f h) + count_by f hs

-- How often an allocation stands in a list.
unfoldable pub count : ℕ → List ℕ → ℕ
count i [] = 0
count i (j ∷ js) = one_if (j == i) + count i js

abbrev pub is_open : Handle → Bool
is_open h = not h.closing

abbrev pub is_open_async : Handle → Bool
is_open_async h = elim h.kind [ HandleType.uv_async ↦ not h.closing | HandleType.uv_timer ↦ false ]

abbrev pub is_open_timer : ℕ → Handle → Bool
is_open_timer i h = is_timer i h && not h.closing

-- A task that is to run once.
abbrev pub is_one_shot : Handle → Bool
is_one_shot h = elim h.kind [ HandleType.uv_timer ↦ h.repeat == 0 | HandleType.uv_async ↦ false ]

pub count_by-append :
    (f : Handle → Bool) (hs js : List Handle)
    → count_by f (hs ++ js) ≡ count_by f hs + count_by f js
unfolding count_by
count_by-append f [] js = omega arith
count_by-append f (h ∷ hs) js = omega (arith, count_by-append f hs js)

pub count_by-uv_close :
    (f : Handle → Bool)
    → ((h : Handle) → f (uv_close h) ≡ f h)
    → (hs : List Handle) → count_by f (map uv_close hs) ≡ count_by f hs
unfolding count_by
count_by-uv_close f e [] = refl
count_by-uv_close f e (h ∷ hs) = rw (e h, count_by-uv_close f e hs) refl

pub open-uv_close : (hs : List Handle) → count_by is_open (map uv_close hs) ≡ 0
unfolding count_by
open-uv_close [] = refl
open-uv_close (h ∷ hs) = omega (arith, open-uv_close hs)

pub count_by-close_timer :
    (f : Handle → Bool)
    → (i : ℕ) → ((h : Handle) → is_timer i h ≡ true → f (uv_close h) ≡ f h)
    → (hs : List Handle) → count_by f (close_timer i hs) ≡ count_by f hs
unfolding count_by close_timer
count_by-close_timer f i e [] = refl
count_by-close_timer f i e (h ∷ hs) = ground (arith, e h, count_by-close_timer f i e hs)

pub open-close_timer :
    (i : ℕ) (hs : List Handle) → count_by is_open (close_timer i hs) ≤ count_by is_open hs
unfolding count_by close_timer
open-close_timer i [] = omega arith
open-close_timer i (h ∷ hs) = ground (arith, open-close_timer i hs)

pub open_timer-le :
    (i : ℕ) (hs : List Handle) → count_by (is_open_timer i) hs ≤ count_by (is_timer i) hs
unfolding count_by
open_timer-le i [] = omega arith
open_timer-le i (h ∷ hs) = ground (arith, open_timer-le i hs)

pub open_async-timer :
    (i : ℕ) (h : Handle) → is_timer i h ≡ true → is_open_async (uv_close h) ≡ is_open_async h
open_async-timer i h e = ground arith

pub count_by-split :
    (f : Handle → Bool) (before : List Handle) (h : Handle) (after : List Handle)
    → count_by f (before ++ (h ∷ after)) ≡ count_by f (before ++ after) + one_if (f h)
unfolding count_by
count_by-split f [] h after = omega arith
count_by-split f (j ∷ before) h after = omega (arith, count_by-split f before h after)

abbrev pub is_closing : Handle → Bool
is_closing h = h.closing

pub none_closing : (hs : List Handle) → count_by is_closing hs ≡ 0 → any_closing hs ≡ false
unfolding count_by any_closing
none_closing [] e = refl
none_closing (h ∷ hs) e = ground (arith, none_closing hs)

-- A registered timer that is found repeats where no registered timer is to run once.
pub find_timer-repeats :
    (i : ℕ) (hs : List Handle) (h : Handle)
    → find_timer i hs ≡ some h
    → count_by is_one_shot hs ≡ 0
    → (h.repeat == 0) ≡ false
unfolding find_timer count_by
find_timer-repeats i [] h e z = absurd (ground arith)
find_timer-repeats i (j ∷ hs) h e z = ground (arith, find_timer-repeats i hs h)

pub open_timer-open :
    (i : ℕ) (hs : List Handle) → count_by (is_open_timer i) hs ≤ count_by is_open hs
unfolding count_by
open_timer-open i [] = omega arith
open_timer-open i (h ∷ hs) = ground (arith, open_timer-open i hs)

-- What a posted task is registered as.
abbrev pub timer : ℕ → ℕ → List Handle
timer i r = record { kind = HandleType.uv_timer; id = i; repeat = r; closing = false } ∷ []
