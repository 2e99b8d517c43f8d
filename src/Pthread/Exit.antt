-- ===== src/Pthread/Exit.antt =====
-- How a thread ends and is joined: the end of the host thread's function in WasiThreadSpawn, and
-- DoHostThreadJoin (src/wamr_ext_lib/WasiPthreadExt.cpp), for one thread and the one call that joins
-- it (destroy holds execFuncLock). A step is what is done between taking exitLock and giving it up.
use wamr_ext.Prelude.{Bool, arith, false, if◌then◌else◌, suc, true, zero, ◌≡◌, ◌⊎◌, refl, ◌≢◌}
use wamr_ext.Prelude.Int.{ℤ, pos, negsuc, eq_ℕ, is_neg}

-- The app's thread: before its last section, or past it. The joiner: not yet there; in exitCV.wait;
-- woken by notify_all; in pHostThread->join() with exitLock held; past the function.
pub data Joiner : Type 0 where
  away waiting woken joining gone : Joiner

-- `running`: the thread has not come to its last section. `detached`, `joined`: std::thread's.
-- `erased`: the entry is out of the map.
pub record Exit : Type 0 where
  pub wait_count : ℤ
  pub running : Bool
  pub joiner : Joiner
  pub detached : Bool
  pub joined : Bool
  pub erased : Bool

-- Nobody holds exitLock between two steps but a joiner in join().
abbrev pub is_joining : Joiner → Bool
is_joining joining = true
is_joining _ = false

abbrev pub is_waiting : Joiner → Bool
is_waiting waiting = true
is_waiting _ = false

abbrev pub notified : Joiner → Joiner
notified waiting = woken
notified j = j

-- waitCount++ and waitCount--.
abbrev pub inc : ℤ → ℤ
inc (pos n) = pos (suc n)
inc (negsuc zero) = pos 0
inc (negsuc (suc n)) = negsuc n

abbrev pub dec : ℤ → ℤ
dec (pos zero) = negsuc 0
dec (pos (suc n)) = pos n
dec (negsuc n) = negsuc (suc n)

-- The last section of the thread's function.
unfoldable pub thread_exit : Exit → Exit
thread_exit e =
    if eq_ℕ e.wait_count 0
    then record e { running = false; detached = true; wait_count = negsuc 0 }
    else record e { running = false; joiner = notified e.joiner }

-- DoHostThreadJoin up to the wait.
unfoldable pub join_begin : Exit → Exit
join_begin e =
    if is_neg e.wait_count
    then record e { joiner = gone; erased = true }
    else record e { wait_count = inc e.wait_count; joiner = waiting }

-- After the wait, with exitLock taken again: join() is called under the lock.
unfoldable pub after_wait : Exit → Exit
after_wait e =
    if eq_ℕ (dec e.wait_count) 0
    then record e { wait_count = dec e.wait_count; joiner = joining }
    else record e { wait_count = dec e.wait_count; joiner = gone }

-- join() has returned.
unfoldable pub after_join : Exit → Exit
after_join e = record e { wait_count = negsuc 0; joined = true; joiner = gone; erased = true }

-- The steps without a spurious wake-up.
pub data Step (e : Exit) (f : Exit) : Type 0 where
  exits : e.running ≡ true → is_joining e.joiner ≡ false → f ≡ thread_exit e → Step e f
  begins : e.joiner ≡ away → f ≡ join_begin e → Step e f
  wakes : e.joiner ≡ woken → f ≡ after_wait e → Step e f
  joins : e.joiner ≡ joining → e.running ≡ false → f ≡ after_join e → Step e f

-- A condition variable may also wake for no reason.
pub data SpuriousStep (e : Exit) (f : Exit) : Type 0 where
  proper : Step e f → SpuriousStep e f
  spurious : e.joiner ≡ waiting → f ≡ after_wait e → SpuriousStep e f

pub data Reach (e : Exit) : Exit → Type 0 where
  here : Reach e e
  next : {f g : Exit} → Reach e f → Step f g → Reach e g

-- A thread that WasiThreadSpawn has just started.
abbrev pub spawned : Exit
spawned = record {
  wait_count = pos 0;
  running = true;
  joiner = away;
  detached = false;
  joined = false;
  erased = false;
}

pub record Inv (e : Exit) : Type 0 where
  pub away_running : e.joiner ≡ away → e.running ≡ true → e.wait_count ≡ pos 0
  pub away_ended :
      e.joiner ≡ away → e.running ≡ false → (e.wait_count ≡ negsuc 0) × (e.detached ≡ true)
  pub waits : e.joiner ≡ waiting → (e.wait_count ≡ pos 1) × (e.running ≡ true)
  pub wakes_ended : e.joiner ≡ woken → (e.wait_count ≡ pos 1) × (e.running ≡ false)
  pub joins_ended : e.joiner ≡ joining → (e.wait_count ≡ pos 0) × (e.running ≡ false)
  pub gone_erased :
      e.joiner ≡ gone
      → (e.erased ≡ true)
        × (e.running ≡ false)
        × (e.wait_count ≡ negsuc 0)
        × ((e.joined ≡ true) ⊎ (e.detached ≡ true))
  pub not_both : e.detached ≡ true → e.joined ≡ false
  pub detached_neg : e.detached ≡ true → e.wait_count ≡ negsuc 0
  pub erased_gone : e.erased ≡ true → e.joiner ≡ gone
  pub joined_gone : e.joined ≡ true → e.joiner ≡ gone

pub Step-Inv : {e f : Exit} → Step e f → Inv e → Inv f
unfolding thread_exit join_begin after_wait after_join
Step-Inv (exits r l q) v = ground arith
Step-Inv (begins a q) v = ground arith
Step-Inv (wakes a q) v = ground arith
Step-Inv (joins a r q) v = ground arith

pub Reach-Inv : {e : Exit} → Reach spawned e → Inv e
Reach-Inv here = ground arith
Reach-Inv (next r st) = Step-Inv st (Reach-Inv r)

-- Without a spurious wake-up, when the call that joins a thread is past its function, the thread has
-- ended, its entry is out of the map, and its host thread was joined or detached, never both.
pub joined_or_detached :
    {e : Exit}
    → Reach spawned e
    → e.joiner ≡ gone
    → (e.running ≡ false)
      × (e.erased ≡ true)
      × (((e.joined ≡ true) × (e.detached ≡ false)) ⊎ ((e.joined ≡ false) × (e.detached ≡ true)))
joined_or_detached r g = settled (Reach-Inv r) g
  where
    settled :
        {e : Exit}
        → Inv e
        → e.joiner ≡ gone
        → (e.running ≡ false)
          × (e.erased ≡ true)
          × (((e.joined ≡ true) × (e.detached ≡ false))
              ⊎ ((e.joined ≡ false) × (e.detached ≡ true)))
    settled v g = ground (arith, v.gone_erased g, v.not_both)

pub Step-of : (e : Exit) (j : Joiner) → e.joiner ≡ j → j ≢ gone → Inv e → (f : Exit) × Step e f
Step-of e away q n v = (join_begin e, begins q refl)
Step-of e waiting q n v = (thread_exit e, exits (v.waits q).1 (rw q refl) refl)
Step-of e woken q n v = (after_wait e, wakes q refl)
Step-of e joining q n v = (after_join e, joins q (v.joins_ended q).1 refl)
Step-of e gone q n v = absurd (n refl)

-- Without a spurious wake-up no reachable state is stuck before the join is done: there is no deadlock
-- on exitLock, and no wake-up is lost.
pub join_progress : {e : Exit} → Reach spawned e → e.joiner ≢ gone → (f : Exit) × Step e f
join_progress {e} r n = Step-of e e.joiner refl n (Reach-Inv r)

-- Waiting, the thread still running, and join() called under exitLock: nothing can be done.
abbrev pub IsDeadlocked : Exit → Type 0
IsDeadlocked e = (e.joiner ≡ joining) × (e.running ≡ true)

IsDeadlocked-stuck : {e f : Exit} → IsDeadlocked e → ¬ SpuriousStep e f
IsDeadlocked-stuck (j, r) (proper (exits r' l q)) = absurd (cc)
IsDeadlocked-stuck (j, r) (proper (begins a q)) = absurd (cc)
IsDeadlocked-stuck (j, r) (proper (wakes a q)) = absurd (cc)
IsDeadlocked-stuck (j, r) (proper (joins a r' q)) = absurd (cc)
IsDeadlocked-stuck (j, r) (spurious a q) = absurd (cc)

woken_early : (e : Exit) → Inv e → e.joiner ≡ waiting → IsDeadlocked (after_wait e)
unfolding after_wait
woken_early e v w = ground (arith, v.waits w)

-- A defect: exitCV.wait has no predicate, so a spurious wake-up, which C++ allows, of a call that waits
-- for a running thread makes it call join() with exitLock held, and from there no step is possible.
pub spurious_deadlock :
    {e : Exit}
    → Reach spawned e
    → e.joiner ≡ waiting
    → (f : Exit) × SpuriousStep e f × ((g : Exit) → ¬ SpuriousStep f g)
spurious_deadlock {e} r w =
    (after_wait e, spurious w refl, λ g st. IsDeadlocked-stuck (woken_early e (Reach-Inv r) w) st)
