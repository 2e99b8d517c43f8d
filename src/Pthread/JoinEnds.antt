-- ===== src/Pthread/JoinEnds.antt =====
-- Joining a thread comes to an end (src/wamr_ext_lib/WasiPthreadExt.cpp), without spurious wake-ups.
use wamr_ext.Prelude.{ℕ, true, false, ◌≡◌, ◌≢◌, ◌+◌, ◌<◌, ◌⊎◌, inl, inr, arith, refl, if◌then◌else◌}
use wamr_ext.Prelude.Runs.{Inevitably, inevitable}
use wamr_ext.Pthread.Exit.{
  Exit, Joiner, away, waiting, woken, joining, gone, Step, exits, begins, wakes, joins, Reach,
  spawned, Inv, Step-Inv, Reach-Inv, Step-of, thread_exit, join_begin, after_wait, after_join,
}

-- The call that joins is past its function, and the thread was either joined or detached.
pub record IsOver (e : Exit) : Type 0 where
  pub past : e.joiner ≡ gone
  pub ended : e.running ≡ false
  pub forgotten : e.erased ≡ true
  pub one_of_both :
      ((e.joined ≡ true) × (e.detached ≡ false)) ⊎ ((e.joined ≡ false) × (e.detached ≡ true))

abbrev rank : Joiner → ℕ
rank away = 4
rank waiting = 3
rank woken = 2
rank joining = 1
rank gone = 0

abbrev work : Exit → ℕ
work e = rank e.joiner + (if e.running then 1 else 0)

gone-IsOver : (e : Exit) → Inv e → e.joiner ≡ gone → IsOver e
gone-IsOver e v g = ground (arith, v.gone_erased g, v.not_both)

Step-work : {e f : Exit} → Step e f → Inv e → work f < work e
unfolding thread_exit join_begin after_wait after_join
Step-work (exits r l q) v = ground arith
Step-work (begins a q) v = ground arith
Step-work (wakes a q) v = ground arith
Step-work (joins a r q) v = ground arith

-- Under way.
record Joins (e : Exit) : Type 0 where
  inv : Inv e
  not_past : e.joiner ≢ gone

Joiner-cases : (j : Joiner) → (j ≡ gone) ⊎ (j ≢ gone)
Joiner-cases gone = inl refl
Joiner-cases _ = inr (λ e. absurd (cc e))

nearer : (e f : Exit) → Joins e → Step e f → IsOver f ⊎ (Joins f × (work f < work e))
nearer e f j st =
    let v = Step-Inv st j.inv in
    elim (Joiner-cases f.joiner) [
      | inl g ↦ inl (gone-IsOver f v g)
      | inr n ↦ inr (record { inv = v; not_past = n }, Step-work st j.inv)
    ]

reached_ends : (e : Exit) → Inv e → Inevitably Step IsOver e
reached_ends e v = elim (Joiner-cases e.joiner) [
  | inl g ↦ Inevitably.now (gone-IsOver e v g)
  | inr n ↦
      inevitable Step IsOver Joins work (λ f j. Step-of f f.joiner refl j.not_past j.inv) nearer e
        (record { inv = v; not_past = n })
]

-- Without a spurious wake-up, from every reachable state and whatever is done next, where the app's
-- function does not run forever: the thread ends, the call that joins it gets past its function, with no
-- deadlock on exitLock and no lost wake-up, the entry is then out of the map, and the host thread was
-- either joined or detached.
pub join_ends : {e : Exit} → Reach spawned e → Inevitably Step IsOver e
join_ends {e} r = reached_ends e (Reach-Inv r)
