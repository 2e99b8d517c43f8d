-- ===== src/Process/Waiting.antt =====
-- The loop of ProcessWaitPID (src/wamr_ext_lib/WasiProcessExt.cpp) as a whole.
use wamr_ext.Prelude.{
  All, Bool, Bool-cases, List, Option-cases, [], arith, inl, inr, not, refl, some, suc, zero, ℕ,
  ◌==◌, ◌||◌, ◌∷◌, ◌≡◌, ◌≢◌, ◌⊎◌, ◌∙◌, Option, none,
}
use wamr_ext.Prelude.Int.{ℤ, pos, negsuc}
use wamr_ext.Prelude.NumMap.{find_key, find_key-remove}
use wamr_ext.Exec.{CRet, Result, done, fails, raise, returns}
use wamr_ext.Process.{ProcHost, ProcManager, World, erase_child}
use wamr_ext.Process.Children.{Inverse, erase_child-Inverse}
use wamr_ext.Process.Wait.{
  WaitOut, Round, over, again, after_poll, check_fds, proc_poll_fds, round_of, process_wait_pid,
  wait_round,
}
use wamr_ext.Process.Reaping.{
  IsManager, WaitKeeps, Asked, Same, Gone, Reaps, check_fds-Reaps, Gone-after,
}

-- A pipe that belongs to a child that was asked for.
abbrev OfAsked : ℤ → ProcManager → ℕ → Type 0
OfAsked pid m fd = (r : ℕ) → find_key r m.child_proc_map ≡ some fd → Asked pid r

All-any : (P : ℕ → Type 0) → ((f : ℕ) → P f) → (fds : List ℕ) → All P fds
All-any P p [] = tt
All-any P p (f ∷ fds) = (p f, All-any P p fds)

one_owner :
    (n fd r : ℕ) (m : ProcManager)
    → Inverse m
    → find_key (suc n) m.child_proc_map ≡ some fd
    → find_key r m.child_proc_map ≡ some fd
    → r ≡ suc n
one_owner n fd r m i e f = ground (arith, (i (suc n) fd).0 e, (i r fd).0 f)

proc_poll_fds-OfAsked :
    (pid : ℤ) (m : ProcManager) (fds : List ℕ)
    → IsManager m
    → proc_poll_fds pid m ≡ some fds
    → All (OfAsked pid m) fds
unfolding proc_poll_fds
proc_poll_fds-OfAsked (negsuc n) m fds k e = All-any _ (λ f r x. tt) fds
proc_poll_fds-OfAsked (pos zero) m fds k e = All-any _ (λ f r x. tt) fds
proc_poll_fds-OfAsked (pos (suc n)) m [] k e = tt
proc_poll_fds-OfAsked (pos (suc n)) m (fd ∷ []) k e =
    elim (Option-cases (find_key (suc n) m.child_proc_map)) [
      | inl x ↦ absurd (cc (e, x))
      | inr (f, x) ↦ (λ r y. one_owner n fd r m k.inverse (ground (arith, e, x)) y, tt)
    ]
proc_poll_fds-OfAsked (pos (suc n)) m (fd ∷ g ∷ fds) k e = absurd (ground (arith, e))

module _ {W : Type 0} (files : W → List ℕ) where
  -- What a call that ends has done: nothing, or one child is reaped.
  abbrev pub Waited : ℤ → World W → Result WaitOut → World W → Type 0
  Waited pid s (raise e) t = Same files s t
  Waited pid s (done out) t =
      ((out.ret_pid ≡ 0) × Same files s t)
      ⊎ ((fd : ℕ) × (out.ret_pid ≢ 0) × Asked pid out.ret_pid × Gone files out.ret_pid fd s t)

  abbrev RoundDid : ℤ → World W → Round → World W → Type 0
  RoundDid pid s (over r) t = Waited pid s r t
  RoundDid pid s again t = Same files s t

  -- From a state that is the same.
  Waited-after :
      (pid : ℤ) (s t u : World W) (r : Result WaitOut)
      → Same files s t
      → Waited pid t r u
      → Waited pid s r u
  Waited-after pid s t u (raise x) (k, f) (l, g) = (l ∙ k, g ∙ f)
  Waited-after pid s t u (done out) (k, f) (inl (z, (l, g))) = inl (z, (l ∙ k, g ∙ f))
  Waited-after pid s t u (done out) (k, f) (inr (fd, nz, a, gone)) =
      inr (fd, nz, a, Gone-after files out.ret_pid fd s t u (k, f) gone)

  RoundDid-after :
      (pid : ℤ) (s t u : World W) (r : Round)
      → Same files s t
      → RoundDid pid t r u
      → RoundDid pid s r u
  RoundDid-after pid s t u (over r) e d = Waited-after pid s t u r e d
  RoundDid-after pid s t u again (k, f) (l, g) = (l ∙ k, g ∙ f)

  Gone-IsManager :
      (pid fd : ℕ) (s t : World W) → Gone files pid fd s t → IsManager s.1 → IsManager t.1
  unfolding erase_child
  Gone-IsManager pid fd s t (has, erased, f) k = rw erased (record {
    inverse = erase_child-Inverse pid fd s.1 k.inverse has;
    no_zero = ground (arith, find_key-remove 0 pid s.1.child_proc_map, k.no_zero);
  })

  Waited-IsManager :
      (pid : ℤ) (s t : World W) (r : Result WaitOut)
      → Waited pid s r t
      → IsManager s.1
      → IsManager t.1
  Waited-IsManager pid s t (raise x) (e, f) k = rw e k
  Waited-IsManager pid s t (done out) (inl (z, (e, f))) k = rw e k
  Waited-IsManager pid s t (done out) (inr (fd, nz, a, g)) k = Gone-IsManager out.ret_pid fd s t g k

  Waited-of :
      (pid : ℤ) (s t : World W) (out : WaitOut)
      → Reaps files (OfAsked pid s.1) out s t
      → Waited pid s (done out) t
  Waited-of pid s t out (inl k) = inl k
  Waited-of pid s t out (inr (fd, p, nz, g)) = inr (fd, nz, p out.ret_pid g.0, g)

module _ {W : Type 0} (h : ProcHost W) (files : W → List ℕ) (laws : WaitKeeps h files) where
  round_of-RoundDid :
      (pid : ℤ) (nohang : Bool) (s : World W) (r : WaitOut × World W)
      → Waited files pid s (done r.0) r.1
      → RoundDid files pid s (round_of h nohang r).0 (round_of h nohang r).1
  round_of-RoundDid pid nohang s r p = elim (Bool-cases (not (r.0.ret_pid == 0) || nohang)) [
    | inl ends ↦ rw ends p
    | inr goes_on ↦
        rw goes_on (elim p [ inl k ↦ k.1 | inr k ↦ absurd (ground (arith, goes_on, k.1)) ])
  ]

  after_poll-RoundDid :
      (pid : ℤ) (nohang : Bool) (fds : List ℕ) (c : CRet (ℕ × List Bool)) (s : World W)
      → IsManager s.1
      → proc_poll_fds pid s.1 ≡ some fds
      → RoundDid files pid s (after_poll h nohang fds c s).0 (after_poll h nohang fds c s).1
  unfolding after_poll
  after_poll-RoundDid pid nohang fds (fails n) s k e = (refl, refl)
  after_poll-RoundDid pid nohang fds (returns a) s k e = elim (Bool-cases (a.0 == 0)) [
    | inl late ↦ rw (late, after_poll) (inl (refl, (refl, refl)))
    | inr ready ↦
        let r = check_fds h fds a.1 s in
        rw (ready, after_poll)
          (round_of-RoundDid pid nohang s r (
            Waited-of files pid s r.1 r.0 (
              check_fds-Reaps h files laws (OfAsked pid s.1) fds a.1 s
                (proc_poll_fds-OfAsked pid s.1 fds k e) k)))
  ]

  wait_round-RoundDid :
      (pid : ℤ) (nohang : Bool) (s : World W)
      → IsManager s.1
      → RoundDid files pid s (wait_round h pid nohang s).0 (wait_round h pid nohang s).1
  unfolding wait_round
  wait_round-RoundDid pid nohang (w, m) k = elim (Option-cases (proc_poll_fds pid m)) [
    | inl e ↦ rw (e, wait_round) (refl, refl)
    | inr (fds, e) ↦
        let ran = h.poll_pipes fds nohang w in
        rw (e, wait_round)
          (RoundDid-after files pid (w, m) (ran.1, m) (after_poll h nohang fds ran.0 (ran.1, m)).1
            (after_poll h nohang fds ran.0 (ran.1, m)).0 (refl, laws.poll_law fds nohang w)
            (after_poll-RoundDid pid nohang fds ran.0 (ran.1, m) k e))
  ]

  Round-cases : (r : Round) → (r ≡ again) ⊎ ((out : Result WaitOut) × (r ≡ over out))
  Round-cases again = inl refl
  Round-cases (over out) = inr (out, refl)

  CallDid : ℤ → World W → Option (Result WaitOut × World W) → Type 0
  CallDid pid s none = Unit {0}
  CallDid pid s (some (r, t)) = Waited files pid s r t

  CallDid-after :
      (pid : ℤ) (s t : World W) (c : Option (Result WaitOut × World W))
      → Same files s t
      → CallDid pid t c
      → CallDid pid s c
  unfolding CallDid
  CallDid-after pid s t none e d = tt
  CallDid-after pid s t (some (r, u)) e d = Waited-after files pid s t u r e d

  process_wait_pid-CallDid :
      (fuel : ℕ) (pid : ℤ) (nohang : Bool) (s : World W)
      → IsManager s.1
      → CallDid pid s (process_wait_pid h fuel pid nohang s)
  unfolding process_wait_pid CallDid
  process_wait_pid-CallDid zero pid nohang s k = tt
  process_wait_pid-CallDid (suc fuel) pid nohang s k =
      let ran = wait_round h pid nohang s in
      let did = wait_round-RoundDid pid nohang s k in
      elim (Round-cases ran.0) [
        | inl goes_on ↦
            let same : Same files s ran.1 = rw goes_on at did in
            let k' : IsManager ran.1.1 = rw same.0 k in
            rw (goes_on, process_wait_pid)
              (CallDid-after pid s ran.1 (process_wait_pid h fuel pid nohang ran.1) same
                (process_wait_pid-CallDid fuel pid nohang ran.1 k'))
        | inr (out, ends) ↦
            let waited : Waited files pid s out ran.1 = rw ends at did in
            rw (ends, process_wait_pid) waited
      ]

  CallDid-some :
      (pid : ℤ) (s t : World W) (r : Result WaitOut) (c : Option (Result WaitOut × World W))
      → c ≡ some (r, t)
      → CallDid pid s c
      → Waited files pid s r t
  unfolding CallDid
  CallDid-some pid s t r c e d = rw e at d

  -- Let the calls of the host keep the list of open files, but for close, and let no child have pid 0 in
  -- maps that are each other's inverse. However many rounds a call of ProcessWaitPID makes, when it
  -- returns it has either reaped nobody and changed neither the maps nor the open files, which is so
  -- whenever it returns an error; or it has written the pid of a child that it knew, the one asked for if
  -- the pid is positive, erased this child from both maps, and closed the child's pipe and no other file.
  -- The maps are each other's inverse again.
  pub process_wait_pid-Waited :
      (fuel : ℕ) (pid : ℤ) (nohang : Bool) (s t : World W) (r : Result WaitOut)
      → IsManager s.1
      → process_wait_pid h fuel pid nohang s ≡ some (r, t)
      → Waited files pid s r t × IsManager t.1
  process_wait_pid-Waited fuel pid nohang s t r k e =
      let waited =
        CallDid-some pid s t r (process_wait_pid h fuel pid nohang s) e
          (process_wait_pid-CallDid fuel pid nohang s k) in
      (waited, Waited-IsManager files pid s t r waited k)
