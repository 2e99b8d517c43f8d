-- ===== src/Process/Reaping.antt =====
-- What ProcessWaitPID (src/wamr_ext_lib/WasiProcessExt.cpp) does to the children that it knows and to the
-- files that are open.
use wamr_ext.Prelude.{
  All, Bool, List, Option-cases, [], ap, arith, false, inl, inr, none, refl, some, suc, sym, true,
  ℕ, ◌==◌, ◌∷◌, ◌≡◌, ◌≢◌, ◌⊎◌, ◌∙◌,
}
use wamr_ext.Prelude.Int.{ℤ, pos}
use wamr_ext.Prelude.NumMap.{find_key}
use wamr_ext.Socket.Descriptors.{close_one}
use wamr_ext.Process.{
  ProcHost, ProcManager, WaitRet, World, erase_child, exited, no_child, running, wait_failed,
}
use wamr_ext.Process.Children.{Inverse}
use wamr_ext.Process.Wait.{WaitOut, check_fd, check_fds, reap}

-- The maps are inverse, and no child has pid 0.
pub record IsManager (m : ProcManager) : Type 0 where
  pub inverse : Inverse m
  pub no_zero : find_key 0 m.child_proc_map ≡ none

-- The calls of the host keep the list of open files, but for close.
pub record WaitKeeps {W : Type 0} (h : ProcHost W) (files : W → List ℕ) : Type 0 where
  pub poll_law :
      (fds : List ℕ) (nohang : Bool) (w : W) → files (h.poll_pipes fds nohang w).1 ≡ files w
  pub read_law : (fd : ℕ) (w : W) → files (h.read_pipe fd w) ≡ files w
  pub waitpid_law : (pid : ℕ) (w : W) → files (h.waitpid pid w).1 ≡ files w
  pub close_law : (fd : ℕ) (w : W) → files (h.close fd w) ≡ close_one fd (files w)

-- The pid is the one asked for.
abbrev pub Asked : ℤ → ℕ → Type 0
Asked (pos (suc n)) r = r ≡ suc n
Asked _ r = Unit {0}

module _ {W : Type 0} (files : W → List ℕ) where
  abbrev pub Same : World W → World W → Type 0
  Same s t = (t.1 ≡ s.1) × (files t.0 ≡ files s.0)

  -- The child is gone from both maps, and its pipe is closed.
  abbrev pub Gone : ℕ → ℕ → World W → World W → Type 0
  Gone pid fd s t =
      (find_key pid s.1.child_proc_map ≡ some fd)
      × (t.1 ≡ erase_child pid fd s.1)
      × (files t.0 ≡ close_one fd (files s.0))

  -- Nothing is reaped, or one child with a pipe that P holds of.
  abbrev pub Reaps : (ℕ → Type 0) → WaitOut → World W → World W → Type 0
  Reaps P out s t =
      ((out.ret_pid ≡ 0) × Same s t)
      ⊎ ((fd : ℕ) × P fd × (out.ret_pid ≢ 0) × Gone out.ret_pid fd s t)

  pub Gone-after : (pid fd : ℕ) (s t u : World W) → Same s t → Gone pid fd t u → Gone pid fd s u
  Gone-after pid fd s t u (k, f) (has, l, g) = (
    ap (λ (m : ProcManager). find_key pid m.child_proc_map) (sym k) ∙ has,
    l ∙ ap (erase_child pid fd) k,
    g ∙ ap (close_one fd) f,
  )

  -- From a state that is the same.
  Reaps-after :
      (P : ℕ → Type 0) (out : WaitOut) (s t u : World W)
      → Same s t
      → Reaps P out t u
      → Reaps P out s u
  Reaps-after P out s t u (k, f) (inl (z, (l, g))) = inl (z, (l ∙ k, g ∙ f))
  Reaps-after P out s t u e (inr (fd, p, nz, gone)) =
      inr (fd, p, nz, Gone-after out.ret_pid fd s t u e gone)

module _ {W : Type 0} (h : ProcHost W) (files : W → List ℕ) (laws : WaitKeeps h files) where
  reap-Reaps :
      (P : ℕ → Type 0) (fd pid : ℕ) (r : WaitRet) (s : World W)
      → P fd
      → pid ≢ 0
      → find_key pid s.1.child_proc_map ≡ some fd
      → Reaps files P (reap h fd pid r s).0 s (reap h fd pid r s).1
  unfolding reap
  reap-Reaps P fd pid (exited n) s p nz e = inr (fd, p, nz, (e, refl, laws.close_law fd s.0))
  reap-Reaps P fd pid no_child s p nz e = inr (fd, p, nz, (e, refl, laws.close_law fd s.0))
  reap-Reaps P fd pid running s p nz e = inl (refl, (refl, refl))
  reap-Reaps P fd pid wait_failed s p nz e = inl (refl, (refl, refl))

  known_pid :
      (m : ProcManager) (fd pid : ℕ)
      → IsManager m
      → find_key fd m.poll_fd_to_proc_map ≡ some pid
      → (find_key pid m.child_proc_map ≡ some fd) × (pid ≢ 0)
  known_pid m fd pid k e =
      let has : find_key pid m.child_proc_map ≡ some fd = (k.inverse pid fd).1 e in
      (has, λ z. absurd (cc (z, has, k.no_zero)))

  check_fd-Reaps :
      (P : ℕ → Type 0) (fd : ℕ) (s : World W)
      → P fd
      → IsManager s.1
      → Reaps files P (check_fd h fd s).0 s (check_fd h fd s).1
  unfolding check_fd
  check_fd-Reaps P fd (w, m) p k =
      let v = h.read_pipe fd w in
      elim (Option-cases (find_key fd m.poll_fd_to_proc_map)) [
        | inl e ↦ rw (e, check_fd) (inl (refl, (refl, laws.read_law fd w)))
        | inr (pid, e) ↦
            let known = known_pid m fd pid k e in
            let ran = h.waitpid pid v in
            rw (e, check_fd)
              (Reaps-after files P (reap h fd pid ran.0 (ran.1, m)).0 (w, m) (ran.1, m)
                (reap h fd pid ran.0 (ran.1, m)).1
                (refl, laws.waitpid_law pid v ∙ laws.read_law fd w)
                (reap-Reaps P fd pid ran.0 (ran.1, m) p known.1 known.0))
      ]

  IsManager-Same : (s t : World W) → Same files s t → IsManager s.1 → IsManager t.1
  IsManager-Same s t e k = rw e.0 k

  pub check_fds-Reaps :
      (P : ℕ → Type 0) (fds : List ℕ) (rs : List Bool) (s : World W)
      → All P fds
      → IsManager s.1
      → Reaps files P (check_fds h fds rs s).0 s (check_fds h fds rs s).1
  unfolding check_fds
  check_fds-Reaps P [] rs s a k = inl (refl, (refl, refl))
  check_fds-Reaps P (fd ∷ fds) [] s a k = inl (refl, (refl, refl))
  check_fds-Reaps P (fd ∷ fds) (false ∷ rs) s a k = check_fds-Reaps P fds rs s a.1 k
  check_fds-Reaps P (fd ∷ fds) (true ∷ rs) s a k =
      let one = check_fd h fd s in
      elim (check_fd-Reaps P fd s a.0 k) [
        | inl (z, same) ↦
            let zero_pid : (one.0.ret_pid == 0) ≡ true = ground (arith, z) in
            rw zero_pid (
              Reaps-after files P (check_fds h fds rs one.1).0 s one.1 (check_fds h fds rs one.1).1
                same (check_fds-Reaps P fds rs one.1 a.1 (IsManager-Same s one.1 same k)))
        | inr (f, p, nz, gone) ↦
            let some_pid : (one.0.ret_pid == 0) ≡ false = ground (arith, nz) in
            rw some_pid (inr (f, p, nz, gone))
      ]
