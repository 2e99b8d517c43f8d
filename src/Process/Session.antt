-- ===== src/Process/Session.antt =====
-- Sequences of ProcessSpawn and ProcessWaitPID (src/wamr_ext_lib/WasiProcessExt.cpp): the pipes that
-- they leave open.
use wamr_ext.Prelude.{
  List, none, some, arith, ℕ, Bool, [], ◌∷◌, ◌≡◌, ◌+◌, ◌<◌, ◌==◌, is_some, inl, inr, if◌then◌else◌,
  Option-cases, refl,
}
use wamr_ext.Prelude.Int.{ℤ}
use wamr_ext.Prelude.Text.{Text}
use wamr_ext.Prelude.TextMap.{TextMap}
use wamr_ext.Prelude.NumMap.{find_key, find_key-assign, find_key-remove}
use wamr_ext.Exec.{Result, done, raise}
use wamr_ext.Process.{ProcHost, ProcManager, World, enter_child, erase_child, new_proc_manager}
use wamr_ext.Process.Pipes.{SpawnKeeps}
use wamr_ext.Process.Spawn.{process_spawn}
use wamr_ext.Process.Children.{new-Inverse}
use wamr_ext.Process.Waiting.{Waited, process_wait_pid-Waited}
use wamr_ext.Process.Wait.{process_wait_pid, WaitOut}
use wamr_ext.Process.Reaping.{IsManager, Same, Gone, WaitKeeps}
use wamr_ext.Process.NewChild.{FreshFor, Spawned, process_spawn-Spawned}
use wamr_ext.Socket.Descriptors.{close_one}

-- How often a descriptor is on the list of open files.
unfoldable pub count : ℕ → List ℕ → ℕ
count fd [] = 0
count fd (x ∷ xs) = (if fd == x then 1 else 0) + count fd xs

-- 1 for the pipe of a child that is known.
abbrev pub pipes : ℕ → ProcManager → ℕ
pipes fd m = if is_some (find_key fd m.poll_fd_to_proc_map) then 1 else 0

-- The app's calls that end, one after the other, whatever they return. Where a call starts a
-- child, the pid and the descriptor that the system gives in it are of no child that is then in the maps.
pub data Calls {W : Type 0} (h : ProcHost W) (whitelist : TextMap Text) (s : World W)
    : World W → Type 0 where
  none_made : Calls h whitelist s s
  spawn_ends :
      {t u : World W} (fuel req : ℕ) (r : Result ℕ)
      → Calls h whitelist s t
      → FreshFor h fuel whitelist req t
      → process_spawn h fuel whitelist req t ≡ some (r, u)
      → Calls h whitelist s u
  wait_ends :
      {t u : World W} (fuel : ℕ) (pid : ℤ) (nohang : Bool) (r : Result WaitOut)
      → Calls h whitelist s t
      → process_wait_pid h fuel pid nohang t ≡ some (r, u)
      → Calls h whitelist s u

count-close_one :
    (fd j : ℕ) (xs : List ℕ)
    → 0 < count fd xs
    → count j (close_one fd xs) + (if j == fd then 1 else 0) ≡ count j xs
unfolding count
count-close_one fd j [] h = absurd (omega arith)
count-close_one fd j (x ∷ xs) h = ground (arith, count-close_one fd j xs)

-- What is open is what was open at the start and the pipes.
abbrev Accounted : {W : Type 0} → (W → List ℕ) → (ℕ → ℕ) → World W → Type 0
Accounted files base s = (fd : ℕ) → count fd (files s.0) ≡ base fd + pipes fd s.1

module _ {W : Type 0} (files : W → List ℕ) (base : ℕ → ℕ) where
  Same-Accounted :
      (s t : World W) → Same files s t → Accounted files base s → Accounted files base t
  Same-Accounted s t (k, f) a fd = rw (k, f) (a fd)

  -- The descriptor of a new entry was no child's before, as the maps are inverse after it.
  fd_was_free :
      (pid fd : ℕ) (m : ProcManager)
      → IsManager m
      → IsManager (enter_child pid fd m)
      → find_key pid m.child_proc_map ≡ none
      → find_key fd m.poll_fd_to_proc_map ≡ none
  unfolding enter_child
  fd_was_free pid fd m k k' new_pid = elim (Option-cases (find_key fd m.poll_fd_to_proc_map)) [
    | inl e ↦ e
    | inr (q, e) ↦ absurd (
        ground (
          arith,
          (k.inverse q fd).1 e,
          (k'.inverse q fd).0,
          find_key-assign q pid fd m.child_proc_map,
          find_key-assign fd fd pid m.poll_fd_to_proc_map,
        ))
  ]

  entered-Accounted :
      (pid fd : ℕ) (s t : World W)
      → find_key fd s.1.poll_fd_to_proc_map ≡ none
      → t.1 ≡ enter_child pid fd s.1
      → files t.0 ≡ fd ∷ files s.0
      → Accounted files base s
      → Accounted files base t
  unfolding enter_child count
  entered-Accounted pid fd s t new_fd e f a j =
      rw (e, f) (ground (arith, find_key-assign j fd pid s.1.poll_fd_to_proc_map, a j))

  Gone-Accounted :
      (pid fd : ℕ) (s t : World W)
      → IsManager s.1
      → Gone files pid fd s t
      → Accounted files base s
      → Accounted files base t
  unfolding erase_child
  Gone-Accounted pid fd s t k (has, e, f) a j =
      let known = (k.inverse pid fd).0 has in
      let opened : 0 < count fd (files s.0) = ground (arith, a fd, known) in
      rw (e, f)
        (ground (
          arith,
          known,
          a j,
          find_key-remove j fd s.1.poll_fd_to_proc_map,
          count-close_one fd j (files s.0) opened,
        ))

module _ {W : Type 0} (h : ProcHost W) (files : W → List ℕ) (base : ℕ → ℕ)
    (spawn_laws : SpawnKeeps h files) (wait_laws : WaitKeeps h files) where
  spawn-Accounted :
      (whitelist : TextMap Text) (req : ℕ) (s t : World W) (r : Result ℕ)
      → IsManager s.1
      → IsManager t.1
      → Spawned h files whitelist req s r t
      → Accounted files base s
      → Accounted files base t
  spawn-Accounted whitelist req s t (raise x) k k' same a = Same-Accounted files base s t same a
  spawn-Accounted whitelist req s t (done pid) k k' (fd, cmd, argv, ok, st, new_pid, e, f) a =
      entered-Accounted files base pid fd s t
        (fd_was_free files base pid fd s.1 k (rw e at k') new_pid) e f a

  wait-Accounted :
      (pid : ℤ) (s t : World W) (r : Result WaitOut)
      → IsManager s.1
      → Waited files pid s r t
      → Accounted files base s
      → Accounted files base t
  wait-Accounted pid s t (raise x) k same a = Same-Accounted files base s t same a
  wait-Accounted pid s t (done out) k (inl (z, same)) a = Same-Accounted files base s t same a
  wait-Accounted pid s t (done out) k (inr (fd, nz, asked, gone)) a =
      Gone-Accounted files base out.ret_pid fd s t k gone a

  Calls-Accounted :
      (whitelist : TextMap Text) (s t : World W)
      → IsManager s.1
      → Accounted files base s
      → Calls h whitelist s t
      → IsManager t.1 × Accounted files base t
  Calls-Accounted whitelist s t k a none_made = (k, a)
  Calls-Accounted whitelist s u k a (spawn_ends {t = t} fuel req r cs fresh e) =
      let (k', a') = Calls-Accounted whitelist s t k a cs in
      let (did, k'') =
        process_spawn-Spawned h files spawn_laws fuel whitelist req t u r k' fresh e in
      (k'', spawn-Accounted whitelist req t u r k' k'' did a')
  Calls-Accounted whitelist s u k a (wait_ends {t = t} fuel pid nohang r cs e) =
      let (k', a') = Calls-Accounted whitelist s t k a cs in
      let (did, k'') = process_wait_pid-Waited h files wait_laws fuel pid nohang t u r k' e in
      (k'', wait-Accounted pid t u r k' did a')

start-IsManager : IsManager new_proc_manager
unfolding new_proc_manager find_key
start-IsManager = record { inverse = new-Inverse; no_zero = refl }

start-Accounted :
    {W : Type 0} (files : W → List ℕ) (w : W)
    → Accounted files (λ fd. count fd (files w)) (w, new_proc_manager)
unfolding new_proc_manager find_key
start-Accounted files w fd = omega arith

-- Let the host's calls open and close the files that they document, and let each call that starts a
-- child get a pid and a descriptor of no child that is in the maps at that time. After any calls of ProcessSpawn and ProcessWaitPID in any order, whatever
-- each of them returned, the open files are those of the start and one for each child that is still in
-- the maps, its pipe.
pub open_files_accounted :
    {W : Type 0} (h : ProcHost W) (files : W → List ℕ)
    → SpawnKeeps h files
    → WaitKeeps h files
    → (whitelist : TextMap Text) (w : W) (t : World W) → Calls h whitelist (w, new_proc_manager) t
    → (fd : ℕ) → count fd (files t.0) ≡ count fd (files w) + pipes fd t.1
open_files_accounted h files spawn_laws wait_laws whitelist w t cs =
    (Calls-Accounted h files (λ fd. count fd (files w)) spawn_laws wait_laws whitelist
      (w, new_proc_manager) t start-IsManager (start-Accounted files w) cs).1
