-- ===== src/Process/NewChild.antt =====
-- ProcessSpawn (src/wamr_ext_lib/WasiProcessExt.cpp) as a whole.
use wamr_ext.Prelude.{
  List, Option-cases, arith, inl, inr, none, refl, some, ℕ, ◌∷◌, ◌≡◌, ◌≢◌, ap, sym, ◌∙◌, Option,
}
use wamr_ext.Prelude.Text.{Text}
use wamr_ext.Prelude.TextMap.{TextMap}
use wamr_ext.Prelude.NumMap.{find_key, find_key-assign}
use wamr_ext.Exec.{Result, done, raise}
use wamr_ext.Process.{ProcHost, ProcManager, World, enter_child}
use wamr_ext.Process.Children.{enter_child-Inverse}
use wamr_ext.Process.Request.{Spawning, read_request}
use wamr_ext.Process.Spawn.{process_spawn, run_request, start_process, enter_started}
use wamr_ext.Process.Spawning.{Allowed, Started, read_request-Allowed, start_process-Started}
use wamr_ext.Process.Reaping.{IsManager, Same}
use wamr_ext.Process.Pipes.{SpawnKeeps, start_process-files, with_started}

-- The pid and the pipe's descriptor that the host gave are of no child in the maps.
abbrev pub FreshChild : ProcManager → Result (ℕ × ℕ) → Type 0
FreshChild m (raise e) = Unit {0}
FreshChild m (done started) =
    (started.0 ≢ 0)
    × (find_key started.0 m.child_proc_map ≡ none)
    × (find_key started.1 m.poll_fd_to_proc_map ≡ none)

module _ {W : Type 0} (h : ProcHost W) where
  abbrev pub FreshRequest : Result Spawning → World W → Type 0
  FreshRequest (raise e) s = Unit {0}
  FreshRequest (done r) s = FreshChild s.1 (start_process h r s.0).0

  abbrev pub FreshRead : Option (Result Spawning) → World W → Type 0
  FreshRead none s = Unit {0}
  FreshRead (some r) s = FreshRequest r s

  -- The same for what the host answers to one call of ProcessSpawn, in the world of that call.
  abbrev pub FreshFor : ℕ → TextMap Text → ℕ → World W → Type 0
  FreshFor fuel whitelist req s = FreshRead (read_request h fuel whitelist req) s

module _ {W : Type 0} (h : ProcHost W) where
  -- A call that ends has changed nothing that is tracked, or has started a child.
  abbrev pub Spawned : (W → List ℕ) → TextMap Text → ℕ → World W → Result ℕ → World W → Type 0
  Spawned files whitelist req s (raise e) t = Same files s t
  Spawned files whitelist req s (done pid) t =
      (fd : ℕ) × (cmd : Text) × (argv : List Text) × Allowed h whitelist req cmd
      × Started h cmd argv pid fd
      × (find_key pid s.1.child_proc_map ≡ none)
      × (t.1 ≡ enter_child pid fd s.1)
      × (files t.0 ≡ fd ∷ files s.0)

enter_child-IsManager :
    (pid fd : ℕ) (m : ProcManager)
    → IsManager m
    → pid ≢ 0
    → find_key pid m.child_proc_map ≡ none
    → find_key fd m.poll_fd_to_proc_map ≡ none
    → IsManager (enter_child pid fd m)
unfolding enter_child
enter_child-IsManager pid fd m k nz np nf = record {
  inverse = enter_child-Inverse pid fd m k.inverse np nf;
  no_zero = ground (arith, find_key-assign 0 pid fd m.child_proc_map, k.no_zero, nz);
}

module _ {W : Type 0} (h : ProcHost W) (files : W → List ℕ) (laws : SpawnKeeps h files) where
  abbrev Did : TextMap Text → ℕ → World W → Result ℕ × World W → Type 0
  Did whitelist req s c = Spawned h files whitelist req s c.0 c.1 × IsManager c.1.1

  entered-Did :
      (whitelist : TextMap Text) (req : ℕ) (r : Spawning) (w v : W) (m : ProcManager)
      (c : Result (ℕ × ℕ))
      → FreshChild m c
      → IsManager m
      → Allowed h whitelist req r.host_cmd
      → ((started : ℕ × ℕ)
          → c ≡ done started
          → Started h r.host_cmd r.host_argv started.0 started.1)
      → files v ≡ with_started c (files w)
      → Did whitelist req (w, m) (enter_started h (c, v) m)
  entered-Did whitelist req r w v m (raise x) fresh k ok st f = ((refl, f), k)
  entered-Did whitelist req r w v m (done started) fresh k ok st f =
      let ran = st started refl in
      (
        (started.1, r.host_cmd, r.host_argv, ok, ran, fresh.1, refl, f),
        enter_child-IsManager started.0 started.1 m k fresh.0 fresh.1 fresh.2,
      )

  run_request-Did :
      (whitelist : TextMap Text) (req : ℕ) (r : Result Spawning) (s : World W)
      → FreshRequest h r s
      → IsManager s.1
      → ((found : Spawning) → r ≡ done found → Allowed h whitelist req found.host_cmd)
      → Did whitelist req s (run_request h r s)
  run_request-Did whitelist req (raise x) s fresh k ok = ((refl, refl), k)
  run_request-Did whitelist req (done r) (w, m) fresh k ok =
      entered-Did whitelist req r w (start_process h r w).1 m (start_process h r w).0 fresh k
        (ok r refl) (start_process-Started h r w) (start_process-files h files laws r w)

  -- Let the calls of the host open and close the files that they document, and let the pid and the
  -- descriptor that the host gives in this call be of no child in the maps. When a call of
  -- ProcessSpawn ends with a pid, that is the answer of posix_spawn to the command that the whitelist has
  -- for the name in the request; the child is entered in both maps, which stay each other's inverse, with
  -- the one end of its pipe that stays open; and when it ends with an error, the maps and the list of open
  -- files are as before.
  pub process_spawn-Spawned :
      (fuel : ℕ) (whitelist : TextMap Text) (req : ℕ) (s t : World W) (r : Result ℕ)
      → IsManager s.1
      → FreshFor h fuel whitelist req s
      → process_spawn h fuel whitelist req s ≡ some (r, t)
      → Spawned h files whitelist req s r t × IsManager t.1
  unfolding process_spawn
  process_spawn-Spawned fuel whitelist req s t r k fresh e =
      elim (Option-cases (read_request h fuel whitelist req)) [
        | inl runs ↦ let no : none ≡ some (r, t) = rw (runs, process_spawn) at e in absurd (cc no)
        | inr (found, reads) ↦
            let ran : some (run_request h found s) ≡ some (r, t) = rw (reads, process_spawn) at e in
            let same : run_request h found s ≡ (r, t) = cc ran in
            rw
              (
                sym (ap (λ (c : Result ℕ × World W). c.0) same),
                sym (ap (λ (c : Result ℕ × World W). c.1) same),
              )
              (run_request-Did whitelist req found s (rw reads at fresh) k (λ asked is_done.
                read_request-Allowed h fuel whitelist req asked (reads ∙ ap some is_done)))
      ]
