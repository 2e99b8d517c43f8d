-- ===== src/Process/Spawning.antt =====
-- ProcessSpawn (src/wamr_ext_lib/WasiProcessExt.cpp): which command is started.
use wamr_ext.Prelude.TextMap.{TextMap, lookup}
use wamr_ext.Errno.{named}
use wamr_ext.Prelude.{
  List, ap, none, ℕ, ◌++◌, ◌≡◌, ◌∙◌, not, Option, inl, inr, refl, some, sym, Option-cases,
}
use wamr_ext.Prelude.Text.{Text, has_byte}
use wamr_ext.Exec.{CRet, bind-done, checked, done, fails, returns, sys, Result, Result-cases, raise}
use wamr_ext.Process.{FileAction, ProcHost, close_fd, SpawnAction}
use wamr_ext.Process.Request.{
  Spawning, app_str, check, found_cmd, host_cmd_of, read_args, read_cmd, read_request, then_do,
  or_null, read_actions,
}
use wamr_ext.Process.Spawn.{
  add_dup2s, added, after_spawn, apply_actions, launch, run_child, start_process, std_fds,
}

module _ {W : Type 0} (h : ProcHost W) where
  -- posix_spawn was called with the command and gave the pid, and the descriptor is a pipe's.
  pub record Started (cmd : Text) (argv : List Text) (pid fd : ℕ) : Type 0 where
    pub fa : List FileAction
    pub other_end : ℕ
    pub before : W
    pub at_pipe : W
    pub ran : (h.posix_spawn (not (has_byte b'/' cmd)) cmd fa argv before).0 ≡ returns pid
    pub piped : (h.pipe at_pipe).0 ≡ returns (fd, other_end)

  checked-done :
      {A : Type 0} (c : CRet A) (a : A) → checked h.sock.errnos c ≡ done a → c ≡ returns a
  checked-done (returns b) a e = cc e
  checked-done (fails n) a e = absurd (cc e)

  after_spawn-done :
      (p : ℕ × ℕ) (r : CRet ℕ) (w : W) (started : ℕ × ℕ)
      → (after_spawn h p r w).0 ≡ done started
      → (r ≡ returns started.0) × (p.0 ≡ started.1)
  unfolding after_spawn
  after_spawn-done p (returns pid) w started e = (cc e, cc e)
  after_spawn-done p (fails n) w started e = absurd (cc e)

  launch-Started :
      (cmd : Text) (argv : List Text) (fa : List FileAction) (w : W) (started : ℕ × ℕ)
      → (launch h cmd argv fa w).0 ≡ done started
      → Started cmd argv started.0 started.1
  unfolding launch run_child
  launch-Started cmd argv fa w started e =
      let (p, made, later) =
        bind-done (sys h.sock.errnos h.pipe) (run_child h cmd argv fa) w started e in
      let v = (h.pipe w).1 in
      let closing = h.file_actions_add (close_fd p.0) v in
      let fa' = fa ++ added (close_fd p.0) closing.0 in
      let child = h.posix_spawn (not (has_byte b'/' cmd)) cmd fa' argv closing.1 in
      let ends = after_spawn-done p child.0 child.1 started later in
      record {
        fa = fa';
        other_end = p.1;
        before = closing.1;
        at_pipe = w;
        ran = ends.0;
        piped = checked-done (h.pipe w).0 p made ∙ ap (λ (x : ℕ). returns (x, p.1)) ends.1;
      }

  pub start_process-Started :
      (s : Spawning) (w : W) (started : ℕ × ℕ)
      → (start_process h s w).0 ≡ done started
      → Started s.host_cmd s.host_argv started.0 started.1
  unfolding start_process
  start_process-Started s w started e =
      let (arr, x, inits) = bind-done (apply_actions h s.actions (std_fds h w)) _ w started e in
      let (y, z, adds) = bind-done (sys h.sock.errnos h.file_actions_init) _ _ started inits in
      let (fa, u, launches) =
        bind-done (add_dup2s h 0 arr) (launch h s.host_cmd s.host_argv) _ started adds in
      launch-Started s.host_cmd s.host_argv fa _ started launches

then_do-done :
    {A B : Type 0} (r : Result A) (f : A → Result B) (b : B)
    → then_do r f ≡ done b
    → (a : A) × (r ≡ done a) × (f a ≡ done b)
then_do-done (done a) f b e = (a, refl, e)
then_do-done (raise x) f b e = absurd (cc e)

found_cmd-done : (o : Option Text) (cmd : Text) → found_cmd o ≡ done cmd → o ≡ some cmd
found_cmd-done none cmd e = absurd (cc e)
found_cmd-done (some c) cmd e = cc e

module _ {W : Type 0} (h : ProcHost W) where
  -- The name that the request gives stands for the command in the whitelist.
  abbrev pub Allowed : TextMap Text → ℕ → Text → Type 0
  Allowed whitelist req cmd =
      lookup (app_str h (h.read_req req).app_cmd_name_pointer) whitelist ≡ some cmd

  host_cmd_of-Allowed :
      (whitelist : TextMap Text) (p : ℕ) (cmd : Text)
      → host_cmd_of h whitelist p ≡ done cmd
      → lookup (app_str h p) whitelist ≡ some cmd
  unfolding host_cmd_of
  host_cmd_of-Allowed whitelist p cmd e =
      let (x, valid, found) = then_do-done (check (h.vm.validate_app_str_addr p)) _ cmd e in
      found_cmd-done _ cmd found

  read_cmd-Allowed :
      (whitelist : TextMap Text) (req : ℕ) (c : Text × List Text)
      → read_cmd h whitelist req ≡ done c
      → Allowed whitelist req c.0
  unfolding read_cmd
  read_cmd-Allowed whitelist req c e =
      let (x, valid, e1) = then_do-done (check (h.vm.validate_native_addr req 20)) _ c e in
      let (cmd, named, e2) =
        then_do-done (host_cmd_of h whitelist (h.read_req req).app_cmd_name_pointer) _ c e1 in
      let (y, array, e3) = then_do-done (check (h.vm.validate_app_addr _ _)) _ c e2 in
      let (argv, args, e4) =
        then_do-done
          (read_args h (h.read_req req).argc
            (or_null (h.vm.addr_app_to_native (h.read_req req).app_argv_pointer)))
          _ c e3 in
      let same : c.0 ≡ cmd = cc e4 in
      host_cmd_of-Allowed whitelist _ c.0 (named ∙ ap done (sym same))

  abbrev with_found : Text × List Text → List SpawnAction → Spawning
  with_found c actions = record { host_cmd = c.0; host_argv = c.1; actions = actions }

  abbrev with_actions : Text × List Text → List SpawnAction → Result Spawning
  with_actions c actions = done (with_found c actions)

  pub read_request-Allowed :
      (fuel : ℕ) (whitelist : TextMap Text) (req : ℕ) (r : Spawning)
      → read_request h fuel whitelist req ≡ some (done r)
      → Allowed whitelist req r.host_cmd
  unfolding read_request
  read_request-Allowed fuel whitelist req r e = elim (Result-cases (read_cmd h whitelist req)) [
    | inl (c, cmd) ↦ elim (Option-cases (read_actions h fuel (h.read_req req).app_fa_pointer)) [
      | inl runs ↦
          let no : none ≡ some (done r) = rw (cmd, read_request, runs) at e in absurd (cc no)
      | inr (actions, walked) ↦
          let made : some (then_do actions (with_actions c)) ≡ some (done r) =
            rw (cmd, read_request, walked) at e in
          let (found, x, ends) = then_do-done actions (with_actions c) r (cc made) in
          let same : with_found c found ≡ r = cc ends in
          read_cmd-Allowed whitelist req c cmd ∙ ap (λ (x : Spawning). some x.host_cmd) same
    ]
    | inr (x, bad) ↦
        let no : some (raise x) ≡ some (done r) = rw (bad, read_request) at e in absurd (cc no)
  ]
