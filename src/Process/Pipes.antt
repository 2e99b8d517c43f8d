-- ===== src/Process/Pipes.antt =====
-- The files that ProcessSpawn (src/wamr_ext_lib/WasiProcessExt.cpp) opens and closes.
use wamr_ext.Prelude.{
  Bool, List, [], arith, refl, ℕ, ◌∷◌, ◌≡◌, ◌≢◌, ◌∙◌, ap, none, some, suc, not, ◌++◌,
}
use wamr_ext.Prelude.Text.{Text, has_byte}
use wamr_ext.Exec.{CRet, Exec, Result, checked, continue, done, fails, raise, returns, sys, ◌>>=◌}
use wamr_ext.Socket.Descriptors.{bind-keeps, close_one, close_one-head}
use wamr_ext.Process.{FileAction, ProcHost, SpawnAction, dup2, close_fd}
use wamr_ext.Process.Request.{Spawning}
use wamr_ext.Process.Spawn.{
  Dup2FdArr, add_dup2s, after_spawn, apply_action, apply_actions, launch, start_process, added,
  run_child, std_fds,
}
use wamr_ext.Process.Redirect.{apply_action-world}

abbrev pub with_pipe : CRet (ℕ × ℕ) → List ℕ → List ℕ
with_pipe (returns p) files = p.0 ∷ p.1 ∷ files
with_pipe (fails n) files = files

-- What the host's calls do to the list of open files.
pub record SpawnKeeps {W : Type 0} (h : ProcHost W) (files : W → List ℕ) : Type 0 where
  pub init_law : (w : W) → files (h.file_actions_init w).1 ≡ files w
  pub add_law : (a : FileAction) (w : W) → files (h.file_actions_add a w).1 ≡ files w
  pub destroy_law : (w : W) → files (h.file_actions_destroy w) ≡ files w
  pub nonblock_law : (fd : ℕ) (w : W) → files (h.set_nonblock fd w) ≡ files w
  pub spawn_law :
      (path : Bool) (cmd : Text) (fa : List FileAction) (argv : List Text) (w : W)
      → files (h.posix_spawn path cmd fa argv w).1 ≡ files w
  pub pipe_law : (w : W) → files (h.pipe w).1 ≡ with_pipe (h.pipe w).0 (files w)
  pub pipe_distinct : (w : W) (p : ℕ × ℕ) → (h.pipe w).0 ≡ returns p → p.0 ≢ p.1
  pub close_law : (fd : ℕ) (w : W) → files (h.close fd w) ≡ close_one fd (files w)

-- The pipe of a started child stays open.
abbrev pub with_started : Result (ℕ × ℕ) → List ℕ → List ℕ
with_started (done started) files = started.1 ∷ files
with_started (raise e) files = files

close_one-second : (r w : ℕ) (files : List ℕ) → r ≢ w → close_one w (r ∷ w ∷ files) ≡ r ∷ files
close_one-second r w files ne = ground arith

module _ {W : Type 0} (h : ProcHost W) (files : W → List ℕ) (laws : SpawnKeeps h files) where
  -- A program that gives a started child.
  abbrev Settles : Exec W (ℕ × ℕ) → Type 0
  Settles m = (w : W) → files (m w).1 ≡ with_started (m w).0 (files w)

  continue-Settles :
      {A : Type 0} (r : Result A) (f : A → Exec W (ℕ × ℕ)) (w : W)
      → ((a : A) → Settles (f a))
      → files (continue r f w).1 ≡ with_started (continue r f w).0 (files w)
  continue-Settles (done a) f w s = s a w
  continue-Settles (raise e) f w s = refl

  bind-Settles :
      {A : Type 0} (m : Exec W A) (f : A → Exec W (ℕ × ℕ))
      → ((w : W) → files (m w).1 ≡ files w)
      → ((a : A) → Settles (f a))
      → Settles (m >>= f)
  bind-Settles m f k s w =
      continue-Settles (m w).0 f (m w).1 s ∙ ap (with_started (continue (m w).0 f (m w).1).0) (k w)

  after_spawn-files :
      (p : ℕ × ℕ) (r : CRet ℕ) (w : W) (fs : List ℕ)
      → p.0 ≢ p.1
      → files w ≡ p.0 ∷ p.1 ∷ fs
      → files (after_spawn h p r w).1 ≡ with_started (after_spawn h p r w).0 fs
  unfolding after_spawn
  after_spawn-files p (fails n) w fs ne e =
      laws.close_law p.0 (h.close p.1 w)
      ∙ ap (close_one p.0)
          (laws.close_law p.1 w ∙ ap (close_one p.1) e ∙ close_one-second p.0 p.1 fs ne)
      ∙ close_one-head p.0 fs
  after_spawn-files p (returns pid) w fs ne e =
      laws.nonblock_law p.0 (h.close p.1 w)
      ∙ laws.close_law p.1 w
      ∙ ap (close_one p.1) e
      ∙ close_one-second p.0 p.1 fs ne

  launched-Settles :
      (cmd : Text) (argv : List Text) (fa : List FileAction) (c : CRet (ℕ × ℕ)) (w : W)
      (fs : List ℕ)
      → files w ≡ with_pipe c fs
      → ((p : ℕ × ℕ) → c ≡ returns p → p.0 ≢ p.1)
      → files (continue (checked h.sock.errnos c) (run_child h cmd argv fa) w).1
        ≡ with_started (continue (checked h.sock.errnos c) (run_child h cmd argv fa) w).0 fs
  unfolding run_child
  launched-Settles cmd argv fa (fails n) w fs e d = e
  launched-Settles cmd argv fa (returns p) w fs e d =
      let closing = h.file_actions_add (close_fd p.0) w in
      let fa' = fa ++ added (close_fd p.0) closing.0 in
      let child = h.posix_spawn (not (has_byte b'/' cmd)) cmd fa' argv closing.1 in
      after_spawn-files p child.0 child.1 fs (d p refl) (
        laws.spawn_law (not (has_byte b'/' cmd)) cmd fa' argv closing.1
        ∙ laws.add_law (close_fd p.0) w
        ∙ e)

  apply_actions-keeps :
      (actions : List SpawnAction) (arr : Dup2FdArr)
      → (w : W) → files (apply_actions h actions arr w).1 ≡ files w
  unfolding apply_actions
  apply_actions-keeps [] arr w = refl
  apply_actions-keeps (a ∷ actions) arr w =
      bind-keeps files (apply_action h a arr) _ (λ v. ap files (apply_action-world h a arr v))
        (apply_actions-keeps actions) w

  add_dup2s-keeps : (fd : ℕ) (arr : Dup2FdArr) → (w : W) → files (add_dup2s h fd arr w).1 ≡ files w
  unfolding add_dup2s
  add_dup2s-keeps fd [] w = refl
  add_dup2s-keeps fd (none ∷ arr) w = add_dup2s-keeps (suc fd) arr w
  add_dup2s-keeps fd (some s ∷ arr) w =
      bind-keeps files (sys h.sock.errnos (h.file_actions_add (dup2 s fd))) _
        (laws.add_law (dup2 s fd))
        (λ x.
          bind-keeps files (add_dup2s h (suc fd) arr) _ (add_dup2s-keeps (suc fd) arr)
            (λ rest v. refl))
        w

  launch-Settles :
      (cmd : Text) (argv : List Text) (fa : List FileAction) → Settles (launch h cmd argv fa)
  unfolding launch
  launch-Settles cmd argv fa w =
      launched-Settles cmd argv fa (h.pipe w).0 (h.pipe w).1 (files w) (laws.pipe_law w)
        (laws.pipe_distinct w)

  pub start_process-files :
      (s : Spawning) (w : W)
      → files (start_process h s w).1 ≡ with_started (start_process h s w).0 (files w)
  unfolding start_process
  start_process-files s w =
      bind-Settles (apply_actions h s.actions (std_fds h w)) _
        (apply_actions-keeps s.actions (std_fds h w))
        (λ arr. bind-Settles (sys h.sock.errnos h.file_actions_init) _ laws.init_law λ x v.
          laws.destroy_law _
          ∙ bind-Settles (add_dup2s h 0 arr) (launch h s.host_cmd s.host_argv)
              (add_dup2s-keeps 0 arr) (launch-Settles s.host_cmd s.host_argv) v)
        w
