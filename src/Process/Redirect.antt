-- ===== src/Process/Redirect.antt =====
-- The redirections that ProcessSpawn (src/wamr_ext_lib/WasiProcessExt.cpp) asks for, and the descriptors
-- that the child has after posix_spawn has carried them out.
use wamr_ext.Prelude.{
  Bool-cases, List, Option, Option-cases, [], arith, false, get_elem?, if◌then◌else◌, inl, inr, leb,
  none, refl, some, suc, zero, ℕ, ◌<◌, ◌==◌, ◌^◌, ◌||◌, ◌∷◌, ◌≡◌, ◌≢◌, ◌⊎◌, length, ap, ◌∙◌,
}
use wamr_ext.Errno.{named}
use wamr_ext.Exec.{done, raise, bind-done, sys, Result-cases}
use wamr_ext.Socket.Open.{get_host_fd_by_app_fd}
use wamr_ext.Process.{
  FileAction, ProcHost, SpawnAction, close_fd, dup2, fdup2, other_action, SpawnActionFdup2,
}
use wamr_ext.Process.Spawn.{Dup2FdArr, apply_action, apply_actions, set_at, std_fd, add_dup2s}

-- A process's descriptors, each with its open file.
abbrev pub FdTable : Type 0
FdTable = ℕ → Option ℕ

-- What dup2 and close do, as posix_spawn carries them out in their order.
unfoldable pub act : FileAction → FdTable → FdTable
act (dup2 host_fd fd) t d = if d == fd then t host_fd else t d
act (close_fd fd) t d = if d == fd then none else t d

unfoldable pub acts : List FileAction → FdTable → FdTable
unfolding act
acts [] t = t
acts (a ∷ fa) t = acts fa (act a t)

-- The list that the loop over dup2FDArr makes.
unfoldable pub dup2s : ℕ → Dup2FdArr → List FileAction
dup2s fd [] = []
dup2s fd (none ∷ arr) = dup2s (suc fd) arr
dup2s fd (some host_fd ∷ arr) = dup2 host_fd fd ∷ dup2s (suc fd) arr

abbrev pub wanted : Option ℕ → ℕ → FdTable → Option ℕ
wanted none d t = t d
wanted (some host_fd) d t = t host_fd

-- An entry of the array comes after that of d, and takes its file from elsewhere.
abbrev pub NotFrom : ℕ → Option ℕ → Option ℕ → Type 0
NotFrom d none b = Unit {0}
NotFrom d (some s) none = Unit {0}
NotFrom d (some s) (some b) = (s ≡ d) ⊎ (b ≢ d)

abbrev pub Redirects : Option ℕ → Option ℕ → Option ℕ → List FileAction → FdTable → Type 0
Redirects a b c fa t =
    (acts fa t 0 ≡ wanted a 0 t)
    × (acts fa t 1 ≡ wanted b 1 t)
    × (acts fa t 2 ≡ wanted c 2 t)
    × ((d : ℕ) → 2 < d → acts fa t d ≡ t d)

redirected_by :
    (a b c : Option ℕ) (t : FdTable)
    → NotFrom 0 a b
    → NotFrom 0 a c
    → NotFrom 1 b c
    → Redirects a b c (dup2s 0 (a ∷ b ∷ c ∷ [])) t
unfolding acts dup2s
redirected_by none none none t x y z = ground arith
redirected_by none none (some c) t x y z = ground arith
redirected_by none (some b) none t x y z = ground arith
redirected_by none (some b) (some c) t x y z = ground arith
redirected_by (some a) none none t x y z = ground arith
redirected_by (some a) none (some c) t x y z = ground arith
redirected_by (some a) (some b) none t x y z = ground arith
redirected_by (some a) (some b) (some c) t x y z = ground arith

module _ {W : Type 0} (h : ProcHost W) where
  -- The loop, where no call fails.
  add_dup2s-dup2s :
      (fd : ℕ) (arr : Dup2FdArr) (w : W) (fa : List FileAction)
      → (add_dup2s h fd arr w).0 ≡ done fa
      → fa ≡ dup2s fd arr
  unfolding add_dup2s dup2s
  add_dup2s-dup2s fd [] w fa e = ground (arith, e)
  add_dup2s-dup2s fd (none ∷ arr) w fa e = add_dup2s-dup2s (suc fd) arr w fa e
  add_dup2s-dup2s fd (some s ∷ arr) w fa e =
      let ran = h.file_actions_add (dup2 s fd) w in
      let (x, ok, later) =
        bind-done (sys h.sock.errnos (h.file_actions_add (dup2 s fd))) _ w fa e in
      let (rest, went, ends) = bind-done (add_dup2s h (suc fd) arr) _ ran.1 fa later in
      cc (ends, add_dup2s-dup2s (suc fd) arr ran.1 rest went)

  -- Let the redirections be added without an error, and let none take its file from a descriptor that an
  -- earlier one replaces by another. Then, once posix_spawn has carried them out, the child's descriptors
  -- 0, 1 and 2 are the files of the parent's descriptors in the array, or the parent's own where the array
  -- has none, and its other descriptors are the parent's.
  pub add_dup2s-Redirects :
      (a b c : Option ℕ) (w : W) (fa : List FileAction) (t : FdTable)
      → NotFrom 0 a b
      → NotFrom 0 a c
      → NotFrom 1 b c
      → (add_dup2s h 0 (a ∷ b ∷ c ∷ []) w).0 ≡ done fa
      → Redirects a b c fa t
  add_dup2s-Redirects a b c w fa t x y z e =
      rw (add_dup2s-dup2s 0 (a ∷ b ∷ c ∷ []) w fa e) (redirected_by a b c t x y z)

  -- A defect: where an app swaps its standard output and error, which are the host's, both of the child's
  -- descriptors are the parent's standard error.
  pub swap_merges :
      (a : Option ℕ) (w : W) (fa : List FileAction) (t : FdTable)
      → (add_dup2s h 0 (a ∷ some 2 ∷ some 1 ∷ []) w).0 ≡ done fa
      → (acts fa t 1 ≡ t 2) × (acts fa t 2 ≡ t 2)
  unfolding acts dup2s
  swap_merges none w fa t e =
      rw (add_dup2s-dup2s 0 (none ∷ some 2 ∷ some 1 ∷ []) w fa e) (refl, refl)
  swap_merges (some a) w fa t e =
      rw (add_dup2s-dup2s 0 (some a ∷ some 2 ∷ some 1 ∷ []) w fa e) (refl, refl)

-- The descriptor of the app that the last of the actions for d names.
unfoldable pub last_source : List SpawnAction → ℕ → Option ℕ
last_source [] d = none
last_source (other_action cmd ∷ actions) d = last_source actions d
last_source (fdup2 a ∷ actions) d = elim (last_source actions d) [
  | some src ↦ some src
  | none ↦ if a.dest_fd == d then some a.src_fd else none
]

get_elem-set_at :
    (i d fd : ℕ) (arr : Dup2FdArr)
    → i < length arr
    → get_elem? (set_at i fd arr) d ≡ (if i == d then some (some fd) else get_elem? arr d)
unfolding set_at
get_elem-set_at i d fd [] l = absurd (omega arith)
get_elem-set_at zero zero fd (x ∷ arr) l = refl
get_elem-set_at zero (suc d) fd (x ∷ arr) l = ground arith
get_elem-set_at (suc i) zero fd (x ∷ arr) l = ground arith
get_elem-set_at (suc i) (suc d) fd (x ∷ arr) l =
    ground (arith, get_elem-set_at i d fd arr (omega arith))

length-set_at : (i fd : ℕ) (arr : Dup2FdArr) → length (set_at i fd arr) ≡ length arr
unfolding set_at
length-set_at i fd [] = refl
length-set_at zero fd (x ∷ arr) = refl
length-set_at (suc i) fd (x ∷ arr) = ap suc (length-set_at i fd arr)

module _ {W : Type 0} (h : ProcHost W) where
  unfoldable pub host_of : ℕ → W → Option ℕ
  host_of src w = std_fd ((get_host_fd_by_app_fd h.sock src w).0)

  -- The entry of the array for d after actions without an error.
  unfoldable pub entry_after : List SpawnAction → Dup2FdArr → W → ℕ → Option (Option ℕ)
  unfolding last_source
  entry_after actions arr w d = elim (last_source actions d) [
    | none ↦ get_elem? arr d
    | some src ↦ some (host_of src w)
  ]

  -- One redirection.
  record Applied (a : SpawnActionFdup2) (arr next_arr : Dup2FdArr) (w : W) (d : ℕ) : Type 0 where
    same_length : length next_arr ≡ length arr
    entry :
        get_elem? next_arr d
        ≡ (if a.dest_fd == d then some (host_of a.src_fd w) else get_elem? arr d)

  pub apply_action-world :
      (a : SpawnAction) (arr : Dup2FdArr) (w : W) → (apply_action h a arr w).1 ≡ w
  unfolding apply_action get_host_fd_by_app_fd
  apply_action-world (other_action cmd) arr w = refl
  apply_action-world (fdup2 a) arr w =
      elim (Bool-cases (leb (2 ^ 31) a.dest_fd || leb 3 a.dest_fd)) [
        | inl out ↦ rw (out, apply_action) refl
        | inr std ↦ elim (Result-cases (h.sock.fd_table_get a.src_fd w)) [
          | inl (found, ok) ↦ rw (std, apply_action, ok, get_host_fd_by_app_fd) refl
          | inr (x, bad) ↦ rw (std, apply_action, bad, get_host_fd_by_app_fd) refl
        ]
      ]

  apply_action-Applied :
      (a : SpawnActionFdup2) (arr next_arr : Dup2FdArr) (w : W) (d : ℕ)
      → length arr ≡ 3
      → d < 3
      → (apply_action h (fdup2 a) arr w).0 ≡ done next_arr
      → Applied a arr next_arr w d
  unfolding apply_action host_of get_host_fd_by_app_fd
  apply_action-Applied a arr next_arr w d n l e =
      elim (Bool-cases (leb (2 ^ 31) a.dest_fd || leb 3 a.dest_fd)) [
        | inl out ↦
            let kept : done arr ≡ done next_arr = rw (out, apply_action) at e in
            let same : next_arr ≡ arr = cc kept in
            let elsewhere : (a.dest_fd == d) ≡ false = ground (arith, out, l) in
            rw same (record { same_length = refl; entry = rw elsewhere refl })
        | inr std ↦ elim (Result-cases (h.sock.fd_table_get a.src_fd w)) [
          | inl (found, ok) ↦
              let fd = h.sock.get_osfhandle found.fd in
              let set : done (set_at a.dest_fd fd arr) ≡ done next_arr =
                rw (std, apply_action, ok, get_host_fd_by_app_fd) at e in
              let same : next_arr ≡ set_at a.dest_fd fd arr = cc set in
              let host : host_of a.src_fd w ≡ some fd =
                rw (ok, get_host_fd_by_app_fd, host_of) refl in
              let within : a.dest_fd < length arr = ground (arith, std, n) in
              rw same (record {
                same_length = length-set_at a.dest_fd fd arr;
                entry = rw host (get_elem-set_at a.dest_fd d fd arr within);
              })
          | inr (x, bad) ↦
              let failed : raise x ≡ done next_arr =
                rw (std, apply_action, bad, get_host_fd_by_app_fd) at e in
              absurd (cc failed)
        ]
      ]

  -- Where the loop over the actions returns no error, each of the three entries of the array is the host's
  -- descriptor of the app's descriptor that the last action for it names, and is as before where no action
  -- is for it; the world is as before.
  pub apply_actions_last :
      (actions : List SpawnAction) (arr arr' : Dup2FdArr) (w : W) (d : ℕ)
      → length arr ≡ 3
      → d < 3
      → (apply_actions h actions arr w).0 ≡ done arr'
      → get_elem? arr' d ≡ entry_after actions arr w d
  unfolding apply_actions entry_after last_source
  apply_actions_last [] arr arr' w d n l e = ground (arith, e)
  apply_actions_last (other_action cmd ∷ actions) arr arr' w d n l e =
      apply_actions_last actions arr arr' w d n l e
  apply_actions_last (fdup2 a ∷ actions) arr arr' w d n l e =
      let (next_arr, first, later) =
        bind-done (apply_action h (fdup2 a) arr) (apply_actions h actions) w arr' e in
      let one = apply_action-Applied a arr next_arr w d n l first in
      let stays = apply_action-world (fdup2 a) arr w in
      let on_same_world : (apply_actions h actions next_arr w).0 ≡ done arr' = rw stays at later in
      let rest =
        apply_actions_last actions next_arr arr' w d (one.same_length ∙ n) l on_same_world in
      elim (Option-cases (last_source actions d)) [
        | inl nothing ↦ ground (arith, nothing, rest, one.entry)
        | inr (src, named) ↦ ground (arith, named, rest)
      ]
