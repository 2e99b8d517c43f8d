-- ===== src/Files/Locks.antt =====
-- FDFcntl (src/wamr_ext_lib/WasiFSExt.cpp): what a call asks of the host, and what it writes to the app.
-- The relations of numbers to the host's constants are written out here again, apart from the code's.
use wamr_ext.Prelude.Int.{pos}
use wamr_ext.Prelude.{
  Bool, Option-cases, arith, false, inl, inr, some, true, ℕ, ◌≡◌, none, refl, ◌-◌, ◌^◌, ◌⊎◌,
}
use wamr_ext.Errno.{Errno, success, convert_errno_to_wasi_errno, efault, einval}
use wamr_ext.Exec.{CRet, Result-cases, fails, returns, done, raise}
use wamr_ext.Socket.{FdWrap}
use wamr_ext.Socket.Open.{get_host_fd_by_app_fd}
use wamr_ext.Files.{
  FcntlFlock, FsHost, HostFlock, HostLockCmd, HostLockType, HostWhence, after_fcntl, app_flock,
  app_lock_type, app_whence, f_getlk, f_setlk, f_setlkw, fcntl_at, fd_fcntl, host_flock,
  host_lock_type, host_whence, lock_cmd, lock_file, Answer, f_rdlck, f_unlck, f_wrlck, other_type,
  other_whence, seek_cur, seek_end, seek_set,
}

lock_type_back : (n : ℕ) (t : HostLockType) → host_lock_type n ≡ some t → app_lock_type t ≡ n
unfolding host_lock_type app_lock_type
lock_type_back n t e = ground (arith, e)

whence_back : (n : ℕ) (t : HostWhence) → host_whence n ≡ some t → app_whence t ≡ n
unfolding host_whence app_whence
whence_back n t e = ground (arith, e)

-- A lock that FDFcntl can hand to the host is, written back as GETLK does, the app's own again: its type,
-- whence, start and length.
pub flock_round_trip :
    (info : FcntlFlock) (lock : HostFlock)
    → host_flock info ≡ some lock
    → app_flock lock info ≡ info
unfolding host_flock app_flock
flock_round_trip info lock e = elim (Option-cases (host_lock_type info.l_type)) [
  | inl nothing ↦ absurd (ground (arith, e, nothing))
  | inr (t, type) ↦ elim (Option-cases (host_whence info.l_whence)) [
    | inl nothing ↦ absurd (ground (arith, e, type, nothing))
    | inr (v, whence) ↦ ground (
      arith,
      e,
      type,
      whence,
      lock_type_back info.l_type t type,
      whence_back info.l_whence v whence,
    )
  ]
]

-- What the numbers of the app's structure mean to the host.
abbrev pub CmdIs : ℕ → HostLockCmd → Type 0
CmdIs n f_getlk = n ≡ 257
CmdIs n f_setlk = n ≡ 258
CmdIs n f_setlkw = n ≡ 259

abbrev pub TypeIs : ℕ → HostLockType → Type 0
TypeIs n f_rdlck = n ≡ 0
TypeIs n f_wrlck = n ≡ 1
TypeIs n f_unlck = n ≡ 2
TypeIs n (other_type m) = ⊥

abbrev pub WhenceIs : ℕ → HostWhence → Type 0
WhenceIs n seek_set = n ≡ 0
WhenceIs n seek_cur = n ≡ 1
WhenceIs n seek_end = n ≡ 2
WhenceIs n (other_whence m) = ⊥

-- The lock that the app describes.
pub record Asks (info : FcntlFlock) (lock : HostFlock) : Type 0 where
  pub type_asked : TypeIs info.l_type lock.l_type
  pub whence_asked : WhenceIs info.l_whence lock.l_whence
  pub start_asked : lock.l_start ≡ info.l_start
  pub len_asked : lock.l_len ≡ info.l_len

-- `after` has the host's answer to GETLK: each field of the lock in the app's field of that name. A type
-- or whence that is none of the three is handed on as it is.
pub record IsFound (info : FcntlFlock) (ret : ℕ) (lock : HostFlock) (after : FcntlFlock)
    : Type 0 where
  pub same_cmd : after.cmd ≡ info.cmd
  pub ret_found : after.ret_value ≡ ret
  pub type_found : TypeIs after.l_type lock.l_type ⊎ (lock.l_type ≡ other_type after.l_type)
  pub whence_found :
      WhenceIs after.l_whence lock.l_whence ⊎ (lock.l_whence ≡ other_whence after.l_whence)
  pub start_found : after.l_start ≡ lock.l_start
  pub len_found : after.l_len ≡ lock.l_len

-- Why a call whose descriptor is good is refused before the host's fcntl.
pub data Refuses (whole : Bool) (info : FcntlFlock) : Errno → Type 0 where
  unknown_cmd : ((c : HostLockCmd) → ¬ CmdIs info.cmd c) → Refuses whole info einval
  not_whole : whole ≡ false → Refuses whole info efault
  unknown_lock : ((lock : HostFlock) → ¬ Asks info lock) → Refuses whole info einval

module _ {W : Type 0} (h : FsHost W) where
  -- The call of the host's fcntl: `asked` is what the app asks for, `answer` what the host answers.
  pub record Ran (whole : Bool) (info : FcntlFlock) (osfd : ℕ) (w : W) (cmd : HostLockCmd)
      (answer : CRet (ℕ × HostFlock)) (v : W) : Type 0 where
    pub all_in_memory : whole ≡ true
    pub of_cmd : CmdIs info.cmd cmd
    pub asked : HostFlock
    pub of_lock : Asks info asked
    pub answered : h.fcntl osfd cmd asked w ≡ (answer, v)

  -- What a call on the file `osfd` does.
  pub data OnFile (whole : Bool) (info : FcntlFlock) (osfd : ℕ) (w : W) : Answer W → Type 0 where
    refused :
        (e : Errno)
        → Refuses whole info e
        → OnFile whole info osfd w ((e, record info { ret_value = 0 }), w)
    failed :
        (cmd : HostLockCmd) (n : ℕ) (v : W)
        → Ran whole info osfd w cmd (fails n) v
        → OnFile whole info osfd w (
          (
            convert_errno_to_wasi_errno h.sock.errnos (pos n),
            record info { ret_value = 2 ^ 32 - 1 },
          ),
          v,
        )
    was_set :
        (cmd : HostLockCmd) (a : ℕ × HostFlock) (v : W)
        → Ran whole info osfd w cmd (returns a) v
        → ¬ CmdIs info.cmd f_getlk
        → OnFile whole info osfd w ((success, record info { ret_value = a.0 }), v)
    was_found :
        (a : ℕ × HostFlock) (v : W) (after : FcntlFlock)
        → Ran whole info osfd w f_getlk (returns a) v
        → IsFound info a.0 a.1 after
        → OnFile whole info osfd w ((success, after), v)

  -- What a call does: nothing to the structure where that is not the app's or the descriptor is bad.
  pub data Changes (fd : ℕ) (generic whole : Bool) (info : FcntlFlock) (w : W)
      : Answer W → Type 0 where
    not_in_memory : generic ≡ false → Changes fd generic whole info w ((efault, info), w)
    bad_fd :
        (e : Errno)
        → (get_host_fd_by_app_fd h.sock fd w).0 ≡ raise e
        → Changes fd generic whole info w ((e, info), (get_host_fd_by_app_fd h.sock fd w).1)
    on_file :
        (f : ℕ × FdWrap) (after : Answer W)
        → (get_host_fd_by_app_fd h.sock fd w).0 ≡ done f
        → OnFile whole info f.0 (get_host_fd_by_app_fd h.sock fd w).1 after
        → Changes fd generic whole info w after

lock_cmd-CmdIs : (n : ℕ) (c : HostLockCmd) → lock_cmd n ≡ some c → CmdIs n c
unfolding lock_cmd
lock_cmd-CmdIs n f_getlk e = ground (arith, e)
lock_cmd-CmdIs n f_setlk e = ground (arith, e)
lock_cmd-CmdIs n f_setlkw e = ground (arith, e)

unknown_cmd_lem : (n : ℕ) → lock_cmd n ≡ none → (c : HostLockCmd) → ¬ CmdIs n c
unfolding lock_cmd
unknown_cmd_lem n e f_getlk is_cmd = ground (arith, e, is_cmd)
unknown_cmd_lem n e f_setlk is_cmd = ground (arith, e, is_cmd)
unknown_cmd_lem n e f_setlkw is_cmd = ground (arith, e, is_cmd)

host_lock_type-TypeIs : (n : ℕ) (t : HostLockType) → host_lock_type n ≡ some t → TypeIs n t
unfolding host_lock_type
host_lock_type-TypeIs n f_rdlck e = ground (arith, e)
host_lock_type-TypeIs n f_wrlck e = ground (arith, e)
host_lock_type-TypeIs n f_unlck e = ground (arith, e)
host_lock_type-TypeIs n (other_type m) e = ground (arith, e)

unknown_type : (n : ℕ) → host_lock_type n ≡ none → (t : HostLockType) → ¬ TypeIs n t
unfolding host_lock_type
unknown_type n e f_rdlck is_type = ground (arith, e, is_type)
unknown_type n e f_wrlck is_type = ground (arith, e, is_type)
unknown_type n e f_unlck is_type = ground (arith, e, is_type)
unknown_type n e (other_type m) is_type = is_type

host_whence-WhenceIs : (n : ℕ) (v : HostWhence) → host_whence n ≡ some v → WhenceIs n v
unfolding host_whence
host_whence-WhenceIs n seek_set e = ground (arith, e)
host_whence-WhenceIs n seek_cur e = ground (arith, e)
host_whence-WhenceIs n seek_end e = ground (arith, e)
host_whence-WhenceIs n (other_whence m) e = ground (arith, e)

unknown_whence : (n : ℕ) → host_whence n ≡ none → (v : HostWhence) → ¬ WhenceIs n v
unfolding host_whence
unknown_whence n e seek_set is_whence = ground (arith, e, is_whence)
unknown_whence n e seek_cur is_whence = ground (arith, e, is_whence)
unknown_whence n e seek_end is_whence = ground (arith, e, is_whence)
unknown_whence n e (other_whence m) is_whence = is_whence

app_lock_type-TypeIs :
    (t : HostLockType) → TypeIs (app_lock_type t) t ⊎ (t ≡ other_type (app_lock_type t))
unfolding app_lock_type
app_lock_type-TypeIs f_rdlck = inl refl
app_lock_type-TypeIs f_wrlck = inl refl
app_lock_type-TypeIs f_unlck = inl refl
app_lock_type-TypeIs (other_type m) = inr refl

app_whence-WhenceIs :
    (v : HostWhence) → WhenceIs (app_whence v) v ⊎ (v ≡ other_whence (app_whence v))
unfolding app_whence
app_whence-WhenceIs seek_set = inl refl
app_whence-WhenceIs seek_cur = inl refl
app_whence-WhenceIs seek_end = inl refl
app_whence-WhenceIs (other_whence m) = inr refl

-- A structure either describes no lock, or the one that FDFcntl builds.
asked_or_unknown :
    (info : FcntlFlock)
    → ((host_flock info ≡ none) × ((lock : HostFlock) → ¬ Asks info lock))
      ⊎ ((lock : HostFlock) × (host_flock info ≡ some lock) × Asks info lock)
unfolding host_flock
asked_or_unknown info = elim (Option-cases (host_lock_type info.l_type)) [
  | inl no_type ↦ inl (
    rw (no_type, host_flock) refl,
    λ lock asks. unknown_type info.l_type no_type lock.l_type asks.type_asked,
  )
  | inr (t, type) ↦ elim (Option-cases (host_whence info.l_whence)) [
    | inl no_whence ↦ inl (
      rw (type, no_whence, host_flock) refl,
      λ lock asks. unknown_whence info.l_whence no_whence lock.l_whence asks.whence_asked,
    )
    | inr (v, whence) ↦ inr (
      record { l_type = t; l_whence = v; l_start = info.l_start; l_len = info.l_len },
      rw (type, whence, host_flock) refl,
      record {
        type_asked = host_lock_type-TypeIs info.l_type t type;
        whence_asked = host_whence-WhenceIs info.l_whence v whence;
        start_asked = refl;
        len_asked = refl;
      },
    )
  ]
]

app_flock-IsFound :
    (info : FcntlFlock) (a : ℕ × HostFlock)
    → IsFound info a.0 a.1 (app_flock a.1 (record info { ret_value = a.0 }))
unfolding app_flock
app_flock-IsFound info a = record {
  same_cmd = refl;
  ret_found = refl;
  type_found = app_lock_type-TypeIs a.1.l_type;
  whence_found = app_whence-WhenceIs a.1.l_whence;
  start_found = refl;
  len_found = refl;
}

module _ {W : Type 0} (h : FsHost W) where
  after_fcntl-OnFile :
      (whole : Bool) (info : FcntlFlock) (osfd : ℕ) (w v : W) (cmd : HostLockCmd)
      (c : CRet (ℕ × HostFlock))
      → Ran h whole info osfd w cmd c v
      → OnFile h whole info osfd w (after_fcntl h cmd (record info { ret_value = 0 }) c v)
  unfolding after_fcntl
  after_fcntl-OnFile whole info osfd w v cmd (fails n) ran = failed cmd n v ran
  after_fcntl-OnFile whole info osfd w v f_getlk (returns a) ran =
      was_found a v _ ran (app_flock-IsFound info a)
  after_fcntl-OnFile whole info osfd w v f_setlk (returns a) ran =
      was_set f_setlk a v ran (λ e. omega (arith, e, ran.of_cmd))
  after_fcntl-OnFile whole info osfd w v f_setlkw (returns a) ran =
      was_set f_setlkw a v ran (λ e. omega (arith, e, ran.of_cmd))

  lock_file-OnFile :
      (whole : Bool) (info : FcntlFlock) (osfd : ℕ) (w : W) (cmd : HostLockCmd)
      → CmdIs info.cmd cmd
      → OnFile h whole info osfd w (lock_file h osfd whole cmd (record info { ret_value = 0 }) w)
  unfolding lock_file host_flock
  lock_file-OnFile false info osfd w cmd is_cmd = refused efault (not_whole refl)
  lock_file-OnFile true info osfd w cmd is_cmd = elim (asked_or_unknown info) [
    | inl (nothing, unknown) ↦ rw (nothing, lock_file) (refused einval (unknown_lock unknown))
    | inr (lock, builds, asks) ↦
        let ran = h.fcntl osfd cmd lock w in
        rw (builds, lock_file)
          (after_fcntl-OnFile true info osfd w ran.1 cmd ran.0 (record {
            all_in_memory = refl;
            of_cmd = is_cmd;
            asked = lock;
            of_lock = asks;
            answered = refl;
          }))
  ]

  fcntl_at-OnFile :
      (whole : Bool) (info : FcntlFlock) (osfd : ℕ) (w : W)
      → OnFile h whole info osfd w (fcntl_at h osfd whole (record info { ret_value = 0 }) w)
  unfolding fcntl_at
  fcntl_at-OnFile whole info osfd w = elim (Option-cases (lock_cmd info.cmd)) [
    | inl nothing ↦
        rw (nothing, fcntl_at) (refused einval (unknown_cmd (unknown_cmd_lem info.cmd nothing)))
    | inr (cmd, known) ↦
        rw (known, fcntl_at)
          (lock_file-OnFile whole info osfd w cmd (lock_cmd-CmdIs info.cmd cmd known))
  ]

  -- On every branch of FDFcntl: a structure that is not the app's and one with a bad descriptor stay as
  -- they are. A command or a lock that is unknown, and a lock command whose structure is not the app's as
  -- a whole, are refused without a call of the host, and ret_value is 0 then. Otherwise the host's fcntl is
  -- called once, with the command and the lock that the structure describes. If it fails, the call returns
  -- its errno, translated, and ret_value is -1; else the call succeeds, ret_value is what fcntl returned,
  -- and GETLK writes into each field of the lock what fcntl answered there. No other field changes on any
  -- branch.
  pub fd_fcntl-Changes :
      (fd : ℕ) (generic whole : Bool) (info : FcntlFlock) (w : W)
      → Changes h fd generic whole info w (fd_fcntl h fd generic whole info w)
  unfolding fd_fcntl
  fd_fcntl-Changes fd false whole info w = not_in_memory refl
  fd_fcntl-Changes fd true whole info w =
      elim (Result-cases (get_host_fd_by_app_fd h.sock fd w).0) [
        | inl (f, ok) ↦ rw (ok, fd_fcntl) (on_file f _ ok (fcntl_at-OnFile whole info f.0 _))
        | inr (x, bad) ↦ rw (bad, fd_fcntl) (bad_fd x bad)
      ]
