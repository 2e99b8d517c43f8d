-- ===== src/Files.antt =====
-- src/wamr_ext_lib/WasiFSExt.cpp: the size of a file system, and locks on files. uvwasi's descriptor table
-- is that of the sockets' host; libuv's statfs and the host's fcntl are the rest of the parameter `FsHost`.
pub mod Locks
use wamr_ext.Prelude.{
  Bool, Option, false, if◌then◌else◌, none, not, some, true, ℕ, ◌%◌, ◌-◌, ◌==◌, ◌^◌,
}
use wamr_ext.Prelude.Int.{pos}
use wamr_ext.Prelude.Text.{Text}
use wamr_ext.Errno.{Errno, convert_errno_to_wasi_errno, efault, einval, success}
use wamr_ext.Exec.{
  CRet, Exec, Result, done, fails, lift, pure, raise, require, returns, ◌>>=◌, ◌>>◌,
}
use wamr_ext.Socket.{Host}
use wamr_ext.Socket.Open.{get_host_fd_by_app_fd}

-- wamr_statvfs, and the fields of uv_statfs_t that are read.
pub record StatVfs : Type 0 where
  pub f_bsize : ℕ
  pub f_blocks : ℕ
  pub f_bfree : ℕ
  pub f_bavail : ℕ

-- wamr_fcntl_flock, whose first two fields are wamr_fcntl_generic. Signed fields are their bit patterns.
pub record FcntlFlock : Type 0 where
  pub cmd : ℕ
  pub ret_value : ℕ
  pub l_type : ℕ
  pub l_whence : ℕ
  pub l_start : ℕ
  pub l_len : ℕ

-- The host's constants by their names, or another number as its bit pattern.
pub data HostLockType : Type 0 where
  f_rdlck f_wrlck f_unlck : HostLockType
  other_type : ℕ → HostLockType

pub data HostWhence : Type 0 where
  seek_set seek_cur seek_end : HostWhence
  other_whence : ℕ → HostWhence

pub data HostLockCmd : Type 0 where
  f_getlk f_setlk f_setlkw : HostLockCmd

-- host_flock_t
pub record HostFlock : Type 0 where
  pub l_type : HostLockType
  pub l_whence : HostWhence
  pub l_start : ℕ
  pub l_len : ℕ

-- `statfs` is uv_fs_statfs with its error translated by uvwasi, and the clean-up of its request.
pub record FsHost (W : Type 0) : Type 0 where
  pub sock : Host W
  pub statfs : Text → W → Result StatVfs × W
  pub fcntl : ℕ → HostLockCmd → HostFlock → W → CRet (ℕ × HostFlock) × W

module _ {W : Type 0} (h : FsHost W) where
  -- FDStatVFS: what is written to the app.
  unfoldable pub fd_stat_vfs : (fd : ℕ) (valid : Bool) → Exec W StatVfs
  fd_stat_vfs fd valid = do
    require valid efault
    found ← get_host_fd_by_app_fd h.sock fd
    stat ← h.statfs found.1.real_path
    pure (record {
      f_bsize = stat.f_bsize % 2 ^ 32;
      f_blocks = stat.f_blocks;
      f_bfree = stat.f_bfree;
      f_bavail = stat.f_bavail;
    })

-- __WASI_F_GETLK and the other two
unfoldable pub lock_cmd : ℕ → Option HostLockCmd
lock_cmd cmd =
    if cmd == 257
    then some f_getlk
    else if cmd == 258
    then some f_setlk
    else if cmd == 259
    then some f_setlkw
    else none

-- __WASI_F_RDLCK and the other two
unfoldable pub host_lock_type : ℕ → Option HostLockType
host_lock_type type =
    if type == 0
    then some f_rdlck
    else if type == 1
    then some f_wrlck
    else if type == 2
    then some f_unlck
    else none

-- UVWASI_WHENCE_SET and the other two
unfoldable pub host_whence : ℕ → Option HostWhence
host_whence whence =
    if whence == 0
    then some seek_set
    else if whence == 1
    then some seek_cur
    else if whence == 2
    then some seek_end
    else none

unfoldable pub app_lock_type : HostLockType → ℕ
app_lock_type f_rdlck = 0
app_lock_type f_wrlck = 1
app_lock_type f_unlck = 2
app_lock_type (other_type n) = n

unfoldable pub app_whence : HostWhence → ℕ
app_whence seek_set = 0
app_whence seek_cur = 1
app_whence seek_end = 2
app_whence (other_whence n) = n

-- hostFlock; `none` is EINVAL.
unfoldable pub host_flock : FcntlFlock → Option HostFlock
unfolding host_lock_type host_whence
host_flock info = elim (host_lock_type info.l_type) [
  | none ↦ none
  | some type ↦ elim (host_whence info.l_whence) [
    | none ↦ none
    | some whence ↦
        some
          (record { l_type = type; l_whence = whence; l_start = info.l_start; l_len = info.l_len })
  ]
]

-- What GETLK writes to the app.
unfoldable pub app_flock : HostFlock → FcntlFlock → FcntlFlock
unfolding app_lock_type app_whence
app_flock lock info = record info {
  l_start = lock.l_start;
  l_len = lock.l_len;
  l_whence = app_whence lock.l_whence;
  l_type = app_lock_type lock.l_type;
}

abbrev pub Answer : Type 0 → Type 0
Answer W = (Errno × FcntlFlock) × W

module _ {W : Type 0} (h : FsHost W) where
  abbrev pub written : HostLockCmd → HostFlock → FcntlFlock → FcntlFlock
  written f_getlk lock info = app_flock lock info
  written _ lock info = info

  -- After fcntl.
  unfoldable pub after_fcntl : HostLockCmd → FcntlFlock → CRet (ℕ × HostFlock) → W → Answer W
  unfolding app_flock
  after_fcntl cmd info (fails n) w = (
    (convert_errno_to_wasi_errno h.sock.errnos (pos n), record info { ret_value = 2 ^ 32 - 1 }),
    w,
  )
  after_fcntl cmd info (returns r) w =
      ((success, written cmd r.1 (record info { ret_value = r.0 })), w)

  -- The case of the three commands; `whole` tells whether all of wamr_fcntl_flock is the app's.
  unfoldable pub lock_file : ℕ → (whole : Bool) → HostLockCmd → FcntlFlock → W → Answer W
  unfolding host_flock after_fcntl
  lock_file osfd false cmd info w = ((efault, info), w)
  lock_file osfd true cmd info w = elim (host_flock info) [
    | none ↦ ((einval, info), w)
    | some lock ↦ let (r, w') = h.fcntl osfd cmd lock w in after_fcntl cmd info r w'
  ]

  unfoldable pub fcntl_at : ℕ → Bool → FcntlFlock → W → Answer W
  unfolding lock_cmd lock_file
  fcntl_at osfd whole info w = elim (lock_cmd info.cmd) [
    | none ↦ ((einval, info), w)
    | some cmd ↦ lock_file osfd whole cmd info w
  ]

  -- FDFcntl: the code, and what stands in the app's memory then.
  unfoldable pub fd_fcntl : (fd : ℕ) (generic whole : Bool) → FcntlFlock → W → Answer W
  unfolding fcntl_at get_host_fd_by_app_fd
  fd_fcntl fd false whole info w = ((efault, info), w)
  fd_fcntl fd true whole info w =
      let (found, w') = get_host_fd_by_app_fd h.sock fd w in
      elim found [
        | raise e ↦ ((e, info), w')
        | done f ↦ fcntl_at f.0 whole (record info { ret_value = 0 }) w'
      ]
