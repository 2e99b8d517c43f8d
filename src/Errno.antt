-- ===== src/Errno.antt =====
-- src/base/Utility.cpp, ConvertErrnoToWasiErrno: host errno numbers to WASI error codes. The WASI
-- codes are a data type with the names that the source writes after UVWASI_; the numbers of the
-- host's macros depend on the platform and are the parameter `HostErrnos`.
pub mod Laws
use wamr_ext.Prelude.{
  ℕ, zero, ◌++◌, Bool, Option, none, some, List, [], ◌∷◌, map, ◌==◌, if◌then◌else◌,
}
use wamr_ext.Prelude.Int.{ℤ, pos, negsuc}

-- uvwasi_errno_t; `success` is 0.
pub data Errno : Type 0 where
  success e2big eacces eaddrinuse eaddrnotavail eafnosupport eagain ealready ebadf ebadmsg ebusy
        ecanceled echild econnaborted econnrefused econnreset edeadlk edestaddrreq edom edquot
        eexist efault efbig ehostunreach eidrm eilseq einprogress eintr einval eio eisconn eisdir
        eloop emfile emlink emsgsize emultihop enametoolong enetdown enetreset enetunreach enfile
        enobufs enodev enoent enoexec enolck enolink enomem enomsg enoprotoopt enospc enosys
        enotcapable enotconn enotdir enotempty enotrecoverable enotsock enotsup enotty enxio
        eoverflow eownerdead eperm epipe eproto eprotonosupport eprototype erange erofs espipe esrch
        estale etimedout etxtbsy exdev :
      Errno

pub Errno-discrete : Discrete Errno
Errno-discrete = hlevel

-- `value e` is the host's macro of that name. A platform may lack ENOTCAPABLE, and may give
-- EOPNOTSUPP and EWOULDBLOCK numbers of their own.
pub record HostErrnos : Type 0 where
  pub value : Errno → ℕ
  pub has_enotcapable : Bool
  pub eopnotsupp : ℕ
  pub ewouldblock : ℕ

-- The entries above the first #ifdef, and those below it.
abbrev pub before_notcapable : List Errno
before_notcapable =
    e2big ∷ eacces ∷ eaddrinuse ∷ eaddrnotavail ∷ eafnosupport ∷ eagain ∷ ealready ∷ ebadf ∷ ebadmsg
    ∷ ebusy ∷ ecanceled ∷ echild ∷ econnaborted ∷ econnrefused ∷ econnreset ∷ edeadlk ∷ edestaddrreq
    ∷ edom ∷ edquot ∷ eexist ∷ efault ∷ efbig ∷ ehostunreach ∷ eidrm ∷ eilseq ∷ einprogress ∷ eintr
    ∷ einval ∷ eio ∷ eisconn ∷ eisdir ∷ eloop ∷ emfile ∷ emlink ∷ emsgsize ∷ emultihop
    ∷ enametoolong ∷ enetdown ∷ enetreset ∷ enetunreach ∷ enfile ∷ enobufs ∷ enodev ∷ enoent
    ∷ enoexec ∷ enolck ∷ enolink ∷ enomem ∷ enomsg ∷ enoprotoopt ∷ enospc ∷ enosys ∷ []

abbrev pub after_notcapable : List Errno
after_notcapable =
    enotconn ∷ enotdir ∷ enotempty ∷ enotrecoverable ∷ enotsock ∷ enotsup ∷ enotty ∷ enxio
    ∷ eoverflow ∷ eownerdead ∷ eperm ∷ epipe ∷ eproto ∷ eprotonosupport ∷ eprototype ∷ erange
    ∷ erofs ∷ espipe ∷ esrch ∷ estale ∷ etimedout ∷ etxtbsy ∷ exdev ∷ []

-- The names under X(v).
unfoldable pub named : HostErrnos → List Errno
named h =
    before_notcapable ++ ((if h.has_enotcapable then enotcapable ∷ [] else []) ++ after_notcapable)

-- The aliases, where their numbers differ.
unfoldable pub aliases : HostErrnos → List (ℕ × Errno)
aliases h =
    (if h.eopnotsupp == h.value enotsup then [] else (h.eopnotsupp, enotsup) ∷ [])
    ++ (if h.ewouldblock == h.value eagain then [] else (h.ewouldblock, eagain) ∷ [])

-- errors.find(error): of entries with one number the map keeps the first.
unfoldable pub find : ℕ → List (ℕ × Errno) → Option Errno
find n [] = none
find n ((k, e) ∷ entries) = if k == n then some e else find n entries

abbrev pub or_enosys : Option Errno → Errno
or_enosys none = enosys
or_enosys (some e) = e

abbrev pub numbered : HostErrnos → List Errno → List (ℕ × Errno)
numbered h = map (λ e. (h.value e, e))

unfoldable pub convert_errno_to_wasi_errno : HostErrnos → ℤ → Errno
convert_errno_to_wasi_errno h (pos zero) = success
convert_errno_to_wasi_errno h (negsuc n) = enosys
convert_errno_to_wasi_errno h (pos n) = or_enosys (find n (numbered h (named h) ++ aliases h))
