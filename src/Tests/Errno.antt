-- ===== src/Tests/Errno.antt =====
-- The conversion of error numbers (Errno, Errno/Laws) on a host that numbers its macros in order.
use wamr_ext.Prelude.{List, [], ap, arith, refl, suc, sym, true, zero, ℕ, ◌<◌, ◌∙◌, ◌∷◌, ◌≡◌, ◌≢◌}
use wamr_ext.Prelude.Int.{pos}
use wamr_ext.Errno.{
  Errno, HostErrnos, convert_errno_to_wasi_errno, e2big, eacces, eaddrinuse, eaddrnotavail,
  eafnosupport, eagain, ealready, ebadf, ebadmsg, ebusy, ecanceled, echild, econnaborted,
  econnrefused, econnreset, edeadlk, edestaddrreq, edom, edquot, eexist, efault, efbig,
  ehostunreach, eidrm, eilseq, einprogress, eintr, einval, eio, eisconn, eisdir, eloop, emfile,
  emlink, emsgsize, emultihop, enametoolong, enetdown, enetreset, enetunreach, enfile, enobufs,
  enodev, enoent, enoexec, enolck, enolink, enomem, enomsg, enoprotoopt, enospc, enosys,
  enotcapable, enotconn, enotdir, enotempty, enotrecoverable, enotsock, enotsup, enotty, enxio,
  eoverflow, eownerdead, eperm, epipe, eproto, eprotonosupport, eprototype, erange, erofs, espipe,
  esrch, estale, etimedout, etxtbsy, exdev, success,
}
use wamr_ext.Errno.Laws.{IsDistinct, convert-value}

abbrev pub number_of : Errno → ℕ
number_of success = 0
number_of e2big = 1
number_of eacces = 2
number_of eaddrinuse = 3
number_of eaddrnotavail = 4
number_of eafnosupport = 5
number_of eagain = 6
number_of ealready = 7
number_of ebadf = 8
number_of ebadmsg = 9
number_of ebusy = 10
number_of ecanceled = 11
number_of echild = 12
number_of econnaborted = 13
number_of econnrefused = 14
number_of econnreset = 15
number_of edeadlk = 16
number_of edestaddrreq = 17
number_of edom = 18
number_of edquot = 19
number_of eexist = 20
number_of efault = 21
number_of efbig = 22
number_of ehostunreach = 23
number_of eidrm = 24
number_of eilseq = 25
number_of einprogress = 26
number_of eintr = 27
number_of einval = 28
number_of eio = 29
number_of eisconn = 30
number_of eisdir = 31
number_of eloop = 32
number_of emfile = 33
number_of emlink = 34
number_of emsgsize = 35
number_of emultihop = 36
number_of enametoolong = 37
number_of enetdown = 38
number_of enetreset = 39
number_of enetunreach = 40
number_of enfile = 41
number_of enobufs = 42
number_of enodev = 43
number_of enoent = 44
number_of enoexec = 45
number_of enolck = 46
number_of enolink = 47
number_of enomem = 48
number_of enomsg = 49
number_of enoprotoopt = 50
number_of enospc = 51
number_of enosys = 52
number_of enotcapable = 53
number_of enotconn = 54
number_of enotdir = 55
number_of enotempty = 56
number_of enotrecoverable = 57
number_of enotsock = 58
number_of enotsup = 59
number_of enotty = 60
number_of enxio = 61
number_of eoverflow = 62
number_of eownerdead = 63
number_of eperm = 64
number_of epipe = 65
number_of eproto = 66
number_of eprotonosupport = 67
number_of eprototype = 68
number_of erange = 69
number_of erofs = 70
number_of espipe = 71
number_of esrch = 72
number_of estale = 73
number_of etimedout = 74
number_of etxtbsy = 75
number_of exdev = 76

abbrev pub test_errnos : HostErrnos
test_errnos = record {
  value = number_of;
  has_enotcapable = true;
  eopnotsupp = 59;
  ewouldblock = 100;
}

abbrev all_errnos : List Errno
all_errnos =
    success ∷ e2big ∷ eacces ∷ eaddrinuse ∷ eaddrnotavail ∷ eafnosupport ∷ eagain ∷ ealready ∷ ebadf
    ∷ ebadmsg ∷ ebusy ∷ ecanceled ∷ echild ∷ econnaborted ∷ econnrefused ∷ econnreset ∷ edeadlk
    ∷ edestaddrreq ∷ edom ∷ edquot ∷ eexist ∷ efault ∷ efbig ∷ ehostunreach ∷ eidrm ∷ eilseq
    ∷ einprogress ∷ eintr ∷ einval ∷ eio ∷ eisconn ∷ eisdir ∷ eloop ∷ emfile ∷ emlink ∷ emsgsize
    ∷ emultihop ∷ enametoolong ∷ enetdown ∷ enetreset ∷ enetunreach ∷ enfile ∷ enobufs ∷ enodev
    ∷ enoent ∷ enoexec ∷ enolck ∷ enolink ∷ enomem ∷ enomsg ∷ enoprotoopt ∷ enospc ∷ enosys
    ∷ enotcapable ∷ enotconn ∷ enotdir ∷ enotempty ∷ enotrecoverable ∷ enotsock ∷ enotsup ∷ enotty
    ∷ enxio ∷ eoverflow ∷ eownerdead ∷ eperm ∷ epipe ∷ eproto ∷ eprotonosupport ∷ eprototype
    ∷ erange ∷ erofs ∷ espipe ∷ esrch ∷ estale ∷ etimedout ∷ etxtbsy ∷ exdev ∷ []

abbrev nth : ℕ → List Errno → Errno
nth n [] = success
nth zero (e ∷ es) = e
nth (suc n) (e ∷ es) = nth n es

nth-number_of : (e : Errno) → nth (number_of e) all_errnos ≡ e
nth-number_of success = refl
nth-number_of _ = refl

number_of-pos : (e : Errno) → e ≢ success → 0 < number_of e
number_of-pos success n = absurd (n refl)
number_of-pos _ n = omega arith

test_errnos-IsDistinct : IsDistinct test_errnos
test_errnos-IsDistinct = record {
  positive = number_of-pos;
  injective = λ a b _ _ q. sym (nth-number_of a) ∙ (ap (λ n. nth n all_errnos) q ∙ nth-number_of b);
}

convert-value_example : convert_errno_to_wasi_errno test_errnos (pos 28) ≡ einval
convert-value_example =
    convert-value test_errnos test_errnos-IsDistinct einval (λ e. absurd (cc e)) (λ e. refl)
