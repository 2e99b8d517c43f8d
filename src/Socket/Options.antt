-- ===== src/Socket/Options.antt =====
-- MapWasiSockOpt, SockGetOpt and SockSetOpt (src/wamr_ext_lib/WasiSocketExt.cpp). `valid` is whether the
-- runtime finds the app's buffer inside the instance's memory; the buffer is the list of its bytes, and
-- its length is *appOptBufLen or appOptBufLen.
use wamr_ext.Prelude.Int.{negsuc, pos, ℤ}
use wamr_ext.Prelude.{Bool, List, [], if◌then◌else◌, length, ltb, ℕ, ◌++◌, ◌-◌, ◌==◌, ◌^◌, ◌∷◌}
use wamr_ext.Errno.{convert_errno_to_wasi_errno, efault, einval, enoprotoopt}
use wamr_ext.Socket.{
  Host, OptLevel, OptName, OptValType, OptVal, ip_ttl, ipv6_unicast_hops, ipv6_v6only, linger,
  so_broadcast, so_dontroute, so_error, so_keepalive, so_linger, so_rcvbuf, so_rcvtimeo,
  so_reuseaddr, so_reuseport, so_sndbuf, so_sndtimeo, so_type, sol_ip, sol_ipv6, sol_socket,
  sol_tcp, tcp_nodelay, timeval, uint32,
}
use wamr_ext.Socket.Open.{get_host_socket_fd}
use wamr_ext.Socket.Bytes.{to_le, of_le, copy_over}
use wamr_ext.Socket.Address.{drop}
use wamr_ext.Exec.{Exec, Result, ◌>>=◌, ◌>>◌, done, lift, pure, raise, require, sys}

-- The switch of one level: the options by their WASI numbers.
abbrev pub OptTable : Type 0
OptTable = List (ℕ × OptName × OptValType)

abbrev pub socket_opts : Bool → OptTable
socket_opts has_reuseport =
    (2, so_reuseaddr, uint32)
    ∷ (3, so_type, uint32)
    ∷ (4, so_error, uint32)
    ∷ (5, so_dontroute, uint32)
    ∷ (6, so_broadcast, uint32)
    ∷ (7, so_sndbuf, uint32)
    ∷ (8, so_rcvbuf, uint32)
    ∷ (9, so_keepalive, uint32)
    ∷ (13, so_linger, linger)
    ∷ (20, so_rcvtimeo, timeval)
    ∷ (21, so_sndtimeo, timeval)
    ∷ (if has_reuseport then (15, so_reuseport, uint32) ∷ [] else [])

abbrev pub tcp_opts : OptTable
tcp_opts = (1, tcp_nodelay, uint32) ∷ []

abbrev pub ip_opts : OptTable
ip_opts = (2, ip_ttl, uint32) ∷ []

abbrev pub ipv6_opts : OptTable
ipv6_opts = (26, ipv6_v6only, uint32) ∷ (16, ipv6_unicast_hops, uint32) ∷ []

abbrev pub opt_in : OptLevel → ℕ → OptTable → Result (OptLevel × OptName × OptValType)
opt_in level name [] = raise einval
opt_in level name ((n, host_name, t) ∷ opts) =
    let rest = opt_in level name opts in if n == name then done (level, host_name, t) else rest

unfoldable pub map_wasi_sock_opt :
    Bool → (level name : ℕ) → Result (OptLevel × OptName × OptValType)
map_wasi_sock_opt has_reuseport level name =
    if level == 2147483647
    then opt_in sol_socket name (socket_opts has_reuseport)
    else if level == 6
    then opt_in sol_tcp name tcp_opts
    else if level == 0
    then opt_in sol_ip name ip_opts
    else if level == 41
    then opt_in sol_ipv6 name ipv6_opts
    else raise enoprotoopt

-- The size of the app's struct for a type.
unfoldable pub app_size : OptValType → ℕ
app_size uint32 = 4
app_size timeval = 16
app_size linger = 8

-- The app's struct: tempAppTimeval, tempAppLinger or intVal.
unfoldable pub app_bytes : (t : OptValType) → OptVal t → List ℕ
unfolding to_le
app_bytes uint32 n = to_le 4 n
app_bytes timeval (tv_sec, tv_usec) = to_le 8 tv_sec ++ to_le 8 tv_usec
app_bytes linger (l_onoff, l_linger) = to_le 4 l_onoff ++ to_le 4 l_linger

-- An int from its bit pattern.
abbrev pub as_int : ℕ → ℤ
as_int n = if ltb n (2 ^ 31) then pos n else negsuc (2 ^ 32 - 1 - n)

-- The value of SO_ERROR is converted.
abbrev pub reported : {W : Type 0} → Host W → OptName → (t : OptValType) → OptVal t → OptVal t
reported h so_error uint32 n = h.wasi_code (convert_errno_to_wasi_errno h.errnos (as_int n))
reported h name t v = v

-- *appOptBufLen after the call: the size of the struct, if the buffer is larger.
abbrev pub new_len : OptValType → List ℕ → ℕ
new_len t buf = if ltb (app_size t) (length buf) then app_size t else length buf

-- The value as the app reads it.
unfoldable pub opt_val_of_app : (t : OptValType) → List ℕ → Result (OptVal t)
unfolding app_size of_le
opt_val_of_app uint32 buf = if ltb (length buf) 4 then raise einval else done (of_le 4 buf)
opt_val_of_app timeval buf =
    if ltb (length buf) 16 then raise einval else done (of_le 8 buf, of_le 8 (drop 8 buf))
opt_val_of_app linger buf =
    if ltb (length buf) 8 then raise einval else done (of_le 4 buf, of_le 4 (drop 4 buf))

module _ {W : Type 0} (h : Host W) where
  -- SO_TYPE is answered by the descriptor table.
  abbrev pub host_opt_val : ℕ → ℕ → OptLevel → OptName → (t : OptValType) → Exec W (OptVal t)
  host_opt_val fd wasi_sock_type sol_socket so_type uint32 = pure wasi_sock_type
  host_opt_val fd wasi_sock_type level name t = sys h.errnos (h.getsockopt fd level name t)

  -- The result is *appOptBufLen and the buffer.
  unfoldable pub sock_get_opt :
      (app_sock_fd level name : ℕ) → (valid : Bool) → List ℕ → Exec W (ℕ × List ℕ)
  unfolding get_host_socket_fd map_wasi_sock_opt app_size app_bytes copy_over
  sock_get_opt app_sock_fd level name valid buf = do
    require valid efault
    opt ← lift (map_wasi_sock_opt h.has_reuseport level name)
    found ← get_host_socket_fd h app_sock_fd
    v ← host_opt_val found.0 found.1 opt.0 opt.1 opt.2
    pure (
      new_len opt.2 buf,
      copy_over (new_len opt.2 buf) (app_bytes opt.2 (reported h opt.1 opt.2 v)) buf,
    )

  unfoldable pub sock_set_opt :
      (app_sock_fd level name : ℕ) → (valid : Bool) → List ℕ → Exec W (Unit {0})
  unfolding get_host_socket_fd map_wasi_sock_opt opt_val_of_app
  sock_set_opt app_sock_fd level name valid buf = do
    require valid efault
    opt ← lift (map_wasi_sock_opt h.has_reuseport level name)
    v ← lift (opt_val_of_app opt.2 buf)
    found ← get_host_socket_fd h app_sock_fd
    sys h.errnos (h.setsockopt found.0 opt.0 opt.1 opt.2 v)
