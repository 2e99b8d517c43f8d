-- ===== src/Socket/Open.antt =====
-- Utility::GetHostFDByAppFD (src/base/Utility.cpp), GetHostSocketFD, InsertNewHostSocketFDToTable
-- and SockOpen (src/wamr_ext_lib/WasiSocketExt.cpp). The numbers of filetypes are those of WASI.
use wamr_ext.Prelude.Text.{Text, bytes}
use wamr_ext.Prelude.{Bool, bit_and, if◌then◌else◌, ℕ, ◌++◌, ◌==◌, ◌||◌}
use wamr_ext.Errno.{eafnosupport, einval, eprotonosupport}
use wamr_ext.Socket.{
  Host, Domain, FdWrap, Protocol, SockType, af_inet, af_inet6, ipproto_tcp, ipproto_udp, sock_dgram,
  sock_stream,
}
use wamr_ext.Socket.Address.{wasi_af_inet, wasi_af_inet6}
use wamr_ext.Exec.{Exec, Result, done, lift, pure, raise, require, sys, ◌>>=◌, ◌>>◌}

abbrev pub filetype_socket_dgram : ℕ
filetype_socket_dgram = 5

abbrev pub filetype_socket_stream : ℕ
filetype_socket_stream = 6

abbrev pub wasi_ipproto_tcp : ℕ
wasi_ipproto_tcp = 6

abbrev pub wasi_ipproto_udp : ℕ
wasi_ipproto_udp = 17

abbrev pub wasi_sock_nonblock : ℕ
wasi_sock_nonblock = 16384

abbrev pub wasi_sock_cloexec : ℕ
wasi_sock_cloexec = 8192

-- (flags & flag) == flag
abbrev pub has : ℕ → ℕ → Bool
has flags flag = bit_and flags flag == flag

module _ {W : Type 0} (h : Host W) where
  -- The host's descriptor and the wrapper that the callback reads.
  unfoldable pub get_host_fd_by_app_fd : ℕ → Exec W (ℕ × FdWrap)
  get_host_fd_by_app_fd app_fd = do
    fd_wrap ← λ w. lift (h.fd_table_get app_fd w) w
    pure (h.get_osfhandle fd_wrap.fd, fd_wrap)

  unfoldable pub get_host_socket_fd : ℕ → Exec W (ℕ × ℕ)
  unfolding get_host_fd_by_app_fd
  get_host_socket_fd app_sock_fd = do
    found ← get_host_fd_by_app_fd app_sock_fd
    pure (found.0, found.1.type)

  abbrev pub fake_path : ℕ → Text
  fake_path uv_fd = bytes "<socket_" ++ (h.to_string uv_fd ++ bytes ">")

  abbrev pub close_refused : ℕ → Result ℕ → W → Result ℕ × W
  close_refused uv_fd (done id) w = (done id, w)
  close_refused uv_fd (raise e) w = (raise e, h.fs_close uv_fd w)

  -- The app's descriptor, *outAppSockFD.
  unfoldable pub insert_new_host_socket_fd_to_table : ℕ → ℕ → Exec W ℕ
  insert_new_host_socket_fd_to_table host_sock_fd wasi_sock_type w =
      let uv_fd = h.open_osfhandle host_sock_fd in
      let (r, w') = h.fd_table_insert uv_fd (fake_path uv_fd) wasi_sock_type w in
      close_refused uv_fd r w'

  abbrev pub host_domain : ℕ → Result Domain
  host_domain domain =
      if domain == wasi_af_inet
      then done af_inet
      else if domain == wasi_af_inet6
      then done af_inet6
      else raise eafnosupport

  abbrev pub host_sock_type : ℕ → Result (SockType × ℕ)
  host_sock_type type =
      if has type filetype_socket_dgram
      then done (sock_dgram, filetype_socket_dgram)
      else if has type filetype_socket_stream
      then done (sock_stream, filetype_socket_stream)
      else raise einval

  abbrev pub default_protocol : SockType → ℕ
  default_protocol sock_dgram = wasi_ipproto_udp
  default_protocol sock_stream = wasi_ipproto_tcp

  abbrev pub protocol_of : SockType → Protocol
  protocol_of sock_dgram = ipproto_udp
  protocol_of sock_stream = ipproto_tcp

  abbrev pub host_protocol : SockType → ℕ → Result Protocol
  host_protocol t protocol =
      let protocol' = if protocol == 0 then default_protocol t else protocol in
      if protocol' == default_protocol t then done (protocol_of t) else raise eprotonosupport

  abbrev pub set_flags : ℕ → ℕ → W → W
  set_flags fd type w =
      let nonblock = has type wasi_sock_nonblock in
      let cloexec = has type wasi_sock_cloexec in
      if nonblock || cloexec
      then h.add_fd_flags fd (record { nonblock = nonblock; cloexec = cloexec }) w
      else w

  -- `out` is whether outAppSockFD is not null.
  unfoldable pub sock_open : (domain type protocol : ℕ) → (out : Bool) → Exec W ℕ
  unfolding insert_new_host_socket_fd_to_table
  sock_open domain type protocol out = do
    require out einval
    host_dom ← lift (host_domain domain)
    types ← lift (host_sock_type type)
    proto ← lift (host_protocol types.0 protocol)
    new_fd ← sys h.errnos (h.socket host_dom types.0 proto)
    λ w. insert_new_host_socket_fd_to_table new_fd types.1 (set_flags new_fd type w)
