-- ===== src/Socket/Calls.antt =====
-- SockBind, SockConnect, SockListen, SockAccept, SockGetSockName, SockGetPeerName and SockShutdown
-- (src/wamr_ext_lib/WasiSocketExt.cpp). `valid` is whether the runtime finds the app's address struct
-- inside the instance's memory. What is written to the app's memory is part of the result.
use wamr_ext.Prelude.{Bool, if◌then◌else◌, some, ℕ, ◌==◌}
use wamr_ext.Errno.{efault, einval}
use wamr_ext.Socket.Address.{
  wasi_app_sock_addr_to_host_sock_addr, host_sock_addr_to_wasi_app_sock_addr,
}
use wamr_ext.Socket.Open.{get_host_socket_fd, insert_new_host_socket_fd_to_table}
use wamr_ext.Socket.{Host, WasiSockAddr, ShutdownHow, shut_rd, shut_rdwr, shut_wr}
use wamr_ext.Exec.{Exec, ◌>>=◌, ◌>>◌, Result, done, lift, pure, raise, require, sys}

module _ {W : Type 0} (h : Host W) where
  unfoldable pub sock_bind : ℕ → (valid : Bool) → WasiSockAddr → Exec W (Unit {0})
  unfolding get_host_socket_fd
  sock_bind app_sock_fd valid addr = do
    require valid efault
    host_addr ← lift (wasi_app_sock_addr_to_host_sock_addr addr)
    found ← get_host_socket_fd h app_sock_fd
    sys h.errnos (h.bind found.0 host_addr)

  unfoldable pub sock_connect : ℕ → (valid : Bool) → WasiSockAddr → Exec W (Unit {0})
  unfolding get_host_socket_fd
  sock_connect app_sock_fd valid addr = do
    require valid efault
    host_addr ← lift (wasi_app_sock_addr_to_host_sock_addr addr)
    found ← get_host_socket_fd h app_sock_fd
    sys h.errnos (h.connect found.0 host_addr)

  unfoldable pub sock_listen : (app_sock_fd backlog : ℕ) → Exec W (Unit {0})
  unfolding get_host_socket_fd
  sock_listen app_sock_fd backlog = do
    found ← get_host_socket_fd h app_sock_fd
    sys h.errnos (h.listen found.0 backlog)

  -- The new socket has the type of the listening one.
  unfoldable pub sock_accept : ℕ → (valid : Bool) → WasiSockAddr → Exec W (ℕ × WasiSockAddr)
  unfolding get_host_socket_fd insert_new_host_socket_fd_to_table
  sock_accept app_sock_fd valid addr = do
    require valid efault
    found ← get_host_socket_fd h app_sock_fd
    accepted ← sys h.errnos (h.accept found.0)
    new_app_fd ← insert_new_host_socket_fd_to_table h accepted.0 found.1
    pure (new_app_fd, host_sock_addr_to_wasi_app_sock_addr (some accepted.1) addr)

  unfoldable pub sock_get_sock_name : ℕ → (valid : Bool) → WasiSockAddr → Exec W WasiSockAddr
  unfolding get_host_socket_fd
  sock_get_sock_name app_sock_fd valid addr = do
    require valid efault
    found ← get_host_socket_fd h app_sock_fd
    host_addr ← sys h.errnos (h.getsockname found.0)
    pure (host_sock_addr_to_wasi_app_sock_addr (some host_addr) addr)

  unfoldable pub sock_get_peer_name : ℕ → (valid : Bool) → WasiSockAddr → Exec W WasiSockAddr
  unfolding get_host_socket_fd
  sock_get_peer_name app_sock_fd valid addr = do
    require valid efault
    found ← get_host_socket_fd h app_sock_fd
    host_addr ← sys h.errnos (h.getpeername found.0)
    pure (host_sock_addr_to_wasi_app_sock_addr (some host_addr) addr)

  abbrev pub host_shutdown_how : ℕ → Result ShutdownHow
  host_shutdown_how how =
      if how == 1
      then done shut_rd
      else if how == 2
      then done shut_wr
      else if how == 3
      then done shut_rdwr
      else raise einval

  -- UVWASI_SHUT_RD is 1 and UVWASI_SHUT_WR is 2.
  unfoldable pub sock_shutdown : (app_sock_fd how : ℕ) → Exec W (Unit {0})
  unfolding get_host_socket_fd
  sock_shutdown app_sock_fd how = do
    host_how ← lift (host_shutdown_how how)
    found ← get_host_socket_fd h app_sock_fd
    sys h.errnos (h.shutdown found.0 host_how)
