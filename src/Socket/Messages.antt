-- ===== src/Socket/Messages.antt =====
-- SockRecvMsg and SockSendMsg (src/wamr_ext_lib/WasiSocketExt.cpp).
use wamr_ext.Prelude.{
  Bool, List, Option, bit_and, if◌then◌else◌, is_empty, none, not, some, ℕ, ◌&&◌, ◌==◌, ◌∷◌, [],
  true,
}
use wamr_ext.Errno.{efault, einval}
use wamr_ext.Exec.{CRet, Exec, Result, done, lift, pure, raise, require, sys, ◌>>=◌, ◌>>◌}
use wamr_ext.Vm.{Vm}
use wamr_ext.Socket.{Host, HostSockAddr, WasiSockAddr, unspec}
use wamr_ext.Socket.Address.{
  host_sock_addr_to_wasi_app_sock_addr, wasi_af_unspec, wasi_app_sock_addr_to_host_sock_addr,
}
use wamr_ext.Socket.Open.{get_host_socket_fd}

-- wasi_iovec_t
pub record AppIoVec : Type 0 where
  pub app_buf_offset : ℕ
  pub buf_len : ℕ

-- iovec; iov_base `none` is null.
pub record HostIoVec : Type 0 where
  pub iov_base : Option ℕ
  pub iov_len : ℕ

-- wamr_wasi_msghdr
pub record AppMsgHdr : Type 0 where
  pub addr : WasiSockAddr
  pub input_flags : ℕ
  pub ret_flags : ℕ
  pub ret_data_size : ℕ

-- MSG_PEEK and MSG_WAITALL
pub record HostMsgFlags : Type 0 where
  pub peek : Bool
  pub waitall : Bool

-- What a message is sent or received with: the descriptor, the name to send to, the buffers and the flags.
-- `recvmsg` gives the number of bytes and the address it has written, `unspec` where it has written none.
pub record MsgHost (W : Type 0) : Type 0 where
  pub sock : Host W
  pub vm : Vm
  pub recvmsg : ℕ → List HostIoVec → HostMsgFlags → W → CRet (ℕ × HostSockAddr) × W
  pub sendmsg : ℕ → Option HostSockAddr → List HostIoVec → HostMsgFlags → W → CRet ℕ × W

-- UVWASI_SOCK_RECV_PEEK is 1, UVWASI_SOCK_RECV_WAITALL is 2.
unfoldable pub map_wasi_sock_msg_flags : ℕ → HostMsgFlags
map_wasi_sock_msg_flags flags = record {
  peek = not (bit_and flags 1 == 0);
  waitall = not (bit_and flags 2 == 0);
}

-- The loop of checks.
unfoldable pub iovecs_valid : Vm → List AppIoVec → Bool
iovecs_valid vm [] = true
iovecs_valid vm (v ∷ iovecs) =
    not (v.app_buf_offset == 0)
    && vm.validate_app_addr v.app_buf_offset v.buf_len
    && iovecs_valid vm iovecs

-- hostIOVec
unfoldable pub host_iovec : Vm → List AppIoVec → List HostIoVec
host_iovec vm [] = []
host_iovec vm (v ∷ iovecs) =
    (record { iov_base = vm.addr_app_to_native v.app_buf_offset; iov_len = v.buf_len })
    ∷ host_iovec vm iovecs

abbrev pub received_from : HostSockAddr → WasiSockAddr → WasiSockAddr
received_from unspec a = a
received_from host_addr a = host_sock_addr_to_wasi_app_sock_addr (some host_addr) a

-- msg_name, where the app gives an address.
unfoldable pub send_to : WasiSockAddr → Result (Option HostSockAddr)
unfolding wasi_app_sock_addr_to_host_sock_addr
send_to a =
    if a.family == wasi_af_unspec
    then done none
    else elim (wasi_app_sock_addr_to_host_sock_addr a) [
      | done host_addr ↦ done (some host_addr)
      | raise e ↦ raise e
    ]

module _ {W : Type 0} (h : MsgHost W) where
  -- `valid` is that the structure and the array are the app's. The result is what stands in the structure.
  unfoldable pub sock_recv_msg :
      (app_sock_fd : ℕ) (valid : Bool) → AppMsgHdr → List AppIoVec → Exec W AppMsgHdr
  unfolding map_wasi_sock_msg_flags iovecs_valid host_iovec
  sock_recv_msg app_sock_fd valid hdr iovecs = do
    require (not (is_empty iovecs)) einval
    require valid efault
    require (iovecs_valid h.vm iovecs) efault
    found ← get_host_socket_fd h.sock app_sock_fd
    got ←
        sys h.sock.errnos
          (h.recvmsg found.0 (host_iovec h.vm iovecs) (map_wasi_sock_msg_flags hdr.input_flags))
    pure (record hdr { ret_data_size = got.0; ret_flags = 0; addr = received_from got.1 hdr.addr })

  unfoldable pub sock_send_msg :
      (app_sock_fd : ℕ) (valid : Bool) → AppMsgHdr → List AppIoVec → Exec W AppMsgHdr
  unfolding map_wasi_sock_msg_flags iovecs_valid host_iovec send_to
  sock_send_msg app_sock_fd valid hdr iovecs = do
    require (not (is_empty iovecs)) einval
    require valid efault
    require (iovecs_valid h.vm iovecs) efault
    found ← get_host_socket_fd h.sock app_sock_fd
    name ← lift (send_to hdr.addr)
    sent ←
        sys h.sock.errnos (
          h.sendmsg found.0 name (host_iovec h.vm iovecs) (map_wasi_sock_msg_flags hdr.input_flags))
    pure (record hdr { ret_data_size = sent })
