-- ===== src/Socket/MessageLaws.antt =====
-- The buffers that SockRecvMsg and SockSendMsg (src/wamr_ext_lib/WasiSocketExt.cpp) hand to the host.
use wamr_ext.Prelude.{
  All, Bool, List, Option, [], arith, false, is_empty, not, refl, some, true, ℕ, ◌+◌, ◌∷◌, ◌≡◌, ◌≤◌,
  ap,
}
use wamr_ext.Exec.{CRet, Exec, Result, continue, done, raise, require, ◌>>=◌, checked, pure}
use wamr_ext.Errno.{Errno, efault, einval}
use wamr_ext.Vm.{Vm}
use wamr_ext.Socket.{HostSockAddr}
use wamr_ext.Socket.Open.{get_host_socket_fd}
use wamr_ext.Socket.Messages.{
  AppIoVec, AppMsgHdr, HostIoVec, HostMsgFlags, MsgHost, host_iovec, iovecs_valid,
  map_wasi_sock_msg_flags, send_to, sock_recv_msg, sock_send_msg,
}

-- A buffer of the host's that lies between two addresses.
abbrev pub Within : ℕ → ℕ → HostIoVec → Type 0
Within from to v = (base : ℕ) × (v.iov_base ≡ some base) × (from ≤ base) × (base + v.iov_len ≤ to)

-- What wasm_runtime_validate_app_addr promises of an instance's linear memory.
abbrev pub Validates : Vm → ℕ → ℕ → Type 0
Validates vm from to =
    (p n : ℕ)
    → vm.validate_app_addr p n ≡ true
    → Within from to (record { iov_base = vm.addr_app_to_native p; iov_len = n })

host_iovec-Within :
    (vm : Vm) (from to : ℕ) (iovecs : List AppIoVec)
    → Validates vm from to
    → iovecs_valid vm iovecs ≡ true
    → All (Within from to) (host_iovec vm iovecs)
unfolding iovecs_valid host_iovec
host_iovec-Within vm from to [] law e = tt
host_iovec-Within vm from to (v ∷ iovecs) law e =
    let here_valid : vm.validate_app_addr v.app_buf_offset v.buf_len ≡ true = ground (arith, e) in
    let rest_valid : iovecs_valid vm iovecs ≡ true = ground (arith, e) in
    (law v.app_buf_offset v.buf_len here_valid, host_iovec-Within vm from to iovecs law rest_valid)

module _ {W A B : Type 0} where
  continue-same :
      (r : Result A) (f g : A → Exec W B) (w : W)
      → ((a : A) (v : W) → f a v ≡ g a v)
      → continue r f w ≡ continue r g w
  continue-same (done a) f g w s = s a w
  continue-same (raise e) f g w s = refl

  -- Two programs that go on in the same way.
  bind-same :
      (m : Exec W A) (f g : A → Exec W B)
      → ((a : A) (v : W) → f a v ≡ g a v)
      → (w : W) → (m >>= f) w ≡ (m >>= g) w
  bind-same m f g s w = continue-same (m w).0 f g (m w).1 s

require-same :
    {W B : Type 0} (b : Bool) (e : Errno) (f g : Unit {0} → Exec W B) (w : W)
    → (b ≡ true → (v : W) → f tt v ≡ g tt v)
    → (require b e >>= f) w ≡ (require b e >>= g) w
require-same true e f g w s = s refl w
require-same false e f g w s = refl

module _ {W : Type 0} (h : MsgHost W) (from to : ℕ) (law : Validates h.vm from to) where
  -- Let validated ranges of the app lie in its linear memory. Then a call of SockRecvMsg does the same with
  -- any two recvmsg that agree on buffers in this memory: it hands over no others.
  pub sock_recv_msg_in_memory :
      (recv : ℕ → List HostIoVec → HostMsgFlags → W → CRet (ℕ × HostSockAddr) × W) (fd : ℕ)
      (valid : Bool) (hdr : AppMsgHdr) (iovecs : List AppIoVec) (w : W)
      → ((s : ℕ) (v : List HostIoVec) (f : HostMsgFlags) (u : W)
          → All (Within from to) v
          → h.recvmsg s v f u ≡ recv s v f u)
      → sock_recv_msg h fd valid hdr iovecs w
        ≡ sock_recv_msg (record h { recvmsg = recv }) fd valid hdr iovecs w
  unfolding sock_recv_msg
  sock_recv_msg_in_memory recv fd valid hdr iovecs w agree =
      require-same (not (is_empty iovecs)) einval _ _ w λ some_iovecs a.
        require-same valid efault _ _ a λ is_app b.
          require-same (iovecs_valid h.vm iovecs) efault _ _ b λ ok c.
            let within = host_iovec-Within h.vm from to iovecs law ok in
            bind-same (get_host_socket_fd h.sock fd) _ _
              (λ found v.
                rw
                  (agree found.0 (host_iovec h.vm iovecs) (map_wasi_sock_msg_flags hdr.input_flags)
                    v within)
                  refl)
              c

  -- Let validated ranges of the app lie in its linear memory. Then a call of SockSendMsg does the same with
  -- any two sendmsg that agree on buffers in this memory: it hands over no others.
  pub sock_send_msg_in_memory :
      (send : ℕ → Option HostSockAddr → List HostIoVec → HostMsgFlags → W → CRet ℕ × W) (fd : ℕ)
      (valid : Bool) (hdr : AppMsgHdr) (iovecs : List AppIoVec) (w : W)
      → ((s : ℕ) (name : Option HostSockAddr) (v : List HostIoVec) (f : HostMsgFlags) (u : W)
          → All (Within from to) v
          → h.sendmsg s name v f u ≡ send s name v f u)
      → sock_send_msg h fd valid hdr iovecs w
        ≡ sock_send_msg (record h { sendmsg = send }) fd valid hdr iovecs w
  unfolding sock_send_msg
  sock_send_msg_in_memory send fd valid hdr iovecs w agree =
      require-same (not (is_empty iovecs)) einval _ _ w λ some_iovecs a.
        require-same valid efault _ _ a λ is_app b.
          require-same (iovecs_valid h.vm iovecs) efault _ _ b λ ok c.
            let within = host_iovec-Within h.vm from to iovecs law ok in
            bind-same (get_host_socket_fd h.sock fd) _ _
              (λ found v. continue-same (send_to hdr.addr) _ _ v (λ name u.
                ap
                  (λ (ran : CRet ℕ × W).
                    continue {A = ℕ} (checked h.sock.errnos ran.0)
                      (λ sent. pure (record hdr { ret_data_size = sent })) ran.1)
                  (agree found.0 name (host_iovec h.vm iovecs)
                    (map_wasi_sock_msg_flags hdr.input_flags) u within)))
              c
