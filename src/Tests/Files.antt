-- ===== src/Tests/Files.antt =====
-- Files, Sysctl, and messages (Files, Sysctl, Socket/Messages and their laws) on the host of the sockets'
-- tests.
use wamr_ext.Prelude.{
  [], arith, refl, some, true, ℕ, ◌+◌, ◌++◌, ◌∷◌, ◌≡◌, ◌≤◌, leb, ltb, ◌&&◌, All, Bool, List, false,
  if◌then◌else◌, none,
}
use wamr_ext.Prelude.Text.{bytes}
use wamr_ext.Tests.Instance.{small_memory}
use wamr_ext.Tests.Socket.{TestWorld, full, test_host, zeros}
use wamr_ext.Exec.{done, raise, returns, CRet, fails}
use wamr_ext.Errno.{enosys}
use wamr_ext.Vm.{Vm}
use wamr_ext.Socket.{unspec, HostSockAddr}
use wamr_ext.Socket.Address.{drop}
use wamr_ext.Socket.Bytes.{of_le, to_le}
use wamr_ext.Socket.Messages.{AppMsgHdr, MsgHost, HostMsgFlags, HostIoVec, sock_recv_msg}
use wamr_ext.Socket.MessageLaws.{Validates, sock_recv_msg_in_memory, Within}
use wamr_ext.Files.{FcntlFlock, FsHost, f_unlck, fd_fcntl}
use wamr_ext.Files.Locks.{Changes, fd_fcntl-Changes}
use wamr_ext.Sysctl.{SysHost, wamr_ext_sysctl}
use wamr_ext.Sysctl.Laws.{number_named, numbers, sysctl_reads_back}

abbrev fs_host : FsHost TestWorld
fs_host = record {
  sock = test_host;
  statfs = λ path w. (raise enosys, w);
  fcntl = λ fd cmd lock w. (returns (0, record lock { l_type = f_unlck; l_start = 12 }), w);
}

abbrev read_lock : FcntlFlock
read_lock = record { cmd = 257; ret_value = 7; l_type = 0; l_whence = 1; l_start = 10; l_len = 20 }

fd_fcntl-Changes_example :
    Changes fs_host 3 true true read_lock full (fd_fcntl fs_host 3 true true read_lock full)
fd_fcntl-Changes_example = fd_fcntl-Changes fs_host 3 true true read_lock full

abbrev sys_host : SysHost
sys_host = record {
  current_thread_id = 11;
  process_id = 4660;
  hardware_concurrency = 8;
  memory = small_memory;
  alloc_info = λ heap. some 500;
}

gives_pid :
    wamr_ext_sysctl sys_host (bytes "sysinfo.pid") true (9 ∷ 9 ∷ 9 ∷ 9 ∷ 9 ∷ [], 5)
    ≡ done (52 ∷ 18 ∷ 0 ∷ 0 ∷ 9 ∷ [], 4)
unfolding wamr_ext_sysctl
gives_pid = refl

sysctl_reads_back_example :
    (value : ℕ) × (number_named (bytes "sysinfo.pid") (numbers sys_host) ≡ some (4, value))
    × (4 ≤ 5)
    × (52 ∷ 18 ∷ 0 ∷ 0 ∷ 9 ∷ [] ≡ to_le 4 value ++ drop 4 (9 ∷ 9 ∷ 9 ∷ 9 ∷ 9 ∷ []))
    × (of_le 4 (52 ∷ 18 ∷ 0 ∷ 0 ∷ 9 ∷ []) ≡ value)
sysctl_reads_back_example =
    sysctl_reads_back sys_host (bytes "sysinfo.pid") true (9 ∷ 9 ∷ 9 ∷ 9 ∷ 9 ∷ [], 5)
      (52 ∷ 18 ∷ 0 ∷ 0 ∷ 9 ∷ [], 4) refl gives_pid

-- A linear memory of 64 KiB at 4096.
abbrev linear : Vm
linear = record {
  addr_app_to_native = λ p. some (4096 + p);
  validate_app_addr = λ p n. leb (p + n) 65536;
  validate_app_str_addr = λ p. ltb p 65536;
  validate_native_addr = λ p n. leb 4096 p && leb (p + n) 69632;
  size_mod = 4294967296;
}

linear-Validates : Validates linear 4096 69632
linear-Validates p n e = (4096 + p, refl, omega arith, ground (arith, e))

abbrev msg_host : MsgHost TestWorld
msg_host = record {
  sock = test_host;
  vm = linear;
  recvmsg = λ fd v f w. (returns (5, unspec), w);
  sendmsg = λ fd name v f w. (returns 5, w);
}

abbrev hdr : AppMsgHdr
hdr = record { addr = zeros; input_flags = 1; ret_flags = 0; ret_data_size = 0 }

-- A recvmsg that fails on a buffer below the memory.
abbrev low : List HostIoVec → Bool
low [] = false
low (v ∷ vs) = elim v.iov_base [ none ↦ true | some base ↦ ltb base 4096 ]

abbrev guarded_recv :
    ℕ → List HostIoVec → HostMsgFlags → TestWorld → CRet (ℕ × HostSockAddr) × TestWorld
guarded_recv fd v f w = if low v then (fails 14, w) else (returns (5, unspec), w)

guarded_agrees :
    (fd : ℕ) (v : List HostIoVec) (f : HostMsgFlags) (w : TestWorld)
    → All (Within 4096 69632) v
    → msg_host.recvmsg fd v f w ≡ guarded_recv fd v f w
guarded_agrees fd [] f w within = refl
guarded_agrees fd (v ∷ vs) f w ((base, at_base, above, below), within) =
    let high : ltb base 4096 ≡ false = ground (arith, above) in rw (at_base, high) refl

sock_recv_msg_in_memory_example :
    sock_recv_msg msg_host 3 true hdr ((record { app_buf_offset = 16; buf_len = 8 }) ∷ []) full
    ≡ sock_recv_msg
        (record msg_host { recvmsg = guarded_recv })
        3
        true
        hdr
        ((record { app_buf_offset = 16; buf_len = 8 }) ∷ [])
        full
sock_recv_msg_in_memory_example =
    sock_recv_msg_in_memory msg_host 4096 69632 linear-Validates guarded_recv 3 true hdr
      ((record { app_buf_offset = 16; buf_len = 8 }) ∷ []) full guarded_agrees
