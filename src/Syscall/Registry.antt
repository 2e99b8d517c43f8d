-- ===== src/Syscall/Registry.antt =====
-- The table of syscalls: wamr_ext_syscall_id (src/wamr_ext_lib/WamrExtInternalDef.h),
-- RegisterExtSyscall (src/wamr_ext_api/wamr_ext_api.cpp) and the Init functions of the extensions,
-- in the order of wamr_ext_init.
use wamr_ext.Prelude.{ℕ, List, [], ◌∷◌, Option, none, some, ◌==◌, if◌then◌else◌}
use wamr_ext.Syscall.{
  Shape, p, s, u32_p, u32_u32, s_p_p, u32_p_p, u32_u32_u32_p, u32_p_p_u32, u32_u32_p_p,
  u32_u32_u32_p_p, u32_u32_u32_p_u32,
}

-- The handlers that m_pFunc points at.
pub data Handler : Type 0 where
  wamr_ext_sysctl pthread_set_name fd_stat_vfs fd_fcntl sock_open sock_bind sock_connect sock_listen
        sock_accept sock_get_sock_name sock_get_peer_name sock_shutdown sock_get_opt sock_set_opt
        sock_recv_msg sock_send_msg sock_get_if_addrs process_spawn process_wait_pid :
      Handler

-- enum wamr_ext_syscall_id.
pub data SyscallId : Type 0 where
  id_wamr_ext_sysctl id_pthread_host_setname id_fd_statvfs id_fd_ext_fcntl id_sock_open id_sock_bind
        id_sock_connect id_sock_listen id_sock_accept id_sock_getsockname id_sock_getpeername
        id_sock_shutdown id_sock_getsockopt id_sock_setsockopt id_sock_recvmsg id_sock_sendmsg
        id_sock_getifaddrs id_proc_spawn id_proc_wait_pid :
      SyscallId

unfoldable pub number : SyscallId → ℕ
number id_wamr_ext_sysctl = 1
number id_pthread_host_setname = 130
number id_fd_statvfs = 200
number id_fd_ext_fcntl = 201
number id_sock_open = 300
number id_sock_bind = 301
number id_sock_connect = 302
number id_sock_listen = 303
number id_sock_accept = 304
number id_sock_getsockname = 305
number id_sock_getpeername = 306
number id_sock_shutdown = 307
number id_sock_getsockopt = 308
number id_sock_setsockopt = 309
number id_sock_recvmsg = 310
number id_sock_sendmsg = 311
number id_sock_getifaddrs = 312
number id_proc_spawn = 400
number id_proc_wait_pid = 401

-- gExtSyscallMap.
abbrev pub Table : Type 0
Table = List (ℕ × Shape × Handler)

unfoldable pub find : ℕ → Table → Option (Shape × Handler)
find k [] = none
find k ((j, shape, h) ∷ t) = if j == k then some (shape, h) else find k t

-- RegisterExtSyscall: gExtSyscallMap[syscallID] = pSyscallImpl.
unfoldable pub register_ext_syscall : SyscallId → Shape → Handler → Table → Table
register_ext_syscall i shape h t = (number i, shape, h) ∷ t

-- The registrations of WasiPthreadExt::Init.
unfoldable pub pthread_init : Table → Table
unfolding register_ext_syscall
pthread_init t = register_ext_syscall id_pthread_host_setname s pthread_set_name t

-- The registrations of WasiWamrExt::Init.
unfoldable pub wamr_init : Table → Table
unfolding register_ext_syscall
wamr_init t = register_ext_syscall id_wamr_ext_sysctl s_p_p wamr_ext_sysctl t

-- The registrations of WasiFSExt::Init.
unfoldable pub fs_init : Table → Table
unfolding register_ext_syscall
fs_init t =
    register_ext_syscall id_fd_ext_fcntl u32_p fd_fcntl
      (register_ext_syscall id_fd_statvfs u32_p fd_stat_vfs t)

-- The registrations of WasiSocketExt::Init.
unfoldable pub socket_init : Table → Table
unfolding register_ext_syscall
socket_init t = register_ext_syscall id_sock_getifaddrs p sock_get_if_addrs (
    register_ext_syscall id_sock_sendmsg u32_p_p_u32 sock_send_msg (
      register_ext_syscall id_sock_recvmsg u32_p_p_u32 sock_recv_msg (
        register_ext_syscall id_sock_setsockopt u32_u32_u32_p_u32 sock_set_opt (
          register_ext_syscall id_sock_getsockopt u32_u32_u32_p_p sock_get_opt (
            register_ext_syscall id_sock_shutdown u32_u32 sock_shutdown (
              register_ext_syscall id_sock_getpeername u32_p sock_get_peer_name (
                register_ext_syscall id_sock_getsockname u32_p sock_get_sock_name (
                  register_ext_syscall id_sock_accept u32_p_p sock_accept (
                    register_ext_syscall id_sock_listen u32_u32 sock_listen (
                      register_ext_syscall id_sock_connect u32_p sock_connect (
                        register_ext_syscall id_sock_bind u32_p sock_bind
                          (register_ext_syscall id_sock_open u32_u32_u32_p sock_open t))))))))))))

-- The registrations of WasiProcessExt::Init.
unfoldable pub process_init : Table → Table
unfolding register_ext_syscall
process_init t =
    register_ext_syscall id_proc_wait_pid u32_u32_p_p process_wait_pid
      (register_ext_syscall id_proc_spawn p process_spawn t)

-- The table that wamr_ext_init leaves.
unfoldable pub ext_syscall_map : Table
unfolding pthread_init wamr_init fs_init socket_init process_init number
ext_syscall_map = process_init (socket_init (fs_init (wamr_init (pthread_init []))))
