-- ===== src/Syscall/Dispatch.antt =====
-- WasiExtSyscall of src/wamr_ext_api/wamr_ext_api.cpp, and what the table of syscalls guarantees.
use wamr_ext.Prelude.{
  ℕ, ◌*◌, ◌%◌, ◌≡◌, refl, false, not, ◌&&◌, List, Option, none, some, ltb, if◌then◌else◌, Bool,
  length, suc, true, zero, ◌∙◌, ◌≤◌, arith,
}
use wamr_ext.Prelude.Text.{Text, bytes}
use wamr_ext.Errno.{efault, enosys}
use wamr_ext.Vm.{Vm, Ret, uvwasi, host}
use wamr_ext.Syscall.{Shape, arg_sig, Handle, invoke}
use wamr_ext.Syscall.Unpack.{outcome, invoke-run_resolved, resolve, run_resolved}
use wamr_ext.Syscall.Registry

-- WasiExtSyscall: `argv` is the app's array, of which the native address is `argv_addr` (`none` for
-- a null pointer); `handlers` are the functions that the table points at.
unfoldable pub wasi_ext_syscall :
    {W : Type 0}
    → Vm
    → (Registry.Handler → Handle W)
    → Registry.Table
    → ℕ
    → ℕ
    → Option ℕ
    → List ℕ
    → W
    → Ret × W
wasi_ext_syscall vm handlers t syscall_id argc argv_addr argv w =
    let is_valid : Bool = elim argv_addr [
      | none ↦ false
      | some a ↦ vm.validate_native_addr a ((16 * argc) % vm.size_mod)
    ] in
    if ltb 0 argc && not is_valid then (host efault, w) else elim (Registry.find syscall_id t) [
      | none ↦ (uvwasi enosys, w)
      | some (shape, h) ↦ outcome (invoke vm shape (handlers h) argc argv w)
    ]

-- The C parameters of each handler after the exec env, as signature characters: '*' a pointer, '$' a
-- char*, 'i' a 32-bit number.
unfoldable pub params_of : Registry.Handler → Text
params_of Registry.wamr_ext_sysctl = bytes "$**"
params_of Registry.pthread_set_name = bytes "$"
params_of Registry.fd_stat_vfs = bytes "i*"
params_of Registry.fd_fcntl = bytes "i*"
params_of Registry.sock_open = bytes "iii*"
params_of Registry.sock_bind = bytes "i*"
params_of Registry.sock_connect = bytes "i*"
params_of Registry.sock_listen = bytes "ii"
params_of Registry.sock_accept = bytes "i**"
params_of Registry.sock_get_sock_name = bytes "i*"
params_of Registry.sock_get_peer_name = bytes "i*"
params_of Registry.sock_shutdown = bytes "ii"
params_of Registry.sock_get_opt = bytes "iii**"
params_of Registry.sock_set_opt = bytes "iii*i"
params_of Registry.sock_recv_msg = bytes "i**i"
params_of Registry.sock_send_msg = bytes "i**i"
params_of Registry.sock_get_if_addrs = bytes "*"
params_of Registry.process_spawn = bytes "*"
params_of Registry.process_wait_pid = bytes "ii**"

-- The handler that an app calls by each number, by its name.
unfoldable pub handler_of : Registry.SyscallId → Registry.Handler
handler_of Registry.id_wamr_ext_sysctl = Registry.wamr_ext_sysctl
handler_of Registry.id_pthread_host_setname = Registry.pthread_set_name
handler_of Registry.id_fd_statvfs = Registry.fd_stat_vfs
handler_of Registry.id_fd_ext_fcntl = Registry.fd_fcntl
handler_of Registry.id_sock_open = Registry.sock_open
handler_of Registry.id_sock_bind = Registry.sock_bind
handler_of Registry.id_sock_connect = Registry.sock_connect
handler_of Registry.id_sock_listen = Registry.sock_listen
handler_of Registry.id_sock_accept = Registry.sock_accept
handler_of Registry.id_sock_getsockname = Registry.sock_get_sock_name
handler_of Registry.id_sock_getpeername = Registry.sock_get_peer_name
handler_of Registry.id_sock_shutdown = Registry.sock_shutdown
handler_of Registry.id_sock_getsockopt = Registry.sock_get_opt
handler_of Registry.id_sock_setsockopt = Registry.sock_set_opt
handler_of Registry.id_sock_recvmsg = Registry.sock_recv_msg
handler_of Registry.id_sock_sendmsg = Registry.sock_send_msg
handler_of Registry.id_sock_getifaddrs = Registry.sock_get_if_addrs
handler_of Registry.id_proc_spawn = Registry.process_spawn
handler_of Registry.id_proc_wait_pid = Registry.process_wait_pid

-- Every number of wamr_ext_syscall_id is in the table that wamr_ext_init leaves, with the handler of
-- its name, and the class that it is registered with unpacks exactly the parameters that the handler
-- is declared with.
pub registered_with_its_params :
    (i : Registry.SyscallId)
    → (shape : Shape) × (Registry.find (Registry.number i) Registry.ext_syscall_map
        ≡ some (shape, handler_of i))
      × (arg_sig shape ≡ params_of (handler_of i))
unfolding Registry.ext_syscall_map Registry.find params_of arg_sig handler_of
registered_with_its_params Registry.id_wamr_ext_sysctl = (_, refl, refl)
registered_with_its_params _ = (_, refl, refl)

-- The runtime validates the whole argument array, or there is none.
abbrev pub IsValidArray : Vm → ℕ → Option ℕ → Type 0
IsValidArray vm zero addr = Unit {0}
IsValidArray vm (suc n) none = ⊥
IsValidArray vm (suc n) (some a) = vm.validate_native_addr a ((16 * suc n) % vm.size_mod) ≡ true

dispatch_found :
    {W : Type 0} (vm : Vm) (handlers : Registry.Handler → Handle W) (t : Registry.Table)
    (k argc : ℕ) (addr : Option ℕ) (argv : List ℕ) (w : W) (shape : Shape) (h : Registry.Handler)
    → IsValidArray vm argc addr
    → Registry.find k t ≡ some (shape, h)
    → wasi_ext_syscall vm handlers t k argc addr argv w
      ≡ outcome (invoke vm shape (handlers h) argc argv w)
unfolding wasi_ext_syscall
dispatch_found vm handlers t k zero addr argv w shape h v e = rw (e, wasi_ext_syscall) refl
dispatch_found vm handlers t k (suc n) none argv w shape h v e = absurd v
dispatch_found vm handlers t k (suc n) (some a) argv w shape h v e =
    rw (e, v, wasi_ext_syscall) (ground arith)

-- A call by an app of any number of wamr_ext_syscall_id, with a valid array of as many arguments as
-- its handler's C parameters or more, runs that handler on those parameters, resolved against the
-- app's memory; where one of them does not resolve it returns EFAULT and runs nothing.
pub wasi_ext_syscall-run_resolved :
    {W : Type 0} (vm : Vm) (handlers : Registry.Handler → Handle W) (i : Registry.SyscallId)
    (argc : ℕ) (addr : Option ℕ) (argv : List ℕ) (w : W)
    → IsValidArray vm argc addr
    → length argv ≡ argc
    → length (params_of (handler_of i)) ≤ argc
    → wasi_ext_syscall vm handlers Registry.ext_syscall_map (Registry.number i) argc addr argv w
      ≡ run_resolved (resolve vm (params_of (handler_of i)) argv) (handlers (handler_of i)) w
wasi_ext_syscall-run_resolved vm handlers i argc addr argv w v e enough =
    let (shape, found, sig) = registered_with_its_params i in
    dispatch_found vm handlers Registry.ext_syscall_map (Registry.number i) argc addr argv w shape
      (handler_of i) v found
    ∙ rw (← sig)
        (invoke-run_resolved vm shape (handlers (handler_of i)) argc argv w e (rw sig enough))
