-- ===== src/Tests/Syscall.antt =====
-- Syscalls (Syscall and its children) of an app whose memory is 1000 bytes at the native address
-- 4096; a handler's world is the list of the parameters it was called with.
use wamr_ext.Prelude.{
  List, [], arith, if◌then◌else◌, leb, ltb, none, refl, some, ℕ, ◌&&◌, ◌+◌, ◌^◌, ◌∷◌, ◌≡◌,
}
use wamr_ext.Errno.{success}
use wamr_ext.Vm.{uvwasi, Vm}
use wamr_ext.Syscall.Unpack.{invoke-run_resolved, resolve, run_resolved, outcome}
use wamr_ext.Syscall.Dispatch.{
  registered_with_its_params, wasi_ext_syscall-run_resolved, handler_of, params_of,
  wasi_ext_syscall,
}
use wamr_ext.Syscall.{Handle, Shape, Param, arg_sig, invoke}
use wamr_ext.Syscall.Registry

abbrev test_vm : Vm
test_vm = record {
  addr_app_to_native = λ a. if ltb a 1000 then some (4096 + a) else none;
  validate_app_addr = λ a n. ltb (a + n) 1001;
  validate_app_str_addr = λ a. ltb a 1000;
  validate_native_addr = λ a n. leb 4096 a && ltb (a + n) 5097;
  size_mod = 2 ^ 32;
}

abbrev log : Handle (List Param)
log ps w = (uvwasi success, ps)

abbrev sock_args : List ℕ
sock_args = 3 ∷ 40 ∷ 80 ∷ []

invoke-run_resolved_example :
    outcome (invoke test_vm Shape.u32_p_p log 3 sock_args [])
    ≡ run_resolved (resolve test_vm (arg_sig Shape.u32_p_p) sock_args) log []
unfolding arg_sig
invoke-run_resolved_example =
    invoke-run_resolved test_vm Shape.u32_p_p log 3 sock_args [] refl (omega arith)

registered_with_its_params_example :
    (shape : Shape) × (Registry.find
        (Registry.number Registry.id_sock_accept)
        Registry.ext_syscall_map
      ≡ some (shape, handler_of Registry.id_sock_accept))
    × (arg_sig shape ≡ params_of (handler_of Registry.id_sock_accept))
registered_with_its_params_example = registered_with_its_params Registry.id_sock_accept

wasi_ext_syscall-run_resolved_example :
    wasi_ext_syscall test_vm
      (λ h. log)
      Registry.ext_syscall_map
      (Registry.number Registry.id_sock_accept)
      3
      (some 4096)
      sock_args
      []
    ≡ run_resolved
        (resolve test_vm (params_of (handler_of Registry.id_sock_accept)) sock_args)
        log
        []
unfolding params_of handler_of
wasi_ext_syscall-run_resolved_example =
    wasi_ext_syscall-run_resolved test_vm (λ h. log) Registry.id_sock_accept 3 (some 4096) sock_args
      [] refl refl (omega arith)
