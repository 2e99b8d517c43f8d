-- ===== src/Syscall.antt =====
-- src/wamr_ext_lib/WamrExtInternalDef.h and .cpp: the classes that unpack a syscall's arguments. An
-- entry of the union wamr_ext_syscall_arg is the number in its first eight bytes, of which the
-- fields u32 and app_pointer are the lower half; pointers are of eight bytes too. Assertions are
-- compiled out (NDEBUG), as in the build's default, Release.
pub mod Unpack
pub mod Registry
pub mod Dispatch
use wamr_ext.Prelude.{
  ℕ, zero, suc, Bool, not, ◌&&◌, ◌||◌, Option, none, some, List, [], ◌∷◌, length, ltb, ◌==◌,
  if◌then◌else◌,
}
use wamr_ext.Prelude.Text.{Text, bytes}
use wamr_ext.Errno.{Errno, efault, enosys}
use wamr_ext.Vm.{Vm, Ret, uvwasi, u32}

-- The subclasses of ExtSyscallBase.
pub data Shape : Type 0 where
  p u32_ s p_u32 p_u64 p_p u32_p u32_u32 p_p_p s_p_p p_p_u64 u32_p_p u32_u32_u32_p u32_p_p_u32
        u32_u32_p_p u32_u32_u32_p_p u32_u32_u32_p_u32 :
      Shape

-- m_argSig, as each constructor sets it.
unfoldable pub arg_sig : Shape → Text
arg_sig p = bytes "*"
arg_sig u32_ = bytes "i"
arg_sig s = bytes "$"
arg_sig p_u32 = bytes "*i"
arg_sig p_u64 = bytes "*I"
arg_sig p_p = bytes "**"
arg_sig u32_p = bytes "i*"
arg_sig u32_u32 = bytes "ii"
arg_sig p_p_p = bytes "***"
arg_sig s_p_p = bytes "$**"
arg_sig p_p_u64 = bytes "**I"
arg_sig u32_p_p = bytes "i**"
arg_sig u32_u32_u32_p = bytes "iii*"
arg_sig u32_p_p_u32 = bytes "i**i"
arg_sig u32_u32_p_p = bytes "ii**"
arg_sig u32_u32_u32_p_p = bytes "iii**"
arg_sig u32_u32_u32_p_u32 = bytes "iii*i"

-- An argument of the handler, after the exec env.
pub data Param : Type 0 where
  pointer : ℕ → Param
  word32 : ℕ → Param
  word64 : ℕ → Param

-- appArgv[i]
unfoldable pub arg : List ℕ → ℕ → ℕ
arg [] i = 0
arg (a ∷ argv) zero = a
arg (a ∷ argv) (suc i) = arg argv i

abbrev pub native_pointer : List ℕ → ℕ → Param
native_pointer argv i = pointer (arg argv i)

abbrev pub as_u32 : List ℕ → ℕ → Param
as_u32 argv i = word32 (u32 (arg argv i))

abbrev pub as_u64 : List ℕ → ℕ → Param
as_u64 argv i = word64 (arg argv i)

-- DoSyscall of each class: what it calls m_pFunc with.
unfoldable pub do_syscall_params : Shape → List ℕ → List Param
do_syscall_params p v = native_pointer v 0 ∷ []
do_syscall_params u32_ v = as_u32 v 0 ∷ []
do_syscall_params s v = native_pointer v 0 ∷ []
do_syscall_params p_u32 v = native_pointer v 0 ∷ as_u32 v 1 ∷ []
do_syscall_params p_u64 v = native_pointer v 0 ∷ as_u64 v 1 ∷ []
do_syscall_params p_p v = native_pointer v 0 ∷ native_pointer v 1 ∷ []
do_syscall_params u32_p v = as_u32 v 0 ∷ native_pointer v 1 ∷ []
do_syscall_params u32_u32 v = as_u32 v 0 ∷ as_u32 v 1 ∷ []
do_syscall_params p_p_p v = native_pointer v 0 ∷ native_pointer v 1 ∷ native_pointer v 2 ∷ []
do_syscall_params s_p_p v = native_pointer v 0 ∷ native_pointer v 1 ∷ native_pointer v 2 ∷ []
do_syscall_params p_p_u64 v = native_pointer v 0 ∷ native_pointer v 1 ∷ as_u64 v 2 ∷ []
do_syscall_params u32_p_p v = as_u32 v 0 ∷ native_pointer v 1 ∷ native_pointer v 2 ∷ []
do_syscall_params u32_u32_u32_p v = as_u32 v 0 ∷ as_u32 v 1 ∷ as_u32 v 2 ∷ native_pointer v 3 ∷ []
do_syscall_params u32_p_p_u32 v =
    as_u32 v 0 ∷ native_pointer v 1 ∷ native_pointer v 2 ∷ as_u32 v 3 ∷ []
do_syscall_params u32_u32_p_p v =
    as_u32 v 0 ∷ as_u32 v 1 ∷ native_pointer v 2 ∷ native_pointer v 3 ∷ []
do_syscall_params u32_u32_u32_p_p v =
    as_u32 v 0 ∷ as_u32 v 1 ∷ as_u32 v 2 ∷ native_pointer v 3 ∷ native_pointer v 4 ∷ []
do_syscall_params u32_u32_u32_p_u32 v =
    as_u32 v 0 ∷ as_u32 v 1 ∷ as_u32 v 2 ∷ native_pointer v 3 ∷ as_u32 v 4 ∷ []

-- One round of the loop in Invoke: an error that returns, and the entry as it is left.
unfoldable pub convert_arg : Vm → ℕ → ℕ → Option Errno × ℕ
convert_arg vm c a =
    if (c == b'*') || (c == b'$')
    then elim (vm.addr_app_to_native (u32 a)) [
      | none ↦ (some efault, a)
      | some native ↦
          if (c == b'$') && not (vm.validate_app_str_addr (u32 a))
          then (some efault, a)
          else (none, native)
    ]
    else (none, a)

-- The loop over m_argSig, which rewrites appArgv in place.
unfoldable pub convert_args : Vm → Text → List ℕ → Option Errno × List ℕ
convert_args vm [] argv = (none, argv)
convert_args vm (c ∷ sig) [] = (none, [])
convert_args vm (c ∷ sig) (a ∷ argv) =
    let rest = convert_args vm sig argv in
    let (failed, a') = convert_arg vm c a in
    elim failed [ none ↦ (rest.0, a' ∷ rest.1) | some e ↦ (some e, a' ∷ argv) ]

-- A handler: it reads and writes the state of the world.
abbrev pub Handle : Type 0 → Type 0
Handle W = List Param → W → Ret × W

-- ExtSyscallBase::Invoke: the code returned, the world, and the app's argument array.
unfoldable pub invoke : {W : Type 0} → Vm → Shape → Handle W → ℕ → List ℕ → W → Ret × W × List ℕ
invoke vm shape f argc argv w =
    if ltb argc (length (arg_sig shape))
    then (uvwasi enosys, w, argv)
    else let (failed, argv') = convert_args vm (arg_sig shape) argv in
      elim failed [
        | some e ↦ (uvwasi e, w, argv')
        | none ↦ let (r, w') = f (do_syscall_params shape argv') w in (r, w', argv')
      ]
