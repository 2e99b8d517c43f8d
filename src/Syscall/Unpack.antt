-- ===== src/Syscall/Unpack.antt =====
-- What Invoke hands to a handler, described from the signature string alone.
use wamr_ext.Prelude.{
  ℕ, suc, ◌≤◌, ◌<◌, ◌≡◌, refl, ◌∙◌, ap, ◌⊎◌, false, ◌||◌, Option, none, some, List, [], ◌∷◌, arith,
  length, ltb, ◌==◌, if◌then◌else◌, lt→ltb,
}
use wamr_ext.Prelude.Text.{Text}
use wamr_ext.Errno.{Errno, efault, enosys}
use wamr_ext.Vm.{Vm, Ret, uvwasi, u32}
use wamr_ext.Syscall.{
  Shape, p, arg_sig, Param, pointer, word32, word64, arg, do_syscall_params, convert_arg,
  convert_args, Handle, invoke,
}

-- An entry read as its signature character says.
pub decode_one : ℕ → ℕ → Param
decode_one c a =
    if (c == b'*') || (c == b'$') then pointer a else if c == b'I' then word64 a else word32 (u32 a)

pub decode : Text → List ℕ → List Param
decode [] argv = []
decode (c ∷ sig) [] = decode_one c 0 ∷ decode sig []
decode (c ∷ sig) (a ∷ argv) = decode_one c a ∷ decode sig argv

decode_from : ℕ → Text → List ℕ → List Param
decode_from i [] argv = []
decode_from i (c ∷ sig) argv = decode_one c (arg argv i) ∷ decode_from (suc i) sig argv

decode_from-nil : (i : ℕ) (sig : Text) → decode_from i sig [] ≡ decode sig []
unfolding decode decode_from arg
decode_from-nil i [] = refl
decode_from-nil i (c ∷ sig) = ap (◌∷◌ (decode_one c 0)) (decode_from-nil (suc i) sig)

decode_from-suc :
    (i : ℕ) (sig : Text) (a : ℕ) (argv : List ℕ)
    → decode_from (suc i) sig (a ∷ argv) ≡ decode_from i sig argv
unfolding decode_from arg
decode_from-suc i [] a argv = refl
decode_from-suc i (c ∷ sig) a argv =
    ap (◌∷◌ (decode_one c (arg argv i))) (decode_from-suc (suc i) sig a argv)

decode_from-zero : (sig : Text) (argv : List ℕ) → decode_from 0 sig argv ≡ decode sig argv
unfolding decode decode_from arg
decode_from-zero [] argv = refl
decode_from-zero (c ∷ sig) [] = ap (◌∷◌ (decode_one c 0)) (decode_from-nil 1 sig)
decode_from-zero (c ∷ sig) (a ∷ argv) =
    ap (◌∷◌ (decode_one c a)) (decode_from-suc 0 sig a argv ∙ decode_from-zero sig argv)

params-decode_from :
    (sh : Shape) (v : List ℕ) → do_syscall_params sh v ≡ decode_from 0 (arg_sig sh) v
unfolding do_syscall_params arg_sig decode_from decode_one
params-decode_from p v = refl
params-decode_from _ v = refl

-- The class of each shape reads every argument as the shape's signature string says.
pub do_syscall_params-decode :
    (sh : Shape) (v : List ℕ) → do_syscall_params sh v ≡ decode (arg_sig sh) v
do_syscall_params-decode sh v = params-decode_from sh v ∙ decode_from-zero (arg_sig sh) v

-- The specification: one argument resolved against the app's memory, `none` for a bad pointer.
unfoldable pub resolve_one : Vm → ℕ → ℕ → Option Param
resolve_one vm c a =
    if (c == b'*') || (c == b'$')
    then elim (vm.addr_app_to_native (u32 a)) [
      | none ↦ none
      | some native ↦
          if (c == b'*') || vm.validate_app_str_addr (u32 a) then some (pointer native) else none
    ]
    else some (if c == b'I' then word64 a else word32 (u32 a))

abbrev pub both : Option Param → Option (List Param) → Option (List Param)
both none ps = none
both (some a) none = none
both (some a) (some ps) = some (a ∷ ps)

unfoldable pub resolve : Vm → Text → List ℕ → Option (List Param)
resolve vm [] argv = some []
resolve vm (c ∷ sig) [] = none
resolve vm (c ∷ sig) (a ∷ argv) = both (resolve_one vm c a) (resolve vm sig argv)

convert_arg-resolve_one :
    (vm : Vm) (c a : ℕ)
    → (((convert_arg vm c a).0 ≡ some efault) × (resolve_one vm c a ≡ none))
      ⊎ (((convert_arg vm c a).0 ≡ none)
          × (resolve_one vm c a ≡ some (decode_one c (convert_arg vm c a).1)))
unfolding convert_arg resolve_one decode_one
convert_arg-resolve_one vm c a = ground arith

-- The loop fails exactly where the specification does, with EFAULT, and else leaves an array that
-- decodes to what the specification gives.
abbrev Resolves : Text → Option (List Param) → Option Errno × List ℕ → Type 0
Resolves sig none r = r.0 ≡ some efault
Resolves sig (some ps) r = (r.0 ≡ none) × (decode sig r.1 ≡ ps)

convert_args-Resolves :
    (vm : Vm) (sig : Text) (argv : List ℕ)
    → length sig ≤ length argv
    → Resolves sig (resolve vm sig argv) (convert_args vm sig argv)
unfolding convert_args resolve decode
convert_args-Resolves vm [] argv h = (refl, refl)
convert_args-Resolves vm (c ∷ sig) [] h = absurd (omega arith)
convert_args-Resolves vm (c ∷ sig) (a ∷ argv) h =
    ground (arith, convert_arg-resolve_one vm c a, convert_args-Resolves vm sig argv (omega arith))

-- What `invoke` returns and the world it leaves.
abbrev pub outcome : {W : Type 0} → Ret × W × List ℕ → Ret × W
outcome r = (r.0, r.1)

abbrev pub run_resolved : {W : Type 0} → Option (List Param) → Handle W → W → Ret × W
run_resolved none f w = (uvwasi efault, w)
run_resolved (some ps) f w = f ps w

invoke_resolved :
    {W : Type 0} (vm : Vm) (sh : Shape) (f : Handle W) (argc : ℕ) (argv : List ℕ) (w : W)
    → ltb argc (length (arg_sig sh)) ≡ false
    → (o : Option (List Param)) → Resolves (arg_sig sh) o (convert_args vm (arg_sig sh) argv)
    → outcome (invoke vm sh f argc argv w) ≡ run_resolved o f w
unfolding invoke
invoke_resolved vm sh f argc argv w h none r = rw (h, r, invoke) refl
invoke_resolved vm sh f argc argv w h (some ps) r =
    rw (h, r.0, invoke, do_syscall_params-decode, r.1) refl

-- With enough arguments a syscall's handler is run on exactly the arguments that its signature
-- resolves against the app's memory, and never otherwise: a pointer outside of the memory, or a
-- string that the runtime does not validate, gives EFAULT and leaves the world as it was.
pub invoke-run_resolved :
    {W : Type 0} (vm : Vm) (sh : Shape) (f : Handle W) (argc : ℕ) (argv : List ℕ) (w : W)
    → length argv ≡ argc
    → length (arg_sig sh) ≤ argc
    → outcome (invoke vm sh f argc argv w) ≡ run_resolved (resolve vm (arg_sig sh) argv) f w
invoke-run_resolved vm sh f argc argv w e h =
    invoke_resolved vm sh f argc argv w (ground arith) (resolve vm (arg_sig sh) argv)
      (convert_args-Resolves vm (arg_sig sh) argv (omega arith))

-- With too few arguments nothing is run or written, and the app gets ENOSYS.
pub invoke_short :
    {W : Type 0} (vm : Vm) (sh : Shape) (f : Handle W) (argc : ℕ) (argv : List ℕ) (w : W)
    → argc < length (arg_sig sh)
    → invoke vm sh f argc argv w ≡ (uvwasi enosys, w, argv)
unfolding invoke
invoke_short vm sh f argc argv w h = rw (lt→ltb argc _ h)
