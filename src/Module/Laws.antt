-- ===== src/Module/Laws.antt =====
-- What loading a module releases and needs, and how every instance of it is configured.
use wamr_ext.Prelude.Text.{Text, bytes, text_eq, text_eq_iff}
use wamr_ext.Prelude.{
  Bool, List, Option, [], arith, false, if◌then◌else◌, is_empty, is_some, some, suc, true, ℕ, ◌%◌,
  ◌+◌, ◌<◌, ◌^◌, ◌↔◌, ◌∷◌, ◌≡◌, ◌≢◌, Bool-cases, inl, inr, refl, ◌==◌,
}
use wamr_ext.Module.{
  wamr_ext_check_new_module_name, FileEvent, LoadAnswers, Module, opened, closed, mapped, unmapped,
  wamr_ext_instance_create, wamr_ext_instance_set_opt, wamr_ext_module_load_by_file,
  wamr_ext_module_set_inst_default_opt,
}
use wamr_ext.Config.{InstanceConfig, OptValue, ok}
use wamr_ext.Config.Laws.{IsValid, Fits, set_instance_opt-IsValid}
use wamr_ext.Instance.{Instance}
use wamr_ext.Exec.{returns}

abbrev pub count_events : (FileEvent → Bool) → List FileEvent → ℕ
count_events f [] = 0
count_events f (e ∷ es) = let rest = count_events f es in if f e then suc rest else rest

abbrev pub is_opened : FileEvent → Bool
is_opened opened = true
is_opened _ = false

abbrev pub is_closed : FileEvent → Bool
is_closed closed = true
is_closed _ = false

abbrev pub is_mapped : FileEvent → Bool
is_mapped mapped = true
is_mapped _ = false

abbrev pub is_unmapped : FileEvent → Bool
is_unmapped unmapped = true
is_unmapped _ = false

-- On every way through wamr_ext_module_load_by_file the file is closed as often as it is opened, the
-- mapping is given up exactly if no module keeps it, and there is a module exactly if 0 is returned.
pub load_by_file_releases :
    (a : LoadAnswers) (conf : InstanceConfig) (name : Option Text)
    → let (r, m, es) = wamr_ext_module_load_by_file a conf name in
      (count_events is_closed es ≡ count_events is_opened es)
      × (count_events is_mapped es ≡ count_events is_unmapped es + (if is_some m then 1 else 0))
      × ((r ≡ ok) ↔ (is_some m ≡ true))
unfolding wamr_ext_module_load_by_file
load_by_file_releases a conf name = ground arith

-- A file is loaded, and the module has the configuration and the name given, where the name is not
-- empty, not that of a built-in module and not wamr_ext, the file can be opened and mapped, its size is
-- not a multiple of 2 ^ 32, and the runtime loads the file, its size cut to uint32_t.
pub load_by_file_loads :
    (a : LoadAnswers) (conf : InstanceConfig) (name : Text) (fd addr m : ℕ)
    → is_empty name ≡ false
    → a.is_built_in name ≡ false
    → name ≢ bytes "wamr_ext"
    → a.open_file ≡ returns fd
    → 0 < a.st_size % 2 ^ 32
    → a.mmap (a.st_size % 2 ^ 32) ≡ returns addr
    → a.load (a.st_size % 2 ^ 32) ≡ some m
    → wamr_ext_module_load_by_file a conf (some name) ≡ (
      ok,
      some (record {
        buf_len = a.st_size % 2 ^ 32;
        wasm_module = m;
        module_name = name;
        inst_default_conf = conf;
      }),
      opened ∷ mapped ∷ closed ∷ [],
    )
unfolding wamr_ext_module_load_by_file
load_by_file_loads a conf name fd addr m e b n o s p l =
    let other_name : text_eq name (bytes "wamr_ext") ≡ false =
      elim (Bool-cases (text_eq name (bytes "wamr_ext"))) [
        | inl h ↦ absurd (n ((text_eq_iff name (bytes "wamr_ext")).0 h))
        | inr h ↦ h
      ] in
    let not_empty : (a.st_size % 2 ^ 32 == 0) ≡ false = ground arith in
    let named : wamr_ext_check_new_module_name a.is_built_in (some name) ≡ true =
      rw (e, b, other_name, wamr_ext_check_new_module_name) refl in
    rw (named, o, not_empty, p, l, named) refl

-- Options set one after another; codes that are returned are not looked at.
abbrev pub set_default_opts : List (Option OptValue) → Module → Module
set_default_opts [] m = m
set_default_opts (o ∷ os) m = set_default_opts os (wamr_ext_module_set_inst_default_opt m o).1

abbrev pub set_opts : List (Option OptValue) → Instance → Instance
set_opts [] i = i
set_opts (o ∷ os) i = set_opts os (wamr_ext_instance_set_opt i o).1

abbrev pub AllFit : List (Option OptValue) → Type 0
AllFit [] = Unit {0}
AllFit (o ∷ os) = ((v : OptValue) → o ≡ some v → Fits v) × AllFit os

set_default_opts-IsValid :
    (os : List (Option OptValue)) (m : Module)
    → AllFit os
    → IsValid m.inst_default_conf
    → IsValid (set_default_opts os m).inst_default_conf
unfolding wamr_ext_module_set_inst_default_opt
set_default_opts-IsValid [] m f v = v
set_default_opts-IsValid (o ∷ os) m f v =
    set_default_opts-IsValid os (wamr_ext_module_set_inst_default_opt m o).1 f.1
      (set_instance_opt-IsValid m.inst_default_conf o f.0 v)

set_opts-IsValid :
    (os : List (Option OptValue)) (i : Instance)
    → AllFit os
    → IsValid i.config
    → IsValid (set_opts os i).config
unfolding wamr_ext_instance_set_opt
set_opts-IsValid [] i f v = v
set_opts-IsValid (o ∷ os) i f v =
    set_opts-IsValid os (wamr_ext_instance_set_opt i o).1 f.1
      (set_instance_opt-IsValid i.config o f.0 v)

-- Let a module's default configuration be valid, as the constructor's is. Whatever options are set on the
-- module, then on an instance that is created, refused ones included, the instance's configuration is
-- valid.
pub instance-IsValid :
    (m : Module) (defaults opts : List (Option OptValue))
    → IsValid m.inst_default_conf
    → AllFit defaults
    → AllFit opts
    → IsValid (set_opts opts (wamr_ext_instance_create (set_default_opts defaults m))).config
unfolding wamr_ext_instance_create
instance-IsValid m defaults opts v f g =
    set_opts-IsValid opts _ g (set_default_opts-IsValid defaults m f v)
