-- ===== src/Module.antt =====
-- Modules: WamrExtModule (src/wamr_ext_lib/WamrExtInternalDef.h), and the API functions that load one,
-- set its default options and create instances of it (src/wamr_ext_api/wamr_ext_api.cpp).
pub mod Laws
use wamr_ext.Prelude.Text.{Text, bytes, text_eq}
use wamr_ext.Prelude.{
  Bool, List, Option, [], false, if◌then◌else◌, is_empty, none, not, some, ℕ, ◌==◌, ◌||◌, ◌∷◌,
}
use wamr_ext.Vm.{u32}
use wamr_ext.Exec.{CRet, fails, returns}
use wamr_ext.Config.{
  InstanceConfig, OptValue, ApiRet, wamr_ext_set_instance_opt, einval, from_errno, minus_one, ok,
}
use wamr_ext.Instance.{Instance, new_instance}

-- `buf_len` is the size of pModuleBuf.
pub record Module : Type 0 where
  pub buf_len : ℕ
  pub wasm_module : ℕ
  pub module_name : Text
  pub inst_default_conf : InstanceConfig

-- What the runtime and the host answer: wasm_runtime_is_built_in_module, wasm_runtime_load for a
-- buffer's length, open, the size that fstat gives, and mmap for a size.
pub record LoadAnswers : Type 0 where
  pub is_built_in : Text → Bool
  pub load : ℕ → Option ℕ
  pub open_file : CRet ℕ
  pub st_size : ℕ
  pub mmap : ℕ → CRet ℕ

-- WamrExtCheckNewModuleName: true where it returns 0. `none` is a null name.
unfoldable pub wamr_ext_check_new_module_name : (Text → Bool) → Option Text → Bool
wamr_ext_check_new_module_name is_built_in none = false
wamr_ext_check_new_module_name is_built_in (some name) =
    not (is_empty name || (is_built_in name || text_eq name (bytes "wamr_ext")))

abbrev pub text_of : Option Text → Text
text_of none = []
text_of (some t) = t

-- WamrExtModuleLoad: the module is stored where it returns 0; `conf` is the configuration that its
-- constructor makes.
unfoldable pub wamr_ext_module_load :
    LoadAnswers → InstanceConfig → Option Text → ℕ → ApiRet × Option Module
unfolding wamr_ext_check_new_module_name
wamr_ext_module_load a conf name len =
    if wamr_ext_check_new_module_name a.is_built_in name
    then elim (a.load len) [
      | none ↦ (minus_one, none)
      | some m ↦ (
        ok,
        some (record {
          buf_len = len;
          wasm_module = m;
          module_name = text_of name;
          inst_default_conf = conf;
        }),
      )
    ]
    else (einval, none)

-- What wamr_ext_module_load_by_file does to the host's files: open, close, mmap and munmap. A module
-- keeps the shared pointer to its mapping, which is unmapped with the last one.
pub data FileEvent : Type 0 where
  opened closed mapped unmapped : FileEvent

abbrev pub unmapped_unless : Option Module → List FileEvent
unmapped_unless none = unmapped ∷ []
unmapped_unless (some m) = []

-- The part with the file open.
unfoldable pub load_opened :
    LoadAnswers → InstanceConfig → Option Text → ApiRet × Option Module × List FileEvent
unfolding wamr_ext_module_load
load_opened a conf name =
    let file_size = u32 a.st_size in
    if file_size == 0 then (einval, none, opened ∷ closed ∷ []) else elim (a.mmap file_size) [
      | fails n ↦ (from_errno n, none, opened ∷ closed ∷ [])
      | returns addr ↦
          let (r, m) = wamr_ext_module_load a conf name file_size in
          (r, m, opened ∷ mapped ∷ closed ∷ unmapped_unless m)
    ]

unfoldable pub wamr_ext_module_load_by_file :
    LoadAnswers → InstanceConfig → Option Text → ApiRet × Option Module × List FileEvent
unfolding wamr_ext_check_new_module_name load_opened
wamr_ext_module_load_by_file a conf name =
    if wamr_ext_check_new_module_name a.is_built_in name
    then elim a.open_file [
      | fails n ↦ (from_errno n, none, [])
      | returns fd ↦ load_opened a conf name
    ]
    else (einval, none, [])

-- `none` is a null buffer or a null module.
unfoldable pub wamr_ext_module_load_by_buffer :
    LoadAnswers → InstanceConfig → Option Text → Option ℕ → ApiRet × Option Module
unfolding wamr_ext_module_load
wamr_ext_module_load_by_buffer a conf name none = (einval, none)
wamr_ext_module_load_by_buffer a conf name (some len) =
    if len == 0 then (einval, none) else wamr_ext_module_load a conf name len

-- wamr_ext_module_set_inst_default_opt, of a module.
unfoldable pub wamr_ext_module_set_inst_default_opt : Module → Option OptValue → ApiRet × Module
unfolding wamr_ext_set_instance_opt
wamr_ext_module_set_inst_default_opt m o =
    let (r, c) = wamr_ext_set_instance_opt m.inst_default_conf o in
    (r, record m { inst_default_conf = c })

-- wamr_ext_instance_create, of a module.
unfoldable pub wamr_ext_instance_create : Module → Instance
unfolding new_instance
wamr_ext_instance_create m = new_instance m.inst_default_conf

-- wamr_ext_instance_set_opt, of an instance.
unfoldable pub wamr_ext_instance_set_opt : Instance → Option OptValue → ApiRet × Instance
unfolding wamr_ext_set_instance_opt
wamr_ext_instance_set_opt i o =
    let (r, c) = wamr_ext_set_instance_opt i.config o in (r, record i { config = c })
