-- ===== src/Config.antt =====
-- An instance's configuration: WamrExtInstanceConfig (src/wamr_ext_lib/WamrExtInternalDef.h and .cpp)
-- and WamrExtSetInstanceOpt (src/wamr_ext_api/wamr_ext_api.cpp).
pub mod Laws
use wamr_ext.Prelude.{
  ℕ, ◌*◌, ◌/◌, Bool, ◌||◌, Option, none, some, List, [], ◌∷◌, is_empty, ◌==◌, if◌then◌else◌,
}
use wamr_ext.Prelude.Text.{Text, bytes, has_byte}
use wamr_ext.Prelude.TextMap.{TextMap, insert}
use wamr_ext.TempDir.{get_temp_dir}

-- WASM_PAGE_SIZE
abbrev pub wasm_page_size : ℕ
wasm_page_size = 64 * 1024

-- WamrExtInstanceExceptionCB: the address of a function, or null, and what is handed to it.
pub record ExceptionCb : Type 0 where
  pub func : Option ℕ
  pub user_data : ℕ

pub record InstanceConfig : Type 0 where
  pub pre_open_dirs : TextMap Text
  pub env_vars : TextMap Text
  pub host_cmd_whitelist : TextMap Text
  pub args : List Text
  pub max_memory : ℕ
  pub exception_cb : ExceptionCb

-- The constructor, after the directory for temporary files is known.
unfoldable pub config_with : Text → InstanceConfig
config_with temp_dir =
    let dirs = insert (bytes "/dev") (bytes "/dev") (insert (bytes "/etc") (bytes "/etc") []) in
    record {
      pre_open_dirs = if is_empty temp_dir then dirs else insert (bytes "/tmp") temp_dir dirs;
      env_vars = if is_empty temp_dir then [] else insert (bytes "TMPDIR") (bytes "/tmp") [];
      host_cmd_whitelist =
          insert (bytes "ping") (bytes "ping") (insert (bytes "uname") (bytes "uname") []);
      args = [];
      max_memory = 4194304 / wasm_page_size * wasm_page_size;
      exception_cb = record { func = none; user_data = 0 };
    }

-- WamrExtInstanceConfig()
unfoldable pub default_config : Bool → (Text → Option Text) → InstanceConfig
unfolding config_with
default_config android getenv = config_with (get_temp_dir android getenv)

-- What an API function returns: 0, EINVAL, -1 with a text for wamr_ext_strerror, or an errno.
pub data ApiRet : Type 0 where
  ok einval minus_one : ApiRet
  from_errno : ℕ → ApiRet

-- An option of enum WamrExtInstanceOpt with the value that the header documents for it; `other` is
-- any number outside of the enum.
pub data OptValue : Type 0 where
  add_host_dir : Text → Text → OptValue
  add_env_var : Text → Text → OptValue
  arg : List Text → OptValue
  exception_callback : ExceptionCb → OptValue
  add_host_command : Text → Text → OptValue
  max_memory : ℕ → OptValue
  other : OptValue

-- The switch of WamrExtSetInstanceOpt.
unfoldable pub set_opt : InstanceConfig → OptValue → ApiRet × InstanceConfig
set_opt c (add_host_dir k v) = (ok, record c { pre_open_dirs = insert v k c.pre_open_dirs })
set_opt c (add_env_var k v) = (ok, record c { env_vars = insert k v c.env_vars })
set_opt c (arg argv) = (ok, record c { args = argv })
set_opt c (exception_callback cb) = (ok, record c { exception_cb = cb })
set_opt c (add_host_command k v) =
    if has_byte b'/' k || has_byte b'\\' k
    then (einval, c)
    else (ok, record c { host_cmd_whitelist = insert k v c.host_cmd_whitelist })
set_opt c (max_memory bytes) =
    let max_mem = bytes / wasm_page_size * wasm_page_size in
    if max_mem == 0 then (einval, c) else (ok, record c { max_memory = max_mem })
set_opt c other = (einval, c)

-- WamrExtSetInstanceOpt; `none` is a null value.
unfoldable pub wamr_ext_set_instance_opt :
    InstanceConfig → Option OptValue → ApiRet × InstanceConfig
unfolding set_opt
wamr_ext_set_instance_opt c none = (einval, c)
wamr_ext_set_instance_opt c (some o) = set_opt c o
