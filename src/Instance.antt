-- ===== src/Instance.antt =====
-- An instance: WamrExtInstance (src/wamr_ext_lib/WamrExtInternalDef.h). The locks are not fields:
-- which critical section an operation is in is the step relation's matter (Instance/Interleave).
pub mod Memory
pub mod WasiArgs
pub mod Start
pub mod Destroy
pub mod Loop
pub mod Interleave
pub mod Balance
pub mod FailedStart
pub mod Freeing
use wamr_ext.Prelude.{ℕ, Bool, false, Option, none}
use wamr_ext.Config.{InstanceConfig}

-- The states, in the order of the enum.
pub data State : Type 0 where
  new started ended destroying destroyed : State

-- The fields of WASMMemoryInstance that the program reads and writes.
pub record MemoryInstance : Type 0 where
  pub max_page_count : ℕ
  pub num_bytes_per_page : ℕ
  pub memory_data : ℕ
  pub memory_data_end : ℕ
  pub memory_data_size : ℕ
  pub heap_data : ℕ
  pub heap_data_end : ℕ
  pub heap_handle : Option ℕ
  pub bound_check_1byte : ℕ
  pub bound_check_2bytes : ℕ
  pub bound_check_4bytes : ℕ
  pub bound_check_8bytes : ℕ
  pub bound_check_16bytes : ℕ

-- `main_instance` is wasmMainInstance with its default memory, and `custom_data` says whether the
-- instance was stored as the custom data of wasmMainInstance.
pub record Instance : Type 0 where
  pub state : State
  pub config : InstanceConfig
  pub main_instance : Option MemoryInstance
  pub main_exec_env : Option ℕ
  pub custom_data : Bool

-- WamrExtInstance(pModule, …): the configuration is a copy of the module's.
unfoldable pub new_instance : InstanceConfig → Instance
new_instance inst_default_conf = record {
  state = new;
  config = inst_default_conf;
  main_instance = none;
  main_exec_env = none;
  custom_data = false;
}
