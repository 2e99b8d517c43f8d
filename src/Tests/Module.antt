-- ===== src/Tests/Module.antt =====
-- Modules (Module, Module/Laws): a file of 100 bytes that the runtime loads, and one that it refuses.
use wamr_ext.Prelude.Text.{Text, bytes}
use wamr_ext.Prelude.{
  List, Option, [], false, if◌then◌else◌, is_some, none, some, true, ◌+◌, ◌↔◌, ◌∷◌, ◌≡◌,
}
use wamr_ext.Tests.Config.{test_config, test_env, value-Fits}
use wamr_ext.Config.Laws.{IsValid, default_config-IsValid}
use wamr_ext.Config.{max_memory, ApiRet, ok}
use wamr_ext.Module.{
  LoadAnswers, Module, wamr_ext_module_load_by_file, wamr_ext_instance_create, FileEvent,
}
use wamr_ext.Module.Laws.{
  load_by_file_releases, instance-IsValid, count_events, is_closed, is_opened, is_mapped,
  is_unmapped, set_opts, set_default_opts,
}
use wamr_ext.Exec.{returns}

abbrev pub good_file : LoadAnswers
good_file = record {
  is_built_in = λ name. false;
  load = λ len. some 77;
  open_file = returns 4;
  st_size = 100;
  mmap = λ n. returns 8192;
}

abbrev bad_file : LoadAnswers
bad_file = record good_file { load = λ len. none }

abbrev app_name : Text
app_name = bytes "app"

abbrev refused : ApiRet × Option Module × List FileEvent
refused = wamr_ext_module_load_by_file bad_file test_config (some app_name)

load_by_file_releases_example :
    (count_events is_closed refused.2 ≡ count_events is_opened refused.2)
    × (count_events is_mapped refused.2
        ≡ count_events is_unmapped refused.2 + (if is_some refused.1 then 1 else 0))
    × ((refused.0 ≡ ok) ↔ (is_some refused.1 ≡ true))
load_by_file_releases_example = load_by_file_releases bad_file test_config (some app_name)

abbrev app : Module
app = record {
  buf_len = 100;
  wasm_module = 77;
  module_name = app_name;
  inst_default_conf = test_config;
}

instance-IsValid_example :
    IsValid
      (set_opts
        (none ∷ [])
        (wamr_ext_instance_create (set_default_opts (some (max_memory 200000) ∷ []) app))).config
instance-IsValid_example =
    instance-IsValid app (some (max_memory 200000) ∷ []) (none ∷ [])
      (default_config-IsValid false test_env) (value-Fits, tt) ((λ v e. absurd (cc e)), tt)
