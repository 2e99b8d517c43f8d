-- ===== src/Tests/MiniApp.antt =====
-- The command line app (MiniApp and its laws) with two directories for one of the app's.
use wamr_ext.Prelude.{[], refl, some, ◌∷◌, ◌≡◌, true, none}
use wamr_ext.Prelude.Int.{pos, negsuc}
use wamr_ext.Prelude.Text.{Text, bytes, has_byte, text_eq, text_compare}
use wamr_ext.Prelude.TextMap.{insert, lookup}
use wamr_ext.Tests.Instance.{small_config, good_answers}
use wamr_ext.Config.{ExceptionCb, InstanceConfig, wamr_ext_set_instance_opt}
use wamr_ext.Instance.{new_instance}
use wamr_ext.Instance.Start.{wamr_ext_instance_start, wamr_ext_instance_exec_main_func}
use wamr_ext.Instance.Memory.{enlarge}
use wamr_ext.Module.{
  wamr_ext_module_load_by_file, Module, wamr_ext_instance_create, wamr_ext_instance_set_opt,
  wamr_ext_module_set_inst_default_opt,
}
use wamr_ext.MiniApp.{MiniArgs, configure}
use wamr_ext.MiniApp.Main.{MainAnswers, returns_value, mini_main, callback_exits}
use wamr_ext.Tests.Module.{good_file}
use wamr_ext.Instance.Destroy.{
  wamr_ext_instance_destroy, destroy_actions, cleanup_app_threads, call_dtors, destroy_exec_env,
  deinstantiate,
}
use wamr_ext.MiniApp.Laws.{configure_dirs, mapped}

abbrev mini_args : MiniArgs
mini_args = record {
  max_mem = pos 131072;
  dirs = bytes "/a:/data" ∷ bytes "/b:/data" ∷ [];
  cmds = bytes "ls:/bin/ls" ∷ [];
  prog_args = bytes "app.wasm" ∷ bytes "-v" ∷ [];
}

abbrev mini_module : Module
mini_module = record {
  buf_len = 8;
  wasm_module = 1;
  module_name = bytes "app";
  inst_default_conf = small_config;
}

abbrev print_cb : ExceptionCb
print_cb = record { func = some 3; user_data = 0 }

abbrev mini_config : InstanceConfig
mini_config = record {
  pre_open_dirs = (bytes "/data", bytes "/b") ∷ [];
  env_vars = small_config.env_vars;
  host_cmd_whitelist = (bytes "ls", bytes "/bin/ls") ∷ [];
  args = bytes "app.wasm" ∷ bytes "-v" ∷ [];
  max_memory = 131072;
  exception_cb = print_cb;
}

configures : configure print_cb mini_args mini_module ≡ some (new_instance mini_config)
unfolding configure wamr_ext_instance_create wamr_ext_instance_set_opt wamr_ext_set_instance_opt
    wamr_ext_module_set_inst_default_opt new_instance insert text_compare has_byte
configures = refl

configure_dirs_example :
    ((new_instance mini_config).config.args ≡ mini_args.prog_args)
    × ((dir : Text)
        → lookup dir (new_instance mini_config).config.pre_open_dirs
          ≡ mapped mini_args.dirs dir (lookup dir small_config.pre_open_dirs))
configure_dirs_example =
    configure_dirs print_cb mini_args mini_module (new_instance mini_config) configures

abbrev main_answers : MainAnswers
main_answers = record {
  stem = λ path. bytes "app";
  default_conf = small_config;
  load = good_file;
  starting = good_answers;
  has_main = true;
  main_func = some (pos 0);
  reported = none;
  has_dtors = true;
  fds = [];
}

-- The app's file is loaded, and its main returns 0.
mini_main_runs :
    mini_main print_cb main_answers mini_args (bytes "app.wasm")
    ≡ returns_value
        (pos 0)
        (cleanup_app_threads ∷ call_dtors ∷ destroy_exec_env 9 ∷ deinstantiate ∷ [])
unfolding mini_main wamr_ext_module_load_by_file text_eq configure wamr_ext_instance_start
    wamr_ext_instance_set_opt wamr_ext_instance_create enlarge wamr_ext_module_set_inst_default_opt
    has_byte wamr_ext_instance_exec_main_func wamr_ext_instance_destroy destroy_actions
mini_main_runs = refl

-- An exception of one of the app's threads, which the loop's thread finds first.
mini_main_reports :
    mini_main print_cb
      (record main_answers { reported = some (bytes "unreachable") })
      mini_args
      (bytes "app.wasm")
    ≡ callback_exits (negsuc 0)
unfolding mini_main wamr_ext_module_load_by_file text_eq configure wamr_ext_instance_start
    wamr_ext_instance_set_opt wamr_ext_instance_create enlarge wamr_ext_module_set_inst_default_opt
    has_byte wamr_ext_set_instance_opt new_instance
mini_main_reports = refl
