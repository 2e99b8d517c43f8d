-- ===== src/Tests/Instance.antt =====
-- Instances (Instance/Memory, WasiArgs, Start, Destroy, Loop) with a memory of one page of 64 KiB.
use wamr_ext.Prelude.{List, Option, [], arith, map, none, refl, some, true, ℕ, ◌∷◌, ◌≡◌}
use wamr_ext.Prelude.Text.{Text, bytes, has_byte}
use wamr_ext.Instance.{Instance, MemoryInstance, State, new_instance}
use wamr_ext.Instance.Memory.{enlarge-Enlarged, enlarge, Enlarged, IsLaidOut}
use wamr_ext.Instance.WasiArgs.{wasi_args_round_trip, wasi_args, env_of_strings, pair_up}
use wamr_ext.Instance.Start.{StartAnswers}
use wamr_ext.Instance.Destroy.{wamr_ext_instance_destroy, Action}
use wamr_ext.Instance.Loop.{
  loop_check_instances_lem, loop_check_instances, ended_if_raised, kept, reports,
}
use wamr_ext.Config.{InstanceConfig}

abbrev pub small_memory : MemoryInstance
small_memory = record {
  max_page_count = 1;
  num_bytes_per_page = 65536;
  memory_data = 4096;
  memory_data_end = 69632;
  memory_data_size = 65536;
  heap_data = 36864;
  heap_data_end = 69632;
  heap_handle = some 7;
  bound_check_1byte = 65535;
  bound_check_2bytes = 65534;
  bound_check_4bytes = 65532;
  bound_check_8bytes = 65528;
  bound_check_16bytes = 65520;
}

small_memory-IsLaidOut : IsLaidOut small_memory
small_memory-IsLaidOut = omega arith

abbrev big_block : ℕ → ℕ → Option ℕ
big_block p n = some 1048576

enlarge-Enlarged_example :
    Enlarged 131072 big_block small_memory (enlarge 131072 big_block small_memory)
enlarge-Enlarged_example =
    enlarge-Enlarged 131072 big_block small_memory small_memory-IsLaidOut (omega arith)

abbrev pub small_config : InstanceConfig
small_config = record {
  pre_open_dirs = (bytes "/data", bytes "/srv") ∷ [];
  env_vars = (bytes "A", bytes "1=2") ∷ [];
  host_cmd_whitelist = [];
  args = bytes "app" ∷ [];
  max_memory = 131072;
  exception_cb = record { func = some 5; user_data = 6 };
}

wasi_args_round_trip_example :
    (pair_up (wasi_args small_config).pre_open_map_dirs (wasi_args small_config).pre_open_host_dirs
      ≡ small_config.pre_open_dirs)
    × (env_of_strings (wasi_args small_config).env_vars ≡ small_config.env_vars)
    × ((wasi_args small_config).argv ≡ small_config.args)
unfolding has_byte
wasi_args_round_trip_example = wasi_args_round_trip small_config (refl, tt)

abbrev pub good_answers : StartAnswers
good_answers = record {
  instantiate = λ args. some small_memory;
  create_exec_env = some 9;
  realloc = big_block;
  has_initialize = true;
  initialize_returns = true;
}

abbrev fresh_instance : Instance
fresh_instance = new_instance small_config

abbrev running : Instance
running = record {
  state = State.started;
  config = small_config;
  main_instance = some small_memory;
  main_exec_env = some 9;
  custom_data = true;
}

abbrev fds : List (Option ℕ)
fds = some 0 ∷ none ∷ some 2 ∷ []

abbrev torn : List Action × Instance
torn = wamr_ext_instance_destroy true fds running

abbrev out_of_bounds : Instance → Option Text
out_of_bounds i = some (bytes "out of bounds memory access")

loop_check_instances_lem_example :
    loop_check_instances out_of_bounds (fresh_instance ∷ running ∷ torn.1 ∷ []) ≡ (
      map (ended_if_raised out_of_bounds) (kept (fresh_instance ∷ running ∷ torn.1 ∷ [])),
      reports out_of_bounds (fresh_instance ∷ running ∷ torn.1 ∷ []),
    )
loop_check_instances_lem_example =
    loop_check_instances_lem out_of_bounds (fresh_instance ∷ running ∷ torn.1 ∷ [])
