-- ===== src/Instance/WasiArgs.antt =====
-- The lists that wamr_ext_instance_start (src/wamr_ext_api/wamr_ext_api.cpp) makes of the
-- configuration for wasm_runtime_set_wasi_args_ex.
use wamr_ext.Config.{InstanceConfig}
use wamr_ext.Prelude.{◌≡◌, refl, List, [], arith, false, if◌then◌else◌, ℕ, ◌++◌, ◌==◌, ◌∷◌}
use wamr_ext.Prelude.Text.{Text, has_byte}
use wamr_ext.Prelude.TextMap.{TextMap, Keys}

pub record WasiArgs : Type 0 where
  pub pre_open_host_dirs : List Text
  pub pre_open_map_dirs : List Text
  pub env_vars : List Text
  pub argv : List Text

-- The loop over preOpenDirs: the hosts' directories, and the app's.
unfoldable pub host_dirs : TextMap Text → List Text
host_dirs [] = []
host_dirs ((mapped, host_dir) ∷ m) = host_dir ∷ host_dirs m

unfoldable pub map_dirs : TextMap Text → List Text
map_dirs [] = []
map_dirs ((mapped, host_dir) ∷ m) = mapped ∷ map_dirs m

-- The loop over envVars: p.first + '=' + p.second.
unfoldable pub env_strings : TextMap Text → List Text
env_strings [] = []
env_strings ((k, v) ∷ m) = (k ++ b'=' ∷ v) ∷ env_strings m

unfoldable pub wasi_args : InstanceConfig → WasiArgs
unfolding host_dirs map_dirs env_strings
wasi_args c = record {
  pre_open_host_dirs = host_dirs c.pre_open_dirs;
  pre_open_map_dirs = map_dirs c.pre_open_dirs;
  env_vars = env_strings c.env_vars;
  argv = c.args;
}

-- How an app reads a string of its environment: the name is what stands before the first '='.
abbrev pub onto_name : ℕ → Text × Text → Text × Text
onto_name c (k, v) = (c ∷ k, v)

pub split_env : Text → Text × Text
split_env [] = ([], [])
split_env (c ∷ t) = let rest = split_env t in if c == b'=' then ([], t) else onto_name c rest

pub env_of_strings : List Text → TextMap Text
env_of_strings [] = []
env_of_strings (t ∷ ts) = split_env t ∷ env_of_strings ts

pub pair_up : List Text → List Text → TextMap Text
pair_up [] hs = []
pair_up (m ∷ ms) [] = []
pair_up (m ∷ ms) (h ∷ hs) = (m, h) ∷ pair_up ms hs

-- The name of an environment variable holds no '='.
abbrev pub IsVarName : Text → Type 0
IsVarName k = has_byte b'=' k ≡ false

split_env-append : (k v : Text) → IsVarName k → split_env (k ++ b'=' ∷ v) ≡ (k, v)
unfolding split_env has_byte
split_env-append [] v h = refl
split_env-append (c ∷ k) v h = ground (arith, split_env-append k v)

env_of_strings-env_strings :
    (m : TextMap Text) → Keys IsVarName m → env_of_strings (env_strings m) ≡ m
unfolding env_of_strings env_strings
env_of_strings-env_strings [] h = refl
env_of_strings-env_strings ((k, v) ∷ m) h =
    rw (split_env-append k v h.0, env_of_strings-env_strings m h.1)

pair_up-dirs : (m : TextMap Text) → pair_up (map_dirs m) (host_dirs m) ≡ m
unfolding pair_up map_dirs host_dirs
pair_up-dirs [] = refl
pair_up-dirs ((k, v) ∷ m) = rw (pair_up-dirs m)

-- The lists that the runtime is given carry the whole configuration: the two directory lists pair up
-- to the mapped directories, each with its own host directory, and splitting the environment's
-- strings at the first '=' gives the variables back, where no variable's name holds a '='.
pub wasi_args_round_trip :
    (c : InstanceConfig)
    → Keys IsVarName c.env_vars
    → (pair_up (wasi_args c).pre_open_map_dirs (wasi_args c).pre_open_host_dirs ≡ c.pre_open_dirs)
      × (env_of_strings (wasi_args c).env_vars ≡ c.env_vars)
      × ((wasi_args c).argv ≡ c.args)
unfolding wasi_args
wasi_args_round_trip c h =
    (pair_up-dirs c.pre_open_dirs, env_of_strings-env_strings c.env_vars h, refl)
