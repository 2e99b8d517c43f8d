-- ===== src/Config/Laws.antt =====
-- What every sequence of options keeps true of a configuration, and what each option changes.
use wamr_ext.Prelude.{
  Bool, Option, [], arith, false, refl, ◌%◌, ◌<◌, ◌^◌, ◌∷◌, ◌≡◌, if◌then◌else◌, none, some, true, ℕ,
  ◌+◌, ◌≢◌, ◌≤◌, ◌⊎◌,
}
use wamr_ext.Config.{
  InstanceConfig, OptValue, add_host_dir, config_with, default_config, max_memory, set_opt,
  wasm_page_size, add_env_var, add_host_command, exception_callback, other,
  wamr_ext_set_instance_opt, arg, einval, ok,
}
use wamr_ext.Prelude.Text.{Text, has_byte, text_eq, text_compare}
use wamr_ext.Prelude.TextMap.{
  insert, lookup, lookup-insert, IsSorted, insert-IsSorted, Keys, insert-Keys,
}
use wamr_ext.TempDir.{get_temp_dir}

-- A command name that the app may use holds no path separator.
abbrev pub IsName : Text → Type 0
IsName k = (has_byte b'/' k ≡ false) × (has_byte b'\\' k ≡ false)

pub record IsValid (c : InstanceConfig) : Type 0 where
  pub commands_named : Keys IsName c.host_cmd_whitelist
  pub commands_sorted : IsSorted c.host_cmd_whitelist
  pub dirs_sorted : IsSorted c.pre_open_dirs
  pub vars_sorted : IsSorted c.env_vars
  pub whole_pages : c.max_memory % wasm_page_size ≡ 0
  pub has_memory : 0 < c.max_memory
  pub memory_fits : c.max_memory < 2 ^ 32

-- The value of an option fits its C type.
abbrev pub Fits : OptValue → Type 0
Fits (max_memory b) = b < 2 ^ 32
Fits _ = Unit {0}

default_names : Keys IsName (config_with []).host_cmd_whitelist
unfolding config_with insert text_compare has_byte
default_names = ((refl, refl), ((refl, refl), tt))

config_with-IsValid : (t : Text) → IsValid (config_with t)
unfolding config_with insert text_compare
config_with-IsValid [] = record {
  commands_named = default_names;
  commands_sorted = (refl, tt);
  dirs_sorted = (refl, tt);
  vars_sorted = tt;
  whole_pages = refl;
  has_memory = omega arith;
  memory_fits = omega arith;
}
config_with-IsValid (x ∷ t) = record {
  commands_named = default_names;
  commands_sorted = (refl, tt);
  dirs_sorted = (refl, (refl, tt));
  vars_sorted = tt;
  whole_pages = refl;
  has_memory = omega arith;
  memory_fits = omega arith;
}

-- The constructor's configuration is valid.
pub default_config-IsValid :
    (android : Bool) (getenv : Text → Option Text) → IsValid (default_config android getenv)
unfolding default_config
default_config-IsValid android getenv = config_with-IsValid (get_temp_dir android getenv)

set_opt-IsValid : (c : InstanceConfig) (o : OptValue) → Fits o → IsValid c → IsValid (set_opt c o).1
unfolding set_opt
set_opt-IsValid c (add_host_dir k v) f h =
    ground (arith, insert-IsSorted v k c.pre_open_dirs h.dirs_sorted)
set_opt-IsValid c (add_env_var k v) f h =
    ground (arith, insert-IsSorted k v c.env_vars h.vars_sorted)
set_opt-IsValid c (arg argv) f h = ground arith
set_opt-IsValid c (exception_callback cb) f h = ground arith
set_opt-IsValid c (add_host_command k v) f h = ground (
  arith,
  insert-IsSorted k v c.host_cmd_whitelist h.commands_sorted,
  insert-Keys IsName k v c.host_cmd_whitelist,
)
set_opt-IsValid c (max_memory b) f h = ground arith
set_opt-IsValid c other f h = h

-- Every option, with a null value and refused ones included, keeps a configuration valid: the keys
-- of the command whitelist hold no path separator, each map is sorted by its keys, and the memory
-- limit is a whole, positive number of pages that fits uint32_t.
pub set_instance_opt-IsValid :
    (c : InstanceConfig) (o : Option OptValue)
    → ((v : OptValue) → o ≡ some v → Fits v)
    → IsValid c
    → IsValid (wamr_ext_set_instance_opt c o).1
unfolding wamr_ext_set_instance_opt
set_instance_opt-IsValid c none f h = h
set_instance_opt-IsValid c (some o) f h = set_opt-IsValid c o (f o refl) h

-- An option that is refused changes nothing.
pub set_instance_opt_refused :
    (c : InstanceConfig) (o : Option OptValue)
    → (wamr_ext_set_instance_opt c o).0 ≢ ok
    → (wamr_ext_set_instance_opt c o).1 ≡ c
unfolding wamr_ext_set_instance_opt
set_instance_opt_refused c none h = refl
set_instance_opt_refused c (some (add_host_command k v)) h = ground arith
set_instance_opt_refused c (some (max_memory b)) h = ground arith
set_instance_opt_refused c (some other) h = refl
set_instance_opt_refused c (some o) h = absurd (h refl)

-- After ADD_HOST_COMMAND of a name with no path separator the app's command of that name runs the
-- command given, and every other name is looked up as before; a name with '/' or '' is refused.
pub add_host_command-lookup :
    (c : InstanceConfig) (k v j : Text)
    → let r = wamr_ext_set_instance_opt c (some (add_host_command k v)) in
      ((r.0 ≡ ok)
        × (has_byte b'/' k ≡ false)
        × (has_byte b'\\' k ≡ false)
        × (lookup j r.1.host_cmd_whitelist
            ≡ (if text_eq k j then some v else lookup j c.host_cmd_whitelist)))
      ⊎ ((r.0 ≡ einval) × ((has_byte b'/' k ≡ true) ⊎ (has_byte b'\\' k ≡ true)) × (r.1 ≡ c))
unfolding wamr_ext_set_instance_opt
add_host_command-lookup c k v j = ground (arith, lookup-insert k j v c.host_cmd_whitelist)

-- The memory limit after MAX_MEMORY is the greatest whole number of pages that is not above the
-- value; a value below one page is refused, and keeps the limit.
pub max_memory_rounds :
    (c : InstanceConfig) (b : ℕ)
    → let r = wamr_ext_set_instance_opt c (some (max_memory b)) in
      ((r.0 ≡ ok) × (r.1.max_memory ≤ b) × (b < r.1.max_memory + wasm_page_size))
      ⊎ ((r.0 ≡ einval) × (b < wasm_page_size) × (r.1.max_memory ≡ c.max_memory))
unfolding wamr_ext_set_instance_opt
max_memory_rounds c b = ground arith
