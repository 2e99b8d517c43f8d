-- ===== src/MiniApp.antt =====
-- src/wamr_ext_app/MiniApp.cpp: the command line app. What the argument parser found is its argument; the
-- texts that it prints are left out, and `none` is an exit with code 1.
pub mod Laws
pub mod Main
pub mod Ends
use wamr_ext.Prelude.{
  Bool, List, Option, [], if◌then◌else◌, is_empty, ltb, none, some, ℕ, ◌==◌, ◌||◌, ◌∷◌,
}
use wamr_ext.Prelude.Int.{ℤ, negsuc, pos}
use wamr_ext.Prelude.Text.{Text}
use wamr_ext.Config.{
  ExceptionCb, OptValue, add_host_command, add_host_dir, arg, exception_callback, max_memory,
}
use wamr_ext.Instance.{Instance}
use wamr_ext.Module.{
  Module, wamr_ext_instance_create, wamr_ext_instance_set_opt, wamr_ext_module_set_inst_default_opt,
}

-- --max-memory, --dir, --cmd, and the app's file with its arguments.
pub record MiniArgs : Type 0 where
  pub max_mem : ℤ
  pub dirs : List Text
  pub cmds : List Text
  pub prog_args : List Text

-- srcStr up to the first colon, and what is behind it.
unfoldable pub split_colon : Text → Option (Text × Text)
split_colon [] = none
split_colon (x ∷ s) =
    let rest = split_colon s in
    if x == b':' then some ([], s) else elim rest [ none ↦ none | some (k, v) ↦ some (x ∷ k, v) ]

-- SplitKeyValue
unfoldable pub split_key_value : Text → Option (Text × Text)
unfolding split_colon
split_key_value s = elim (split_colon s) [
  | none ↦ none
  | some (k, v) ↦ if is_empty k || is_empty v then none else some (k, v)
]

abbrev set_default : Module → OptValue → Module
set_default m o = (wamr_ext_module_set_inst_default_opt m (some o)).1

-- The loop over --dir or --cmd.
unfoldable pub set_pairs : (Text → Text → OptValue) → List Text → Module → Option Module
unfolding split_key_value
set_pairs opt [] m = some m
set_pairs opt (s ∷ pairs) m = elim (split_key_value s) [
  | none ↦ none
  | some (k, v) ↦ set_pairs opt pairs (set_default m (opt k v))
]

unfoldable pub set_max_memory : ℤ → Module → Module
set_max_memory (pos n) m = if ltb 0 n then set_default m (max_memory n) else m
set_max_memory (negsuc n) m = m

-- From the loaded module to the instance that is started; `cb` is the function that prints the exception
-- and exits.
unfoldable pub configure : ExceptionCb → MiniArgs → Module → Option Instance
unfolding set_pairs set_max_memory
configure cb a m = elim (set_pairs add_host_dir a.dirs (set_max_memory a.max_mem m)) [
  | none ↦ none
  | some with_dirs ↦ elim (set_pairs add_host_command a.cmds with_dirs) [
    | none ↦ none
    | some with_cmds ↦
        let inst = wamr_ext_instance_create (set_default with_cmds (exception_callback cb)) in
        some ((wamr_ext_instance_set_opt inst (some (arg a.prog_args))).1)
  ]
]
