-- ===== src/MiniApp/Laws.antt =====
-- What the options of the command line app (src/wamr_ext_app/MiniApp.cpp) make of the instance.
use wamr_ext.Prelude.{
  List, Option, Option-cases, [], ap, arith, false, if◌then◌else◌, inl, inr, none, refl, some, sym,
  ◌++◌, ◌==◌, ◌∷◌, ◌≡◌, ◌∙◌,
}
use wamr_ext.Prelude.Int.{ℤ, negsuc, pos}
use wamr_ext.Prelude.Text.{Text, has_byte, text_eq}
use wamr_ext.Prelude.TextMap.{TextMap, lookup, lookup-insert}
use wamr_ext.Config.{add_host_command, add_host_dir, wamr_ext_set_instance_opt, ExceptionCb}
use wamr_ext.Instance.{Instance, new_instance}
use wamr_ext.Module.{
  wamr_ext_instance_create, wamr_ext_instance_set_opt, Module, wamr_ext_module_set_inst_default_opt,
  wamr_ext_instance_create, wamr_ext_instance_set_opt,
}
use wamr_ext.MiniApp.{
  set_max_memory, set_pairs, split_colon, split_key_value, set_default, MiniArgs, configure,
}

-- A text of two parts, the first without a colon.
pub split_colon-append :
    (k v : Text) → has_byte b':' k ≡ false → split_colon (k ++ (b':' ∷ v)) ≡ some (k, v)
unfolding split_colon has_byte
split_colon-append [] v h = refl
split_colon-append (x ∷ k) v h =
    let other_byte : (x == b':') ≡ false = ground (arith, h) in
    let later : has_byte b':' k ≡ false = ground (arith, h) in
    rw (other_byte, split_colon-append k v later) refl

-- What the last of the options for the app's directory maps it to, or what was mapped before.
unfoldable pub mapped : List Text → Text → Option Text → Option Text
mapped [] dir o = o
mapped (s ∷ dirs) dir o = mapped dirs dir (elim (split_key_value s) [
  | none ↦ o
  | some (host_dir, app_dir) ↦ if text_eq app_dir dir then some host_dir else o
])

abbrev dirs_of : Module → TextMap Text
dirs_of m = m.inst_default_conf.pre_open_dirs

set_pairs-dirs :
    (dirs : List Text) (m n : Module) (dir : Text)
    → set_pairs add_host_dir dirs m ≡ some n
    → lookup dir (dirs_of n) ≡ mapped dirs dir (lookup dir (dirs_of m))
unfolding set_pairs mapped wamr_ext_module_set_inst_default_opt wamr_ext_set_instance_opt
set_pairs-dirs [] m n dir e =
    let same : m ≡ n = cc e in ap (λ (x : Module). lookup dir (dirs_of x)) (sym same)
set_pairs-dirs (s ∷ dirs) m n dir e = elim (Option-cases (split_key_value s)) [
  | inl bad ↦ let fails : none ≡ some n = rw (bad, set_pairs) at e in absurd (cc fails)
  | inr (kv, parts) ↦
      let next_module = set_default m (add_host_dir kv.0 kv.1) in
      let later : set_pairs add_host_dir dirs next_module ≡ some n = rw (parts, set_pairs) at e in
      let entered = lookup-insert kv.1 dir kv.0 (dirs_of m) in
      set_pairs-dirs dirs next_module n dir later ∙ rw (parts, mapped, entered) refl
]

set_pairs-keeps :
    (cmds : List Text) (m n : Module)
    → set_pairs add_host_command cmds m ≡ some n
    → dirs_of n ≡ dirs_of m
unfolding set_pairs wamr_ext_module_set_inst_default_opt wamr_ext_set_instance_opt
set_pairs-keeps [] m n e = let same : m ≡ n = cc e in ap dirs_of (sym same)
set_pairs-keeps (s ∷ cmds) m n e = elim (Option-cases (split_key_value s)) [
  | inl bad ↦ let fails : none ≡ some n = rw (bad, set_pairs) at e in absurd (cc fails)
  | inr (kv, parts) ↦
      let next_module = set_default m (add_host_command kv.0 kv.1) in
      let later : set_pairs add_host_command cmds next_module ≡ some n =
        rw (parts, set_pairs) at e in
      let kept : dirs_of next_module ≡ dirs_of m = ground arith in
      set_pairs-keeps cmds next_module n later ∙ kept
]

set_max_memory-dirs : (z : ℤ) (m : Module) → dirs_of (set_max_memory z m) ≡ dirs_of m
unfolding set_max_memory wamr_ext_module_set_inst_default_opt wamr_ext_set_instance_opt
set_max_memory-dirs (pos n) m = ground arith
set_max_memory-dirs (negsuc n) m = refl

module _ (cb : ExceptionCb) (a : MiniArgs) (m : Module) (i : Instance) where
  -- The instance, where both loops end.
  configured_from :
      (with_dirs with_cmds : Module)
      → set_pairs add_host_dir a.dirs (set_max_memory a.max_mem m) ≡ some with_dirs
      → set_pairs add_host_command a.cmds with_dirs ≡ some with_cmds
      → configure cb a m ≡ some i
      → (i.config.pre_open_dirs ≡ dirs_of with_cmds) × (i.config.args ≡ a.prog_args)
  unfolding configure wamr_ext_instance_create wamr_ext_instance_set_opt wamr_ext_set_instance_opt
      wamr_ext_module_set_inst_default_opt new_instance
  configured_from with_dirs with_cmds d c e =
      let made = rw (d, c, configure) at e in (ground (arith, made), ground (arith, made))

  -- When the command line app gets as far as its instance, each directory of the Wasm app is the one that
  -- the last --dir for it names, or that of the module's default configuration where there is none,
  -- whatever the other options are, and the arguments are those of the command line.
  pub configure_dirs :
      configure cb a m ≡ some i
      → (i.config.args ≡ a.prog_args)
        × ((dir : Text)
            → lookup dir i.config.pre_open_dirs
              ≡ mapped a.dirs dir (lookup dir m.inst_default_conf.pre_open_dirs))
  unfolding configure
  configure_dirs e =
      elim (Option-cases (set_pairs add_host_dir a.dirs (set_max_memory a.max_mem m))) [
        | inl bad ↦ let fails : none ≡ some i = rw (bad, configure) at e in absurd (cc fails)
        | inr (with_dirs, d) ↦ elim (Option-cases (set_pairs add_host_command a.cmds with_dirs)) [
          | inl bad ↦ let fails : none ≡ some i = rw (d, bad, configure) at e in absurd (cc fails)
          | inr (with_cmds, c) ↦
              let from = configured_from with_dirs with_cmds d c e in
              (
                from.1,
                λ dir.
                    ap (lookup dir) (from.0 ∙ set_pairs-keeps a.cmds with_dirs with_cmds c)
                    ∙ set_pairs-dirs a.dirs (set_max_memory a.max_mem m) with_dirs dir d
                    ∙ ap (λ (t : TextMap Text). mapped a.dirs dir (lookup dir t))
                        (set_max_memory-dirs a.max_mem m),
              )
        ]
      ]
