-- ===== src/Process/Request.antt =====
-- The first part of ProcessSpawn (src/wamr_ext_lib/WasiProcessExt.cpp): reading the request.
use wamr_ext.Prelude.{
  Bool, List, Option, [], false, if◌then◌else◌, none, some, true, ℕ, ◌==◌, ◌∷◌, suc, zero, ◌*◌, ◌+◌,
}
use wamr_ext.Prelude.Text.{Text}
use wamr_ext.Prelude.TextMap.{TextMap, lookup}
use wamr_ext.Errno.{efault, enoent}
use wamr_ext.Exec.{Result, done, raise}
use wamr_ext.Process.{ProcHost, SpawnAction, fdup2, other_action}

abbrev pub spawn_action_fdup2 : ℕ
spawn_action_fdup2 = 1

abbrev pub then_do : {A B : Type 0} → Result A → (A → Result B) → Result B
then_do (done a) f = f a
then_do (raise e) f = raise e

abbrev pub check : Bool → Result (Unit {0})
check true = done tt
check false = raise efault

abbrev pub found_cmd : Option Text → Result Text
found_cmd none = raise enoent
found_cmd (some cmd) = done cmd

abbrev pub or_null : Option ℕ → ℕ
or_null none = 0
or_null (some p) = p

abbrev pub cons_result : {A : Type 0} → Result A → Result (List A) → Result (List A)
cons_result r rest = then_do r λ a. then_do rest λ later. done (a ∷ later)

-- hostCmd, hostArgv and the actions of a request.
pub record Spawning : Type 0 where
  pub host_cmd : Text
  pub host_argv : List Text
  pub actions : List SpawnAction

module _ {W : Type 0} (h : ProcHost W) where
  abbrev pub app_str : ℕ → Text
  app_str p = h.read_str (or_null (h.vm.addr_app_to_native p))

  unfoldable pub host_cmd_of : TextMap Text → ℕ → Result Text
  host_cmd_of whitelist name_pointer =
      then_do (check (h.vm.validate_app_str_addr name_pointer))
        λ _. found_cmd (lookup (app_str name_pointer) whitelist)

  unfoldable pub arg_at : ℕ → Result Text
  arg_at pointer = then_do (check (h.vm.validate_app_str_addr pointer)) λ _. done (app_str pointer)

  -- The loop over the n arguments whose pointers stand at p.
  unfoldable pub read_args : ℕ → ℕ → Result (List Text)
  unfolding arg_at
  read_args zero p = done []
  read_args (suc n) p = cons_result (arg_at (h.read_u32 p)) (read_args n (p + 4))

  unfoldable pub action_at : ℕ → Result SpawnAction
  action_at p =
      let a = h.read_action p in
      let redirection =
        then_do (check (h.vm.validate_native_addr p 16)) λ _. done (fdup2 (h.read_fdup2 p)) in
      then_do (check (h.vm.validate_native_addr p 8))
        λ _. if a.cmd == spawn_action_fdup2 then redirection else done (other_action a.cmd)

  -- The loop over the linked actions, on fuel: `none` is a loop that still runs.
  unfoldable pub read_actions : ℕ → ℕ → Option (Result (List SpawnAction))
  unfolding action_at
  read_actions zero pointer = none
  read_actions (suc fuel) pointer = elim (pointer == 0) [
    | true ↦ some (done [])
    | false ↦ elim (h.vm.addr_app_to_native pointer) [
      | none ↦ some (raise efault)
      | some p ↦ elim (action_at p) [
        | raise e ↦ some (raise e)
        | done a ↦ elim (read_actions fuel (h.read_action p).app_next_action_pointer) [
          | none ↦ none
          | some rest ↦ some (cons_result (done a) rest)
        ]
      ]
    ]
  ]

  -- The checks in front of the loop over the actions.
  unfoldable pub read_cmd : TextMap Text → ℕ → Result (Text × List Text)
  unfolding host_cmd_of read_args
  read_cmd whitelist req = then_do (check (h.vm.validate_native_addr req 20)) λ _.
      then_do (host_cmd_of whitelist (h.read_req req).app_cmd_name_pointer) λ cmd.
        then_do
          (check
            (h.vm.validate_app_addr (h.read_req req).app_argv_pointer (4 * (h.read_req req).argc)))
          λ _.
            then_do
              (read_args (h.read_req req).argc
                (or_null (h.vm.addr_app_to_native (h.read_req req).app_argv_pointer)))
              λ argv. done (cmd, cmd ∷ argv)

  unfoldable pub read_request : ℕ → TextMap Text → ℕ → Option (Result Spawning)
  unfolding read_cmd read_actions
  read_request fuel whitelist req = elim (read_cmd whitelist req) [
    | raise e ↦ some (raise e)
    | done c ↦ elim (read_actions fuel (h.read_req req).app_fa_pointer) [
      | none ↦ none
      | some r ↦ some (
          then_do r λ actions. done (record { host_cmd = c.0; host_argv = c.1; actions = actions }))
    ]
  ]
