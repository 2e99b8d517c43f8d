-- ===== src/Instance/Balance.antt =====
-- Sequences of API calls on one instance (src/wamr_ext_api/wamr_ext_api.cpp): how many instances the
-- runtime makes for it, and how many of them are freed.
use wamr_ext.Prelude.{
  ℕ, Bool, List, [], ◌∷◌, ◌+◌, ◌≡◌, is_some, true, false, ◌&&◌, Option, none, arith, refl, ◌≤◌, ap,
  ◌∙◌,
}
use wamr_ext.Config.{OptValue, InstanceConfig, wamr_ext_set_instance_opt}
use wamr_ext.Instance.{Instance, State, new_instance}
use wamr_ext.Instance.WasiArgs.{wasi_args}
use wamr_ext.Instance.Start.{StartAnswers, may_start, wamr_ext_instance_start}
use wamr_ext.Instance.Destroy.{
  wamr_ext_instance_destroy, count_if, is_deinstantiate, one_if, is_destroying, destroy_releases,
}

-- A call with what the runtime answers to it. (exec_main_func changes none of what is counted.)
pub data Call : Type 0 where
  set_opt : Option OptValue → Call
  start : StartAnswers → Call
  destroy : Bool → List (Option ℕ) → Call

pub record Account : Type 0 where
  pub inst : Instance
  pub made : ℕ
  pub freed : ℕ

-- Does a start make an instance of the runtime?
abbrev pub makes : StartAnswers → Instance → Bool
makes a i = may_start i && is_some (a.instantiate (wasi_args i.config))

unfoldable pub call : Call → Account → Account
call (set_opt o) s = record s {
  inst = record s.inst { config = (wamr_ext_set_instance_opt s.inst.config o).1 };
}
call (start a) s = record s {
  inst = (wamr_ext_instance_start a s.inst).1;
  made = s.made + one_if (makes a s.inst);
}
call (destroy has_dtors fds) s =
    let (acts, i) = wamr_ext_instance_destroy has_dtors fds s.inst in
    record s { inst = i; freed = s.freed + count_if is_deinstantiate acts }

unfoldable pub run_calls : List Call → Account → Account
unfolding call
run_calls [] s = s
run_calls (c ∷ cs) s = run_calls cs (call c s)

-- What wamr_ext_instance_create leaves.
abbrev pub opened : InstanceConfig → Account
opened c = record { inst = new_instance c; made = 0; freed = 0 }

-- A start for which the runtime makes an exec env.
abbrev pub GetsEnv : Call → Type 0
GetsEnv (start a) = is_some a.create_exec_env ≡ true
GetsEnv _ = Unit

record Inv (s : Account) : Type 0 where
  balanced : s.made ≡ s.freed + one_if (is_some s.inst.main_instance)
  new_empty : s.inst.state ≡ State.new → s.inst.main_instance ≡ none
  new_unmade : s.inst.state ≡ State.new → s.made ≡ 0
  made_once : s.made ≤ 1
  destroyed_empty : is_destroying s.inst.state ≡ true → s.inst.main_instance ≡ none

start_without_env :
    (a : StartAnswers) (s : Account)
    → s.inst.state ≡ State.new
    → is_some (a.instantiate (wasi_args s.inst.config)) ≡ true
    → a.create_exec_env ≡ none
    → ((call (start a) s).inst.state ≡ State.new)
      × ((call (start a) s).made ≡ s.made + 1)
      × ((call (start a) s).freed ≡ s.freed)
      × ((call (start a) s).inst.config ≡ s.inst.config)
unfolding call wamr_ext_instance_start
start_without_env a s n m e = ground arith

start_makes :
    (a : StartAnswers) (i : Instance)
    → i.state ≡ State.new
    → is_some (a.instantiate (wasi_args i.config)) ≡ true
    → (makes a i ≡ true)
      × (is_destroying (wamr_ext_instance_start a i).1.state ≡ false)
      × (is_some (wamr_ext_instance_start a i).1.main_instance ≡ true)
unfolding wamr_ext_instance_start is_destroying
start_makes a i n m = ground arith

start_and_destroy :
    (a : StartAnswers) (has_dtors : Bool) (fds : List (Option ℕ)) (s : Account)
    → s.inst.state ≡ State.new
    → is_some (a.instantiate (wasi_args s.inst.config)) ≡ true
    → let t = call (destroy has_dtors fds) (call (start a) s) in
      (t.made ≡ s.made + 1) × (t.freed ≡ s.freed + 1)
unfolding call
start_and_destroy a has_dtors fds s n m =
    let made = start_makes a s.inst n m in
    let r = destroy_releases has_dtors fds (wamr_ext_instance_start a s.inst).1 made.1 in
    (rw made.0 refl, ap (λ k. s.freed + k) (r.0 ∙ rw made.2 refl))

-- A defect: a start for which the runtime makes an instance and no exec env leaves the state NEW, and
-- a second start replaces the instance without freeing it: of the two that were made, destroy frees one.
pub second_start_leaks :
    (conf : InstanceConfig) (a b : StartAnswers) (has_dtors : Bool) (fds : List (Option ℕ))
    → is_some (a.instantiate (wasi_args conf)) ≡ true
    → a.create_exec_env ≡ none
    → is_some (b.instantiate (wasi_args conf)) ≡ true
    → let s = run_calls (start a ∷ start b ∷ destroy has_dtors fds ∷ []) (opened conf) in
      (s.made ≡ 2) × (s.freed ≡ 1)
unfolding run_calls new_instance
second_start_leaks conf a b has_dtors fds m e m' =
    let first = start_without_env a (opened conf) refl m e in
    let rest =
      start_and_destroy b has_dtors fds (call (start a) (opened conf)) first.0 (rw (first.3) m') in
    ground arith
