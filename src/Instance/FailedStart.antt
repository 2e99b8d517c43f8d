-- ===== src/Instance/FailedStart.antt =====
-- A start whose memory cannot be enlarged, and the destroy after it (src/wamr_ext_api/wamr_ext_api.cpp).
use wamr_ext.Prelude.{ℕ, Bool, List, ◌≡◌, true, false, Option, none, some, ltb, refl, arith}
use wamr_ext.Config.{minus_one}
use wamr_ext.Instance.{Instance, State, MemoryInstance}
use wamr_ext.Instance.Memory.{total_bytes, enlarge}
use wamr_ext.Instance.WasiArgs.{wasi_args}
use wamr_ext.Instance.Start.{StartAnswers, wamr_ext_instance_start}
use wamr_ext.Instance.Destroy.{
  wamr_ext_instance_destroy, count_if, is_cleanup, is_dtors, is_destroying, destroy_releases,
  is_started,
}

start_cannot_enlarge :
    (a : StartAnswers) (i : Instance) (m : MemoryInstance) (env : ℕ)
    → i.state ≡ State.new
    → a.instantiate (wasi_args i.config) ≡ some m
    → a.create_exec_env ≡ some env
    → ltb (total_bytes m) i.config.max_memory ≡ true
    → a.realloc m.memory_data i.config.max_memory ≡ none
    → wamr_ext_instance_start a i ≡ (
      minus_one,
      record i {
        main_instance =
            some (record m { num_bytes_per_page = i.config.max_memory; heap_handle = none });
        main_exec_env = some env;
        state = State.ended;
      },
    )
unfolding wamr_ext_instance_start enlarge
start_cannot_enlarge a i m env n e f l r = ground arith

-- A defect: a start whose memory cannot be enlarged returns -1 with the instance ENDED, its memory
-- without a heap, and an exec env but no custom data stored. The destroy that follows runs the
-- clean-up of app threads, which goes by the custom data, and no destructors.
pub destroy_after_failed_enlarge :
    (a : StartAnswers) (i : Instance) (m : MemoryInstance) (env : ℕ) (has_dtors : Bool)
    (fds : List (Option ℕ))
    → i.state ≡ State.new
    → i.custom_data ≡ false
    → a.instantiate (wasi_args i.config) ≡ some m
    → a.create_exec_env ≡ some env
    → ltb (total_bytes m) i.config.max_memory ≡ true
    → a.realloc m.memory_data i.config.max_memory ≡ none
    → let (r, j) = wamr_ext_instance_start a i in
      (r ≡ minus_one)
      × (j.state ≡ State.ended)
      × (j.custom_data ≡ false)
      × (count_if is_cleanup (wamr_ext_instance_destroy has_dtors fds j).0 ≡ 1)
      × (count_if is_dtors (wamr_ext_instance_destroy has_dtors fds j).0 ≡ 0)
unfolding is_destroying is_started
destroy_after_failed_enlarge a i m env has_dtors fds n c e f l r =
    let j = record i {
      main_instance =
          some (record m { num_bytes_per_page = i.config.max_memory; heap_handle = none });
      main_exec_env = some env;
      state = State.ended;
    } in
    let d = destroy_releases has_dtors fds j refl in
    rw (start_cannot_enlarge a i m env n e f l r) (refl, refl, c, d.2, d.3)
