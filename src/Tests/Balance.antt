-- ===== src/Tests/Balance.antt =====
-- Calls on one instance (Instance/Balance): starts that fail in several ways.
use wamr_ext.Prelude.{ℕ, true, none, some, [], ◌∷◌, ◌≡◌, refl, Option, List}
use wamr_ext.Tests.Instance.{good_answers, small_config}
use wamr_ext.Instance.Start.{StartAnswers}
use wamr_ext.Instance.Balance.{Call, Account, call, run_calls, opened, second_start_leaks}

abbrev no_instance : StartAnswers
no_instance = record good_answers { instantiate = λ args. none }

abbrev no_env : StartAnswers
no_env = record good_answers { create_exec_env = none }

abbrev fds : List (Option ℕ)
fds = some 0 ∷ none ∷ []

abbrev tries : List Call
tries = Call.start no_instance ∷ Call.start good_answers ∷ Call.start good_answers ∷ []

abbrev closed : Account
closed = call (Call.destroy true fds) (run_calls tries (opened small_config))

second_start_leaks_example :
    let s =
      run_calls
        (Call.start no_env ∷ Call.start good_answers ∷ Call.destroy true fds ∷ [])
        (opened small_config) in
    (s.made ≡ 2) × (s.freed ≡ 1)
second_start_leaks_example =
    second_start_leaks small_config no_env good_answers true fds refl refl refl
