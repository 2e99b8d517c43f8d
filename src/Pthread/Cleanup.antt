-- ===== src/Pthread/Cleanup.antt =====
-- CleanupAppThreadInfo (src/wamr_ext_lib/WasiPthreadExt.cpp): an instance that is torn down cancels and
-- joins its threads until only the main thread's entry is left. `joins` tells of each thread whether
-- DoHostThreadJoin returns from waiting for it (Pthread/Exit has its steps, and when it does); a join that
-- returns has taken the thread's entry out of the map. Threads that run on while others are joined may
-- spawn more: `arrivals` are the entries that come in each round, after the round's list was made.
-- Cancelling a thread sets a flag that its interpreter reads, and is no part of the map; DoAppThreadExit is
-- in Pthread/AppExit.
use wamr_ext.Prelude.{
  List, Option, [], if◌then◌else◌, length, none, some, suc, zero, ℕ, ◌==◌, ◌∷◌, Bool,
}
use wamr_ext.Pthread.{PthreadManager, ThreadInfo, erase, put, main_thread_id}

-- allThreadInfo: the entries that are not the main thread's.
unfoldable pub all_thread_info : List (ℕ × ThreadInfo) → List ThreadInfo
all_thread_info [] = []
all_thread_info ((k, t) ∷ m) =
    let rest = all_thread_info m in if t.handle_id == main_thread_id then rest else t ∷ rest

-- DoHostThreadJoin of each; `none` where one does not return.
unfoldable pub join_all :
    (joins : ThreadInfo → Bool)
    → List ThreadInfo
    → List (ℕ × ThreadInfo)
    → Option (List (ℕ × ThreadInfo))
unfolding erase
join_all joins [] m = some m
join_all joins (t ∷ ts) m =
    let rest = join_all joins ts (erase t.handle_id m) in if joins t then rest else none

unfoldable pub arrive : List ThreadInfo → List (ℕ × ThreadInfo) → List (ℕ × ThreadInfo)
unfolding erase
arrive [] m = m
arrive (t ∷ ts) m = arrive ts (put t.handle_id t m)

abbrev pub first_of : List (List ThreadInfo) → List ThreadInfo
first_of [] = []
first_of (a ∷ rounds) = a

abbrev pub rest_of : List (List ThreadInfo) → List (List ThreadInfo)
rest_of [] = []
rest_of (a ∷ rounds) = rounds

-- The loop, on fuel; `none` also where a join does not return.
unfoldable pub cleanup :
    (joins : ThreadInfo → Bool)
    → ℕ
    → List (List ThreadInfo)
    → List (ℕ × ThreadInfo)
    → Option (List (ℕ × ThreadInfo))
unfolding all_thread_info join_all arrive
cleanup joins zero arrivals m = none
cleanup joins (suc f) arrivals m = elim (all_thread_info m) [
  | [] ↦ some m
  | t ∷ ts ↦ elim (join_all joins (t ∷ ts) m) [
    | none ↦ none
    | some left ↦ cleanup joins f (rest_of arrivals) (arrive (first_of arrivals) left)
  ]
]

unfoldable pub cleanup_app_thread_info :
    (joins : ThreadInfo → Bool) → List (List ThreadInfo) → PthreadManager → Option PthreadManager
unfolding cleanup
cleanup_app_thread_info joins arrivals m =
    elim (cleanup joins (suc (suc (length arrivals))) arrivals m.thread_map) [
      | none ↦ none
      | some left ↦ some (record m { thread_map = left })
    ]
