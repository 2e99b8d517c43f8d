-- ===== src/Tests/Process.antt =====
-- Processes (Process and its children) on the host of the sockets' tests; every pipe is new, and
-- with it the child's pid: the first is 100 and the second 102. The app's memory holds a request at 64, an action at 16 that is the last, and an
-- action at 32 that is linked to itself.
use wamr_ext.Prelude.Int.{pos}
use wamr_ext.Prelude.{
  ◌+◌, [], arith, refl, some, suc, ap, true, ℕ, ◌==◌, ◌∷◌, ◌≡◌, ◌≢◌, if◌then◌else◌, List, false,
  inl, none,
}
use wamr_ext.Prelude.Text.{bytes, Text, text_eq}
use wamr_ext.Prelude.TextMap.{TextMap, lookup}
use wamr_ext.Prelude.NumMap.{find_key, assign}
use wamr_ext.Tests.Socket.{TestWorld, full, test_files, test_host}
use wamr_ext.Exec.{done, returns}
use wamr_ext.Socket.Open.{get_host_fd_by_app_fd}
use wamr_ext.Socket.Descriptors.{close_one}
use wamr_ext.Process.{
  ProcHost, World, enter_child, exited, new_proc_manager, SpawnAction, dup2, erase_child, fdup2,
  running,
}
use wamr_ext.Process.Children.{new-Inverse}
use wamr_ext.Process.Request.{read_cmd, read_request, action_at}
use wamr_ext.Process.Spawn.{process_spawn, start_process, add_dup2s, apply_actions}
use wamr_ext.Process.Reaping.{IsManager, WaitKeeps}
use wamr_ext.Process.Pipes.{SpawnKeeps}
use wamr_ext.Process.Session.{
  Calls, none_made, spawn_ends, wait_ends, open_files_accounted, count, pipes,
}
use wamr_ext.Process.NewChild.{FreshFor, Spawned, process_spawn-Spawned}
use wamr_ext.Process.Wait.{process_wait_pid}
use wamr_ext.Process.Waiting.{Waited, process_wait_pid-Waited}
use wamr_ext.Process.ActionList.{IsCycle, Node, cyclic_actions_hang}
use wamr_ext.Process.Endless.{closed_pipe_spins}
use wamr_ext.Process.Redirect.{Redirects, add_dup2s-Redirects}

abbrev proc_host : ProcHost TestWorld
proc_host = record {
  sock = test_host;
  vm = record {
    addr_app_to_native = λ p. some p;
    validate_app_addr = λ p n. true;
    validate_app_str_addr = λ p. true;
    validate_native_addr = λ p n. true;
    size_mod = 4294967296;
  };
  read_req = λ p. record {
    app_cmd_name_pointer = 8;
    app_argv_pointer = 0;
    argc = 0;
    app_fa_pointer = if p == 64 then 16 else 32;
  };
  read_u32 = λ p. 0;
  read_str = λ p. bytes "ls";
  read_action = λ p. record { app_next_action_pointer = if p == 16 then 0 else 32; cmd = 1 };
  read_fdup2 = λ p. record { src_fd = 4; dest_fd = 1 };
  file_actions_init = λ w. (returns tt, w);
  file_actions_add = λ a w. (returns tt, w);
  file_actions_destroy = λ w. w;
  pipe = λ w. (
    returns (suc w.next_fd, w.next_fd),
    record w { next_fd = suc (suc w.next_fd); files = suc w.next_fd ∷ w.next_fd ∷ w.files },
  );
  posix_spawn = λ path cmd fa argv w. (returns (93 + w.next_fd), w);
  set_nonblock = λ fd w. w;
  close = λ fd w. record w { files = close_one fd w.files };
  poll_pipes = λ fds nohang w. (returns (1, true ∷ []), w);
  read_pipe = λ fd w. w;
  waitpid = λ pid w. (exited 768, w);
  wexitstatus = λ status. 3;
}

pipe_differs : (n : ℕ) (p : ℕ × ℕ) → returns (suc n, n) ≡ returns p → p.0 ≢ p.1
pipe_differs n p e z =
    let same : (suc n, n) ≡ p = cc e in
    omega (arith, ap (λ (x : ℕ × ℕ). x.0) same, ap (λ (x : ℕ × ℕ). x.1) same, z)

proc_host-SpawnKeeps : SpawnKeeps proc_host test_files
proc_host-SpawnKeeps = record {
  init_law = λ w. refl;
  add_law = λ a w. refl;
  destroy_law = λ w. refl;
  nonblock_law = λ fd w. refl;
  spawn_law = λ path cmd fa argv w. refl;
  pipe_law = λ w. refl;
  pipe_distinct = λ w p e. pipe_differs w.next_fd p e;
  close_law = λ fd w. refl;
}

proc_host-WaitKeeps : WaitKeeps proc_host test_files
proc_host-WaitKeeps = record {
  poll_law = λ fds nohang w. refl;
  read_law = λ fd w. refl;
  waitpid_law = λ pid w. refl;
  close_law = λ fd w. refl;
}

new-IsManager : IsManager new_proc_manager
unfolding new_proc_manager find_key
new-IsManager = record { inverse = new-Inverse; no_zero = refl }

abbrev whitelist : TextMap Text
whitelist = (bytes "ls", bytes "/bin/ls") ∷ []

abbrev start : World TestWorld
start = (full, new_proc_manager)

-- The child's pipe is 6.
abbrev after_spawned : World TestWorld
after_spawned =
    (record { next_fd = 7; room = 0; files = 6 ∷ 3 ∷ 4 ∷ [] }, enter_child 100 6 new_proc_manager)

spawns : process_spawn proc_host 5 whitelist 64 start ≡ some (done 100, after_spawned)
unfolding process_spawn read_request read_cmd start_process lookup text_eq get_host_fd_by_app_fd
spawns = refl

suc_not_zero : (n : ℕ) → suc n ≢ 0
suc_not_zero n e = omega (arith, e)

fresh_first : FreshFor proc_host 5 whitelist 64 start
unfolding read_request read_cmd start_process lookup text_eq get_host_fd_by_app_fd new_proc_manager
    find_key
fresh_first = (suc_not_zero 99, refl, refl)

spawned-IsManager : IsManager after_spawned.1
spawned-IsManager =
    (process_spawn-Spawned proc_host test_files proc_host-SpawnKeeps 5 whitelist 64 start
      after_spawned (done 100) new-IsManager fresh_first spawns).1

-- A second child, with the pipe 8, while the first is known.
abbrev after_second : World TestWorld
after_second = (
  record { next_fd = 9; room = 0; files = 8 ∷ 6 ∷ 3 ∷ 4 ∷ [] },
  enter_child 102 8 after_spawned.1,
)

spawns_second : process_spawn proc_host 5 whitelist 64 after_spawned ≡ some (done 102, after_second)
unfolding process_spawn read_request read_cmd start_process lookup text_eq get_host_fd_by_app_fd
spawns_second = refl

fresh_second : FreshFor proc_host 5 whitelist 64 after_spawned
unfolding read_request read_cmd start_process lookup text_eq get_host_fd_by_app_fd new_proc_manager
    find_key enter_child assign
fresh_second = (suc_not_zero 101, refl, refl)

process_spawn-Spawned_example :
    Spawned proc_host test_files whitelist 64 after_spawned (done 102) after_second
    × IsManager after_second.1
process_spawn-Spawned_example =
    process_spawn-Spawned proc_host test_files proc_host-SpawnKeeps 5 whitelist 64 after_spawned
      after_second (done 102) spawned-IsManager fresh_second spawns_second

abbrev after_waited : World TestWorld
after_waited =
    (record { next_fd = 7; room = 0; files = 3 ∷ 4 ∷ [] }, erase_child 100 6 after_spawned.1)

waits :
    process_wait_pid proc_host 1 (pos 100) false after_spawned
    ≡ some (done (record { ret_pid = 100; exit_status = some 3 }), after_waited)
unfolding process_wait_pid enter_child assign new_proc_manager find_key
waits = refl

process_wait_pid-Waited_example :
    Waited test_files
      (pos 100)
      after_spawned
      (done (record { ret_pid = 100; exit_status = some 3 }))
      after_waited
    × IsManager after_waited.1
process_wait_pid-Waited_example =
    process_wait_pid-Waited proc_host test_files proc_host-WaitKeeps 1 (pos 100) false after_spawned
      after_waited (done (record { ret_pid = 100; exit_status = some 3 })) spawned-IsManager waits

redirects :
    (add_dup2s proc_host 0 (some 0 ∷ some 4 ∷ none ∷ []) full).0 ≡ done (dup2 0 0 ∷ dup2 4 1 ∷ [])
unfolding add_dup2s
redirects = refl

add_dup2s-Redirects_example :
    Redirects (some 0) (some 4) none (dup2 0 0 ∷ dup2 4 1 ∷ []) (λ fd. some fd)
add_dup2s-Redirects_example =
    add_dup2s-Redirects proc_host (some 0) (some 4) none full (dup2 0 0 ∷ dup2 4 1 ∷ [])
      (λ fd. some fd) (inl refl) tt tt redirects

abbrev to_stdout : List SpawnAction
to_stdout =
    fdup2 (record { src_fd = 8; dest_fd = 1 }) ∷ fdup2 (record { src_fd = 9; dest_fd = 1 }) ∷ []

applies :
    (apply_actions proc_host to_stdout (some 0 ∷ none ∷ none ∷ []) full).0
    ≡ done (some 0 ∷ some 9 ∷ none ∷ [])
unfolding apply_actions get_host_fd_by_app_fd
applies = refl

abbrev redirection : SpawnAction
redirection = fdup2 (record { src_fd = 4; dest_fd = 1 })

last-Node : Node proc_host 16 redirection 0
unfolding action_at
last-Node = record { not_null = refl; address = 16; native = refl; reads = refl; linked = refl }

self-Node : Node proc_host 32 redirection 32
unfolding action_at
self-Node = record { not_null = refl; address = 32; native = refl; reads = refl; linked = refl }

one_cycle : IsCycle proc_host (λ pointer. pointer ≡ 32)
one_cycle pointer e = rw e (redirection, 32, self-Node, refl)

reads_cmd : read_cmd proc_host whitelist 65 ≡ done (bytes "/bin/ls", bytes "/bin/ls" ∷ [])
unfolding read_cmd lookup text_eq
reads_cmd = refl

cyclic_actions_hang_example : process_spawn proc_host 1000 whitelist 65 start ≡ none
cyclic_actions_hang_example =
    cyclic_actions_hang proc_host (λ pointer. pointer ≡ 32) whitelist 65
      (bytes "/bin/ls", bytes "/bin/ls" ∷ []) start one_cycle refl reads_cmd 1000

-- The child runs on.
abbrev busy_host : ProcHost TestWorld
busy_host = record proc_host { waitpid = λ pid w. (running, w) }

known_child : find_key 100 after_spawned.1.child_proc_map ≡ some 6
unfolding enter_child assign new_proc_manager find_key
known_child = refl

closed_pipe_spins_example :
    process_wait_pid busy_host 1000 (pos 100) false (full, after_spawned.1) ≡ none
closed_pipe_spins_example =
    closed_pipe_spins busy_host 99 6 after_spawned.1 spawned-IsManager.inverse known_child
      (λ w. refl) (λ w. refl) 1000 full

-- The first child is waited for while the second runs.
abbrev first_waited : World TestWorld
first_waited =
    (record { next_fd = 9; room = 0; files = 8 ∷ 3 ∷ 4 ∷ [] }, erase_child 100 6 after_second.1)

waits_first :
    process_wait_pid proc_host 1 (pos 100) false after_second
    ≡ some (done (record { ret_pid = 100; exit_status = some 3 }), first_waited)
unfolding process_wait_pid enter_child assign new_proc_manager find_key
waits_first = refl

abbrev two_spawns_and_wait : Calls proc_host whitelist start first_waited
two_spawns_and_wait =
    wait_ends 1 (pos 100) false (done (record { ret_pid = 100; exit_status = some 3 }))
      (spawn_ends 5 64 (done 102) (spawn_ends 5 64 (done 100) none_made fresh_first spawns)
        fresh_second spawns_second)
      waits_first

open_files_accounted_example :
    count 8 (test_files first_waited.0) ≡ count 8 (test_files full) + pipes 8 first_waited.1
open_files_accounted_example =
    open_files_accounted proc_host test_files proc_host-SpawnKeeps proc_host-WaitKeeps whitelist
      full first_waited two_spawns_and_wait 8
