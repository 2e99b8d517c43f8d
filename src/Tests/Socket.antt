-- ===== src/Tests/Socket.antt =====
-- Sockets (Socket and its children) on a host that counts descriptors up; its world is the next
-- descriptor, how many entries the table has room for, and the open files outside of the table.
use wamr_ext.Prelude.{List, [], refl, suc, true, zero, ℕ, ◌∷◌, ◌≡◌, arith, ◌≢◌, ◌≤◌}
use wamr_ext.Errno.{emfile}
use wamr_ext.Tests.Errno.{test_errnos, number_of}
use wamr_ext.Socket.{Host, WasiSockAddr, inet, so_error, so_type, sol_socket, uint32}
use wamr_ext.Socket.Open.{get_host_socket_fd, sock_open, filetype_socket_stream}
use wamr_ext.Socket.Calls.{sock_accept}
use wamr_ext.Socket.Options.{map_wasi_sock_opt, app_size, sock_get_opt, sock_set_opt}
use wamr_ext.Socket.OptionLaws.{sock_opt_round_trip}
use wamr_ext.Socket.Descriptors.{Loose, close_one, sock_open-loose, sock_accept-loose, with_taken}
use wamr_ext.Exec.{◌>>=◌, sys, Result, returns, fails, done, raise}

abbrev pub zeros : WasiSockAddr
zeros = record {
  family = 0;
  b0 = 0 ∷ 0 ∷ 0 ∷ 0 ∷ [];
  b4 = 0 ∷ 0 ∷ [];
  b6 = [];
  b16 = [];
  b18 = [];
  b20 = [];
  b24 = [];
  b28 = [];
}

pub record TestWorld : Type 0 where
  pub next_fd : ℕ
  pub room : ℕ
  pub files : List ℕ

abbrev pub insert_entry : ℕ → ℕ → TestWorld → Result ℕ × TestWorld
insert_entry uv zero w = (raise emfile, w)
insert_entry uv (suc n) w = (done uv, record w { room = n; files = close_one uv w.files })

abbrev pub new_file : TestWorld → TestWorld
new_file w = record w { next_fd = suc w.next_fd; files = w.next_fd ∷ w.files }

abbrev pub test_host : Host TestWorld
test_host = record {
  errnos = test_errnos;
  fd_table_get =
      λ fd w. done (record { id = fd; fd = fd; type = filetype_socket_stream; real_path = [] });
  fd_table_insert = λ uv path type w. insert_entry uv w.room w;
  get_osfhandle = λ fd. fd;
  open_osfhandle = λ fd. fd;
  to_string = λ n. [];
  fs_close = λ uv w. record w { files = close_one uv w.files };
  socket = λ d t p w. (returns w.next_fd, new_file w);
  add_fd_flags = λ fd f w. w;
  bind = λ fd a w. (returns tt, w);
  connect = λ fd a w. (fails 14, w);
  listen = λ fd n w. (returns tt, w);
  accept = λ fd w. (returns (w.next_fd, inet [] []), new_file w);
  getsockname = λ fd w. (returns (inet [] []), w);
  getpeername = λ fd w. (fails 14, w);
  shutdown = λ fd how w. (returns tt, w);
  getsockopt = λ fd l n t w. (fails 14, w);
  setsockopt = λ fd l n t v w. (fails 14, w);
  has_reuseport = true;
  wasi_code = number_of;
}

abbrev pub test_files : TestWorld → List ℕ
test_files w = w.files

insert_entry-law :
    (uv room : ℕ) (w : TestWorld)
    → test_files ((insert_entry uv room w).1) ≡ with_taken uv ((insert_entry uv room w).0) w.files
insert_entry-law uv zero w = refl
insert_entry-law uv (suc n) w = refl

test_host-Loose : Loose test_host test_files
test_host-Loose = record {
  socket_law = λ d t p w. refl;
  accept_law = λ fd w. refl;
  flags_law = λ fd f w. refl;
  insert_law = λ uv path type w. insert_entry-law uv w.room w;
  close_law = λ uv w. refl;
}

-- The table is full.
abbrev pub full : TestWorld
full = record { next_fd = 5; room = 0; files = 3 ∷ 4 ∷ [] }

sock_open-loose_example :
    test_files ((sock_open test_host 1 filetype_socket_stream 0 true full).1) ≡ 3 ∷ 4 ∷ []
sock_open-loose_example =
    sock_open-loose test_host test_files test_host-Loose 1 filetype_socket_stream 0 true full

sock_accept-loose_example : test_files ((sock_accept test_host 3 true zeros full).1) ≡ 3 ∷ 4 ∷ []
sock_accept-loose_example = sock_accept-loose test_host test_files test_host-Loose 3 true zeros full

is_so_type : map_wasi_sock_opt true 2147483647 3 ≡ done (sol_socket, so_type, uint32)
unfolding map_wasi_sock_opt
is_so_type = refl

not_so_error : so_type ≢ so_error
not_so_error e = absurd (cc e)

enough_room : app_size uint32 ≤ 6
unfolding app_size
enough_room = omega arith

sock_opt_round_trip_example :
    (out : List ℕ) × (sock_get_opt test_host 3 2147483647 3 true (9 ∷ 9 ∷ 9 ∷ 9 ∷ 9 ∷ 9 ∷ []) full
      ≡ (done (app_size uint32, out), full))
    × ((u : TestWorld)
        → sock_set_opt test_host 3 2147483647 3 true out u
          ≡ (get_host_socket_fd test_host 3 >>= λ found.
                sys test_errnos (test_host.setsockopt found.0 sol_socket so_type uint32 6))
              u)
sock_opt_round_trip_example =
    sock_opt_round_trip test_host 3 2147483647 3 (9 ∷ 9 ∷ 9 ∷ 9 ∷ 9 ∷ 9 ∷ []) full full
      (record { id = 3; fd = 3; type = filetype_socket_stream; real_path = [] }) sol_socket so_type
      uint32 6 is_so_type not_so_error refl refl (omega arith) enough_room
