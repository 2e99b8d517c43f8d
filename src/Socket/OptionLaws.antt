-- ===== src/Socket/OptionLaws.antt =====
-- What the options' values keep between SockGetOpt and SockSetOpt (src/wamr_ext_lib/WasiSocketExt.cpp).
use wamr_ext.Errno.{einval}
use wamr_ext.Prelude.{
  List, ap, arith, length, refl, ℕ, ◌++◌, ◌<◌, ◌^◌, ◌≡◌, Bool, false, if◌then◌else◌, true, ◌≢◌, ◌≤◌,
}
use wamr_ext.Socket.{
  Host, OptLevel, OptName, OptValType, OptVal, linger, timeval, uint32, FdWrap, so_error,
}
use wamr_ext.Socket.Open.{get_host_socket_fd, get_host_fd_by_app_fd}
use wamr_ext.Socket.Bytes.{of_le-to_le, copy_over_all, copy_over, to_le, of_le}
use wamr_ext.Socket.Address.{drop}
use wamr_ext.Socket.Options.{
  app_bytes, app_size, opt_val_of_app, new_len, sock_get_opt, sock_set_opt, host_opt_val,
  map_wasi_sock_opt, reported,
}
use wamr_ext.Exec.{◌>>=◌, done, raise, sys}

-- The value fits its C type.
abbrev pub HasType : (t : OptValType) → OptVal t → Type 0
HasType uint32 n = n < 256 ^ 4
HasType timeval (tv_sec, tv_usec) = (tv_sec < 256 ^ 8) × (tv_usec < 256 ^ 8)
HasType linger (l_onoff, l_linger) = (l_onoff < 256 ^ 4) × (l_linger < 256 ^ 4)

length-app_bytes : (t : OptValType) (v : OptVal t) → length (app_bytes t v) ≡ app_size t
unfolding app_bytes app_size to_le
length-app_bytes uint32 n = refl
length-app_bytes timeval (a, b) = refl
length-app_bytes linger (a, b) = refl

if_done :
    {A : Type 0} (b : Bool) (x y : A)
    → b ≡ false
    → x ≡ y
    → (if b then raise einval else done x) ≡ done y
if_done true x y h p = absurd (cc h)
if_done false x y h p = ap done p

opt_val_of_app-app_bytes :
    (t : OptValType) (v : OptVal t) (rest : List ℕ)
    → HasType t v
    → opt_val_of_app t (app_bytes t v ++ rest) ≡ done v
unfolding opt_val_of_app app_bytes of_le to_le
opt_val_of_app-app_bytes uint32 n rest h = if_done _ _ _ (ground arith) (of_le-to_le 4 n rest h)
opt_val_of_app-app_bytes timeval (a, b) rest h =
    if_done _ _ _ (ground arith) (λ i. (of_le-to_le 8 a rest h.0 i, of_le-to_le 8 b rest h.1 i))
opt_val_of_app-app_bytes linger (a, b) rest h =
    if_done _ _ _ (ground arith) (λ i. (of_le-to_le 4 a rest h.0 i, of_le-to_le 4 b rest h.1 i))

-- The buffer after a value is written is that value for the app, where there is room.
written-opt_val :
    (t : OptValType) (v : OptVal t) (buf : List ℕ)
    → HasType t v
    → app_size t ≤ length buf
    → opt_val_of_app t (copy_over (new_len t buf) (app_bytes t v) buf) ≡ done v
written-opt_val t v buf h l =
    let len : new_len t buf ≡ length (app_bytes t v) = ground (arith, length-app_bytes t v) in
    rw (len, copy_over_all (app_bytes t v) buf (omega (arith, length-app_bytes t v)))
      (opt_val_of_app-app_bytes t v (drop (length (app_bytes t v)) buf) h)

found_socket :
    {W : Type 0} (h : Host W) (fd : ℕ) (w : W) (f : FdWrap)
    → h.fd_table_get fd w ≡ done f
    → get_host_socket_fd h fd w ≡ (done (h.get_osfhandle f.fd, f.type), w)
unfolding get_host_socket_fd get_host_fd_by_app_fd
found_socket h fd w f g = rw g refl

reported_plain :
    {W : Type 0} (h : Host W) (name : OptName) (t : OptValType) (v : OptVal t)
    → name ≢ so_error
    → reported h name t v ≡ v
reported_plain h so_error uint32 v n = absurd (n refl)
reported_plain h _ t v n = refl

-- Let the app's level and name be those of an option other than SO_ERROR, whose value the host, or the
-- table, gives as one that fits its type, and let the app's buffer be large enough. Then SockGetOpt
-- returns 0 and the size of the app's struct, and with the bytes that it leaves in the buffer SockSetOpt
-- sets exactly that value, in every world.
pub sock_opt_round_trip :
    {W : Type 0} (h : Host W) (fd level name : ℕ) (buf : List ℕ) (w w' : W) (f : FdWrap)
    (host_level : OptLevel) (host_name : OptName) (t : OptValType) (v : OptVal t)
    → map_wasi_sock_opt h.has_reuseport level name ≡ done (host_level, host_name, t)
    → host_name ≢ so_error
    → h.fd_table_get fd w ≡ done f
    → host_opt_val h (h.get_osfhandle f.fd) f.type host_level host_name t w ≡ (done v, w')
    → HasType t v
    → app_size t ≤ length buf
    → (out : List ℕ) × (sock_get_opt h fd level name true buf w ≡ (done (app_size t, out), w'))
      × ((u : W)
          → sock_set_opt h fd level name true out u
            ≡ (get_host_socket_fd h fd >>= λ found.
                  sys h.errnos (h.setsockopt found.0 host_level host_name t v))
                u)
unfolding sock_get_opt sock_set_opt get_host_socket_fd get_host_fd_by_app_fd
sock_opt_round_trip h fd level name buf w w' f host_level host_name t v m n g e fits room =
    let len : new_len t buf ≡ app_size t = ground arith in
    (
      copy_over (new_len t buf) (app_bytes t v) buf,
      rw (m, found_socket h fd w f g, e, reported_plain h host_name t v n, len) refl,
      λ u. rw (m, written-opt_val t v buf fits room) refl,
    )
