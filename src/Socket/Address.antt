-- ===== src/Socket/Address.antt =====
-- WasiAppSockAddrToHostSockAddr and HostSockAddrToWasiAppSockAddr (src/wamr_ext_lib/WasiSocketExt.cpp).
use wamr_ext.Socket.{HostSockAddr, WasiSockAddr, inet, inet6, other_family, unspec}
use wamr_ext.Errno.{eafnosupport}
use wamr_ext.Prelude.{
  ℕ, Bool, List, Option, [], false, if◌then◌else◌, none, refl, some, suc, true, zero, ◌++◌, ◌==◌,
  ◌∷◌, ◌≡◌,
}
use wamr_ext.Exec.{Result, done, raise}

abbrev pub wasi_af_unspec : ℕ
wasi_af_unspec = 0

abbrev pub wasi_af_inet : ℕ
wasi_af_inet = 1

abbrev pub wasi_af_inet6 : ℕ
wasi_af_inet6 = 2

-- u_addr.inet6.addr, read and written.
abbrev pub inet6_addr : WasiSockAddr → List ℕ
inet6_addr a = a.b0 ++ (a.b4 ++ a.b6)

unfoldable pub wasi_app_sock_addr_to_host_sock_addr : WasiSockAddr → Result HostSockAddr
wasi_app_sock_addr_to_host_sock_addr a =
    if a.family == wasi_af_inet
    then done (inet a.b0 a.b4)
    else if a.family == wasi_af_inet6
    then done (inet6 (inet6_addr a) a.b16 a.b20 a.b24)
    else raise eafnosupport

abbrev pub take : ℕ → List ℕ → List ℕ
take zero xs = []
take (suc n) [] = []
take (suc n) (x ∷ xs) = x ∷ take n xs

abbrev pub drop : ℕ → List ℕ → List ℕ
drop zero xs = xs
drop (suc n) [] = []
drop (suc n) (x ∷ xs) = drop n xs

-- `none` is a null pHostSockAddr. A family other than the two gives AF_UNSPEC.
unfoldable pub host_sock_addr_to_wasi_app_sock_addr :
    Option HostSockAddr → WasiSockAddr → WasiSockAddr
host_sock_addr_to_wasi_app_sock_addr none a = record a { family = wasi_af_unspec }
host_sock_addr_to_wasi_app_sock_addr (some (inet addr port)) a = record a {
  family = wasi_af_inet;
  b0 = addr;
  b4 = port;
}
host_sock_addr_to_wasi_app_sock_addr (some (inet6 addr port flowinfo scope_id)) a = record a {
  family = wasi_af_inet6;
  b0 = take 4 addr;
  b4 = take 2 (drop 4 addr);
  b6 = drop 6 addr;
  b16 = port;
  b20 = flowinfo;
  b24 = scope_id;
}
host_sock_addr_to_wasi_app_sock_addr (some _) a = record a { family = wasi_af_unspec }

pieces : (t : List ℕ) → take 4 t ++ (take 2 (drop 4 t) ++ drop 6 t) ≡ t
pieces [] = refl
pieces (a ∷ []) = refl
pieces (a ∷ b ∷ []) = refl
pieces (a ∷ b ∷ c ∷ []) = refl
pieces (a ∷ b ∷ c ∷ d ∷ []) = refl
pieces (a ∷ b ∷ c ∷ d ∷ e ∷ []) = refl
pieces (a ∷ b ∷ c ∷ d ∷ e ∷ f ∷ t) = refl

-- The families that the app knows.
unfoldable pub is_ip : HostSockAddr → Bool
is_ip (inet a p) = true
is_ip (inet6 a p f s) = true
is_ip _ = false

-- An IPv4 or IPv6 address of the host that is written to the app's memory, over any bytes, and read
-- back is the same address; of any other family the app sees AF_UNSPEC, which it cannot pass back.
pub sock_addr_round_trip :
    (h : HostSockAddr) (a : WasiSockAddr)
    → wasi_app_sock_addr_to_host_sock_addr (host_sock_addr_to_wasi_app_sock_addr (some h) a)
      ≡ (if is_ip h then done h else raise eafnosupport)
unfolding wasi_app_sock_addr_to_host_sock_addr host_sock_addr_to_wasi_app_sock_addr is_ip
sock_addr_round_trip (inet addr port) a = refl
sock_addr_round_trip (inet6 addr port flowinfo scope_id) a = rw (pieces addr) refl
sock_addr_round_trip unspec a = refl
sock_addr_round_trip (other_family n) a = refl
