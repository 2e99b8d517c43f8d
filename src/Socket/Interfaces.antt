-- ===== src/Socket/Interfaces.antt =====
-- SockGetIfAddrs (src/wamr_ext_lib/WasiSocketExt.cpp): the network interfaces of the host.
use wamr_ext.Prelude.{
  Bool, List, Option, [], bit_and, bit_or, false, if◌then◌else◌, is_empty, length, map, none, some,
  true, ℕ, ◌*◌, ◌++◌, ◌+◌, ◌==◌, ◌∷◌,
}
use wamr_ext.Prelude.Text.{Text}
use wamr_ext.Prelude.TextMap.{TextMap, insert, lookup}
use wamr_ext.Errno.{Errno, HostErrnos, convert_errno_to_wasi_errno, efault, enomem, success}
use wamr_ext.Prelude.Int.{pos}
use wamr_ext.Exec.{CRet, fails, returns}
use wamr_ext.Vm.{u32}
use wamr_ext.Socket.{HostSockAddr, WasiSockAddr}
use wamr_ext.Socket.Address.{host_sock_addr_to_wasi_app_sock_addr, is_ip, take}

-- The address of an interface: sockaddr_ll with its hardware address and index, or another.
pub data IfSockAddr : Type 0 where
  packet : (mac : List ℕ) (index : ℕ) → IfSockAddr
  net : HostSockAddr → IfSockAddr

-- struct ifaddrs, whose pointers may be null.
pub record HostIfAddr : Type 0 where
  pub ifa_name : Text
  pub ifa_flags : ℕ
  pub ifa_addr : Option IfSockAddr
  pub ifa_netmask : Option HostSockAddr
  pub ifa_broadaddr : Option HostSockAddr

pub record IfInfo : Type 0 where
  pub if_addrs : List HostIfAddr
  pub mac : List ℕ
  pub if_index : ℕ
  pub flags : ℕ

abbrev pub new_if_info : IfInfo
new_if_info = record { if_addrs = []; mac = 0 ∷ 0 ∷ 0 ∷ 0 ∷ 0 ∷ 0 ∷ []; if_index = 0; flags = 0 }

abbrev pub or_new : Option IfInfo → IfInfo
or_new none = new_if_info
or_new (some i) = i

-- An address of an interface's.
unfoldable pub add_addr : HostIfAddr → Option IfSockAddr → IfInfo → IfInfo
unfolding is_ip
add_addr a none i = i
add_addr a (some (packet mac index)) i = record i { mac = mac; if_index = index }
add_addr a (some (net addr)) i =
    if is_ip addr then record i { if_addrs = i.if_addrs ++ (a ∷ []) } else i

-- The loop over getifaddrs' list.
unfoldable pub add_if_addrs : List HostIfAddr → TextMap IfInfo → TextMap IfInfo
unfolding add_addr lookup insert
add_if_addrs [] m = m
add_if_addrs (a ∷ addrs) m =
    let info = or_new (lookup a.ifa_name m) in
    add_if_addrs addrs
      (insert a.ifa_name (add_addr a a.ifa_addr (record info { flags = a.ifa_flags })) m)

abbrev pub entry_count : IfInfo → ℕ
entry_count i = if is_empty i.if_addrs then 1 else length i.if_addrs

-- ret_ifaddr_cnt, from the number so far.
unfoldable pub count_entries : ℕ → TextMap IfInfo → ℕ
count_entries n [] = n
count_entries n ((name, i) ∷ m) = count_entries (u32 (n + entry_count i)) m

-- wamr_wasi_ifaddr
pub record WasiIfAddr : Type 0 where
  pub ifa_name : Text
  pub ifa_flags : ℕ
  pub ifa_addr : WasiSockAddr
  pub ifa_netmask : WasiSockAddr
  pub ifu_broadaddr : WasiSockAddr
  pub ifa_hwaddr : List ℕ
  pub ifa_ifindex : ℕ

abbrev pub wasi_ifaddr_size : ℕ
wasi_ifaddr_size = 248

abbrev zeros_4 : List ℕ
zeros_4 = 0 ∷ 0 ∷ 0 ∷ 0 ∷ []

-- What memset leaves of an address.
abbrev pub zero_sock_addr : WasiSockAddr
zero_sock_addr = record {
  family = 0;
  b0 = zeros_4;
  b4 = 0 ∷ 0 ∷ [];
  b6 = zeros_4 ++ (zeros_4 ++ (0 ∷ 0 ∷ []));
  b16 = 0 ∷ 0 ∷ [];
  b18 = 0 ∷ 0 ∷ [];
  b20 = zeros_4;
  b24 = zeros_4;
  b28 = zeros_4 ++ (zeros_4 ++ (zeros_4 ++ (zeros_4 ++ (zeros_4 ++ (zeros_4 ++ zeros_4)))));
}

-- snprintf into ifa_name
abbrev pub cut_name : Text → Text
cut_name = take 31

abbrev pub net_of : Option IfSockAddr → Option HostSockAddr
net_of none = none
net_of (some (packet mac index)) = none
net_of (some (net a)) = some a

-- `if_flag_pairs` are the host's IFF_* beside those of WASI; `call_malloc` is the app's function by its
-- index, with `none` where the call traps.
pub record IfHost (W : Type 0) : Type 0 where
  pub errnos : HostErrnos
  pub iff_up : ℕ
  pub iff_broadcast : ℕ
  pub iff_loopback : ℕ
  pub iff_pointopoint : ℕ
  pub iff_running : ℕ
  pub iff_promisc : ℕ
  pub iff_allmulti : ℕ
  pub iff_multicast : ℕ
  pub getifaddrs : W → CRet (List HostIfAddr) × W
  pub freeifaddrs : W → W
  pub call_malloc : ℕ → ℕ → W → Option ℕ × W

abbrev pub or_flags : ℕ → List (ℕ × ℕ) → ℕ
or_flags host_flags [] = 0
or_flags host_flags ((bit, wasi_bit) ∷ pairs) =
    let rest = or_flags host_flags pairs in
    if bit_and host_flags bit == 0 then rest else bit_or wasi_bit rest

-- wamr_wasi_ifaddrs_req; `entries` are those written at app_ret_ifaddrs_buf.
pub record IfAddrsReq : Type 0 where
  pub app_func_malloc : ℕ
  pub app_ret_ifaddrs_buf : ℕ
  pub ret_ifaddr_cnt : ℕ
  pub entries : List WasiIfAddr

module _ {W : Type 0} (h : IfHost W) where
  -- funcMapIfFlags
  unfoldable pub map_if_flags : ℕ → ℕ
  map_if_flags host_flags = or_flags host_flags (
      (h.iff_up, 1)
      ∷ (h.iff_broadcast, 2)
      ∷ (h.iff_loopback, 8)
      ∷ (h.iff_pointopoint, 16)
      ∷ (h.iff_running, 64)
      ∷ (h.iff_promisc, 256)
      ∷ (h.iff_allmulti, 512)
      ∷ (h.iff_multicast, 4096)
      ∷ [])

  unfoldable pub bare_entry : Text → IfInfo → WasiIfAddr
  unfolding map_if_flags
  bare_entry name i = record {
    ifa_name = cut_name name;
    ifa_flags = map_if_flags i.flags;
    ifa_addr = zero_sock_addr;
    ifa_netmask = zero_sock_addr;
    ifu_broadaddr = zero_sock_addr;
    ifa_hwaddr = i.mac;
    ifa_ifindex = i.if_index;
  }

  unfoldable pub addr_entry : Text → IfInfo → HostIfAddr → WasiIfAddr
  unfolding map_if_flags host_sock_addr_to_wasi_app_sock_addr
  addr_entry name i a = record {
    ifa_name = cut_name name;
    ifa_flags = map_if_flags a.ifa_flags;
    ifa_addr = host_sock_addr_to_wasi_app_sock_addr (net_of a.ifa_addr) zero_sock_addr;
    ifa_netmask = host_sock_addr_to_wasi_app_sock_addr a.ifa_netmask zero_sock_addr;
    ifu_broadaddr = host_sock_addr_to_wasi_app_sock_addr a.ifa_broadaddr zero_sock_addr;
    ifa_hwaddr = i.mac;
    ifa_ifindex = i.if_index;
  }

  -- The loop that writes the entries.
  unfoldable pub if_entries : TextMap IfInfo → List WasiIfAddr
  unfolding bare_entry addr_entry
  if_entries [] = []
  if_entries ((name, i) ∷ m) =
      (if is_empty i.if_addrs then bare_entry name i ∷ [] else map (addr_entry name i) i.if_addrs)
      ++ if_entries m

  -- After getifaddrs.
  unfoldable pub write_entries : TextMap IfInfo → IfAddrsReq → W → (Errno × IfAddrsReq) × W
  unfolding if_entries count_entries
  write_entries m req w =
      let cnt = count_entries 0 m in
      let counted : IfAddrsReq = record req { ret_ifaddr_cnt = cnt } in
      let (p, w') = h.call_malloc req.app_func_malloc (u32 (wasi_ifaddr_size * cnt)) w in
      if cnt == 0 then ((success, counted), w) else elim p [
        | none ↦ ((enomem, counted), w')
        | some buf ↦ if buf == 0 then ((enomem, counted), w') else (
          (success, record counted { app_ret_ifaddrs_buf = buf; entries = if_entries m }),
          w',
        )
      ]

  unfoldable pub after_getifaddrs :
      CRet (List HostIfAddr) → IfAddrsReq → W → (Errno × IfAddrsReq) × W
  unfolding write_entries add_if_addrs
  after_getifaddrs (fails n) req w = ((convert_errno_to_wasi_errno h.errnos (pos n), req), w)
  after_getifaddrs (returns addrs) req w =
      let (out, w') = write_entries (add_if_addrs addrs []) req w in (out, h.freeifaddrs w')

  -- SockGetIfAddrs: the code, and what stands in the request then.
  unfoldable pub sock_get_if_addrs : (valid : Bool) → IfAddrsReq → W → (Errno × IfAddrsReq) × W
  unfolding after_getifaddrs
  sock_get_if_addrs false req w = ((efault, req), w)
  sock_get_if_addrs true req w =
      let (r, w') = h.getifaddrs w in after_getifaddrs r (record req { ret_ifaddr_cnt = 0 }) w'
