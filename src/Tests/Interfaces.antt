-- ===== src/Tests/Interfaces.antt =====
-- Network interfaces (Socket/Interfaces and its laws) on a host with one that has an address.
use wamr_ext.Prelude.{[], arith, none, refl, some, true, ◌<◌, ◌∷◌, ◌≡◌, length, ◌^◌}
use wamr_ext.Prelude.Text.{bytes, text_compare, text_eq}
use wamr_ext.Prelude.TextMap.{insert, lookup}
use wamr_ext.Errno.{success}
use wamr_ext.Tests.Errno.{test_errnos}
use wamr_ext.Exec.{returns}
use wamr_ext.Socket.{inet}
use wamr_ext.Socket.Interfaces.{
  HostIfAddr, IfAddrsReq, IfHost, add_if_addrs, if_entries, net, sock_get_if_addrs,
}
use wamr_ext.Socket.InterfaceLaws.{EntryOf, IsIp, Some}
use wamr_ext.Socket.InterfaceCall.{sock_get_if_addrs_complete}

abbrev loopback : HostIfAddr
loopback = record {
  ifa_name = bytes "lo";
  ifa_flags = 1;
  ifa_addr = some (net (inet (127 ∷ 0 ∷ 0 ∷ 1 ∷ []) (0 ∷ 0 ∷ [])));
  ifa_netmask = none;
  ifa_broadaddr = none;
}

abbrev bare : HostIfAddr
bare = record {
  ifa_name = bytes "dummy";
  ifa_flags = 0;
  ifa_addr = none;
  ifa_netmask = none;
  ifa_broadaddr = none;
}

abbrev if_host : IfHost (Unit {0})
if_host = record {
  errnos = test_errnos;
  iff_up = 1;
  iff_broadcast = 2;
  iff_loopback = 8;
  iff_pointopoint = 16;
  iff_running = 64;
  iff_promisc = 256;
  iff_allmulti = 512;
  iff_multicast = 4096;
  getifaddrs = λ w. (returns (loopback ∷ bare ∷ []), w);
  freeifaddrs = λ w. w;
  call_malloc = λ func size w. (some 1024, w);
}

abbrev request : IfAddrsReq
request = record { app_func_malloc = 5; app_ret_ifaddrs_buf = 0; ret_ifaddr_cnt = 9; entries = [] }

abbrev answer : IfAddrsReq
answer = record {
  app_func_malloc = 5;
  app_ret_ifaddrs_buf = 1024;
  ret_ifaddr_cnt = 2;
  entries = if_entries if_host (add_if_addrs (loopback ∷ bare ∷ []) []);
}

answers : (sock_get_if_addrs if_host true request tt).0 ≡ (success, answer)
unfolding sock_get_if_addrs add_if_addrs if_entries insert lookup text_compare text_eq
answers = refl

few : length (if_entries if_host (add_if_addrs (loopback ∷ bare ∷ []) [])) < 2 ^ 32
unfolding add_if_addrs if_entries insert lookup text_compare text_eq
few = omega arith

sock_get_if_addrs_complete_example :
    (answer.ret_ifaddr_cnt ≡ length answer.entries)
    × ((a : HostIfAddr)
        → IsIp a
        → Some (λ x. x ≡ a) (loopback ∷ bare ∷ [])
        → Some (EntryOf a) answer.entries)
sock_get_if_addrs_complete_example =
    sock_get_if_addrs_complete if_host request answer tt (loopback ∷ bare ∷ []) refl refl few
      answers
