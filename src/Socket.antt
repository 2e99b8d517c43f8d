-- ===== src/Socket.antt =====
-- src/wamr_ext_lib/WasiSocketExt.h and .cpp: sockets for the app. The host's socket functions, the
-- descriptor table of uvwasi and libuv's handles are the parameter `Host`, over the type W of the
-- world's states. Constants of the host are names. Windows is left out, as in the source.
pub mod Address
pub mod Open
pub mod Calls
pub mod Descriptors
pub mod Bytes
pub mod Options
pub mod OptionLaws
pub mod Messages
pub mod MessageLaws
pub mod Interfaces
pub mod InterfaceLaws
pub mod InterfaceCall
use wamr_ext.Prelude.Text.{Text}
use wamr_ext.Prelude.{ℕ, Bool, List}
use wamr_ext.Errno.{Errno, HostErrnos}
use wamr_ext.Exec.{Result, CRet}

-- A socket address of the host, by its family: the bytes of its fields, in network byte order where
-- the field is.
pub data HostSockAddr : Type 0 where
  unspec : HostSockAddr
  inet : (addr port : List ℕ) → HostSockAddr
  inet6 : (addr port flowinfo scope_id : List ℕ) → HostSockAddr
  other_family : ℕ → HostSockAddr

-- wamr_wasi_sockaddr_storage: the family, and the 56 bytes of the union, cut where a field of one of
-- its members begins or ends. inet.addr is b0, inet.port b4; inet6.addr is b0, b4 and b6; inet6.port is
-- b16, inet6.flowinfo b20, inet6.scope_id b24.
pub record WasiSockAddr : Type 0 where
  pub family : ℕ
  pub b0 : List ℕ
  pub b4 : List ℕ
  pub b6 : List ℕ
  pub b16 : List ℕ
  pub b18 : List ℕ
  pub b20 : List ℕ
  pub b24 : List ℕ
  pub b28 : List ℕ

abbrev pub sockaddr_size : ℕ
sockaddr_size = 64

-- uvwasi_fd_wrap_t, as far as it is read.
pub record FdWrap : Type 0 where
  pub id : ℕ
  pub fd : ℕ
  pub type : ℕ
  pub real_path : Text

pub data Domain : Type 0 where
  af_inet af_inet6 : Domain

pub data SockType : Type 0 where
  sock_dgram sock_stream : SockType

pub data Protocol : Type 0 where
  ipproto_udp ipproto_tcp : Protocol

pub data ShutdownHow : Type 0 where
  shut_rd shut_wr shut_rdwr : ShutdownHow

pub data OptLevel : Type 0 where
  sol_socket sol_tcp sol_ip sol_ipv6 : OptLevel

pub data OptName : Type 0 where
  so_reuseaddr so_type so_error so_dontroute so_broadcast so_sndbuf so_rcvbuf so_keepalive so_linger
        so_reuseport so_rcvtimeo so_sndtimeo tcp_nodelay ip_ttl ipv6_v6only ipv6_unicast_hops :
      OptName

-- HostSockOptValType.
pub data OptValType : Type 0 where
  uint32 timeval linger : OptValType

-- The union hostSockOptVal, by the member that is meant: a number of 32 bits; tv_sec and tv_usec, of 64
-- bits; l_onoff and l_linger, of 32 bits. Signed numbers are their bit patterns.
abbrev pub OptVal : OptValType → Type 0
OptVal uint32 = ℕ
OptVal timeval = ℕ × ℕ
OptVal linger = ℕ × ℕ

-- Flags of a descriptor that SockOpen sets.
pub record FdFlags : Type 0 where
  pub nonblock : Bool
  pub cloexec : Bool

pub record Host (W : Type 0) : Type 0 where
  pub errnos : HostErrnos
  -- uvwasi_fd_table_get and uvwasi_fd_table_insert, libuv, std::to_string
  pub fd_table_get : ℕ → W → Result FdWrap
  pub fd_table_insert : ℕ → Text → ℕ → W → Result ℕ × W
  pub get_osfhandle : ℕ → ℕ
  pub open_osfhandle : ℕ → ℕ
  pub to_string : ℕ → Text
  pub fs_close : ℕ → W → W
  -- the socket functions
  pub socket : Domain → SockType → Protocol → W → CRet ℕ × W
  pub add_fd_flags : ℕ → FdFlags → W → W
  pub bind : ℕ → HostSockAddr → W → CRet (Unit {0}) × W
  pub connect : ℕ → HostSockAddr → W → CRet (Unit {0}) × W
  pub listen : ℕ → ℕ → W → CRet (Unit {0}) × W
  pub accept : ℕ → W → CRet (ℕ × HostSockAddr) × W
  pub getsockname : ℕ → W → CRet HostSockAddr × W
  pub getpeername : ℕ → W → CRet HostSockAddr × W
  pub shutdown : ℕ → ShutdownHow → W → CRet (Unit {0}) × W
  pub getsockopt : ℕ → OptLevel → OptName → (t : OptValType) → W → CRet (OptVal t) × W
  pub setsockopt : ℕ → OptLevel → OptName → (t : OptValType) → OptVal t → W → CRet (Unit {0}) × W
  -- whether the platform has SO_REUSEPORT or SO_REUSEPORT_LB, and the numbers of WASI's codes
  pub has_reuseport : Bool
  pub wasi_code : Errno → ℕ
