-- ===== src/SocketOpt.antt =====
-- network/base/SocketOpt.cc, and GetSockAddr of network/base/InetAddress.cc: addresses of sockets and
-- their options. inet_pton and inet_ntop are arguments, and so is what a system call gives.
pub mod Addresses
mod Tests
use mathlib.Core.Option
use wl_tmm.Prelude.{ℕ, Option, none, some, List, [], ◌∷◌, Bool, true, false, if◌then◌else◌}
use wl_tmm.Prelude.Int.{ℤ, pos, negsuc, ltb_ℤ}
use wl_tmm.Endian.{host_to_network16, network_to_host16}
use wl_tmm.InetAddress.{InetAddress, set_addr, set_is_ipv6}
use wl_tmm.InetAddress.Ports.{atoi, set_port, port_of}

-- AF_INET, AF_INET6 and the other families.
pub data Family : Type 0 where
  inet inet6 unspecified : Family

-- A socket address with a port in network order, and an address of a type `A`.
pub record SockAddr (A : Type 0) : Type 0 where
  pub family : Family
  pub port : ℕ
  pub addr : A

-- The conversions of addresses; `zero_addr` is what memset leaves.
pub record Inet (A : Type 0) : Type 0 where
  pub pton : Family → List ℕ → Option A
  pub ntop : Family → A → List ℕ
  pub zero_addr : A

-- The calls of socket, bind and connect, as far as they depend on the object.
pub data SocketType : Type 0 where
  stream datagram : SocketType

pub record SocketCall : Type 0 where
  pub family : Family
  pub type : SocketType

-- `CreateNonblockingTcpSocket` and `CreateNonblockingUdpSocket`: the flags and protocols are fixed.
unfoldable pub create_nonblocking_tcp_socket : Family → SocketCall
create_nonblocking_tcp_socket family = record { family = family; type = stream }

unfoldable pub create_nonblocking_udp_socket : Family → SocketCall
create_nonblocking_udp_socket family = record { family = family; type = datagram }

abbrev pub size_of_sockaddr_in : ℕ
size_of_sockaddr_in = 16

abbrev pub size_of_sockaddr_in6 : ℕ
size_of_sockaddr_in6 = 28

-- An address with the length that the call gets.
pub record AddrCall (A : Type 0) : Type 0 where
  pub addr : SockAddr A
  pub addrlen : ℕ

module _ {A : Type 0} (net : Inet A) where
  abbrev pub addr_or_zero : Family → List ℕ → A
  addr_or_zero family text = elim (net.pton family text) [ none ↦ net.zero_addr | some x ↦ x ]

  -- `InetAddress::GetSockAddr`; a text that is no address leaves zeros.
  unfoldable pub get_sock_addr : InetAddress → Option (SockAddr A)
  get_sock_addr a =
      let family = if a.is_ipv6 then inet6 else inet in
      elim (port_of a) [
        | none ↦ none
        | some port ↦ some (record {
          family = family;
          port = host_to_network16 port;
          addr = addr_or_zero family a.addr;
        })
      ]

  -- `BindAddress`: what bind gets.
  unfoldable pub bind_address : InetAddress → Option (AddrCall A)
  bind_address localaddr =
      let size = if localaddr.is_ipv6 then size_of_sockaddr_in6 else size_of_sockaddr_in in
      Option.map (λ s. record { addr = s; addrlen = size }) (get_sock_addr localaddr)

  -- `Connect`: the length is that of sockaddr_in6 for either family.
  unfoldable pub connect : InetAddress → Option (AddrCall A)
  connect addr =
      Option.map (λ s. record { addr = s; addrlen = size_of_sockaddr_in6 }) (get_sock_addr addr)

  -- What Accept, GEtLocalAddr and GEtpeerAddr make of a socket address.
  unfoldable pub fill : SockAddr A → InetAddress → InetAddress
  fill s a = elim s.family [
    | inet ↦ set_port (set_addr a (net.ntop inet s.addr)) (network_to_host16 s.port)
    | inet6 ↦
        set_is_ipv6 (set_port (set_addr a (net.ntop inet6 s.addr)) (network_to_host16 s.port)) true
    | unspecified ↦ a
  ]

  -- `Accept` with what accept4 gives: the descriptor, and the peer when it is positive.
  unfoldable pub accept : ℤ → SockAddr A → InetAddress → ℤ × InetAddress
  accept sock s peeraddr = (sock, if ltb_ℤ (pos 0) sock then fill s peeraddr else peeraddr)

  abbrev pub new_address : InetAddress
  new_address = record { addr = []; port = []; is_ipv6 = false }

  -- `GEtLocalAddr` and `GEtpeerAddr`, with what getsockname and getpeername write.
  unfoldable pub get_local_addr : SockAddr A → InetAddress
  get_local_addr s = fill s new_address

  unfoldable pub get_peer_addr : SockAddr A → InetAddress
  get_peer_addr s = fill s new_address

-- The options of a socket that the code sets. SetNonBlocking also passes SOCK_NONBLOCK, which is no
-- option, to setsockopt.
pub data SockOption : Type 0 where
  tcp_nodelay so_reuseaddr so_reuseport so_keepalive sock_nonblock : SockOption

-- A socket in the kernel: the calls of setsockopt with their values, and the status flags, O_NONBLOCK
-- and the others.
pub record Socket : Type 0 where
  pub set_options : List (SockOption × ℕ)
  pub nonblock : Bool
  pub other_flags : ℕ

abbrev pub setsockopt : SockOption → Bool → Socket → Socket
setsockopt option on s = record s { set_options = (option, if on then 1 else 0) ∷ s.set_options }

unfoldable pub set_tcp_non_delay : Bool → Socket → Socket
set_tcp_non_delay on s = setsockopt tcp_nodelay on s

unfoldable pub set_reuse_addr : Bool → Socket → Socket
set_reuse_addr on s = setsockopt so_reuseaddr on s

unfoldable pub set_reuse_port : Bool → Socket → Socket
set_reuse_port on s = setsockopt so_reuseport on s

unfoldable pub set_keep_alive : Bool → Socket → Socket
set_keep_alive on s = setsockopt so_keepalive on s

-- `SetNonBlocking`: the flags with O_NONBLOCK or without it.
unfoldable pub set_non_blocking : Bool → Socket → Socket
set_non_blocking on s =
    let s' = setsockopt sock_nonblock on s in
    if on then record s' { nonblock = true } else record s' { nonblock = false }
