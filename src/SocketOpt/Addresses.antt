-- ===== src/SocketOpt/Addresses.antt =====
-- An address that a socket is bound to, read back: network/base/SocketOpt.cc, lines 30 to 46 and 89 to
-- 116, with network/base/InetAddress.cc, lines 43 to 68.
use mathlib.Core.Option
use wl_tmm.Prelude.{ℕ, ◌^◌, ◌<◌, ◌≡◌, refl, ap, ◌∙◌, some, Bool, arith, if◌then◌else◌}
use wl_tmm.Endian.{host_to_network16, network_to_host16, byte_swap-byte_swap}
use wl_tmm.InetAddress.{InetAddress, set_addr, set_is_ipv6}
use wl_tmm.InetAddress.Ports.{to_string, to_uint16, atoi, set_port, port_of, port_of-set_port}
use wl_tmm.SocketOpt.{
  Family, inet, inet6, SockAddr, Inet, get_sock_addr, bind_address, fill, get_local_addr, AddrCall,
  size_of_sockaddr_in, size_of_sockaddr_in6,
}

abbrev pub family_of : Bool → Family
family_of is_ipv6 = if is_ipv6 then inet6 else inet

network_to_host16-host_to_network16 :
    (x : ℕ) → x < 2 ^ 16 → network_to_host16 (host_to_network16 x) ≡ x
unfolding network_to_host16 host_to_network16
network_to_host16-host_to_network16 x small = byte_swap-byte_swap 2 x (omega (arith, small))

-- An address whose texts are those that the conversions print.
pub record IsCanonical {A : Type 0} (net : Inet A) (a : InetAddress) (x : A) (port : ℕ)
    : Type 0 where
  pub read : net.pton (family_of a.is_ipv6) a.addr ≡ some x
  pub printed : net.ntop (family_of a.is_ipv6) x ≡ a.addr
  pub port_text : a.port ≡ to_string port
  pub small : port < 2 ^ 16

abbrev sock_addr : {A : Type 0} → InetAddress → A → ℕ → SockAddr A
sock_addr a x port = record {
  family = family_of a.is_ipv6;
  port = host_to_network16 port;
  addr = x;
}

module _ {A : Type 0} {net : Inet A} (a : InetAddress) (x : A) (port : ℕ) where
  port_of-IsCanonical : IsCanonical net a x port → port_of a ≡ some port
  unfolding set_port port_of
  port_of-IsCanonical c =
      ap (λ t. Option.map to_uint16 (atoi t)) c.port_text ∙ port_of-set_port a port c.small

  get_sock_addr-IsCanonical :
      IsCanonical net a x port → get_sock_addr net a ≡ some (sock_addr a x port)
  unfolding get_sock_addr
  get_sock_addr-IsCanonical c = ground (arith, port_of-IsCanonical c, c.read)

  fill-IsCanonical : IsCanonical net a x port → get_local_addr net (sock_addr a x port) ≡ a
  unfolding get_local_addr fill set_port set_addr set_is_ipv6
  fill-IsCanonical c =
      ground (arith, c.printed, c.port_text, network_to_host16-host_to_network16 port c.small)

  -- For an address whose texts are those that inet_ntop and to_string print, and a port below
  -- 2^16, bind gets a socket address of the length of its family, from which GEtLocalAddr makes
  -- the address again.
  pub get_local_addr-bind_address :
      IsCanonical net a x port
      → (call : AddrCall A) × (bind_address net a ≡ some call)
        × (call.addrlen ≡ (if a.is_ipv6 then size_of_sockaddr_in6 else size_of_sockaddr_in))
        × (get_local_addr net call.addr ≡ a)
  unfolding bind_address
  get_local_addr-bind_address c = (
    record {
      addr = sock_addr a x port;
      addrlen = if a.is_ipv6 then size_of_sockaddr_in6 else size_of_sockaddr_in;
    },
    ap
        (Option.map (λ s. record {
          addr = s;
          addrlen = if a.is_ipv6 then size_of_sockaddr_in6 else size_of_sockaddr_in;
        }))
        (get_sock_addr-IsCanonical c),
    refl,
    fill-IsCanonical c,
  )
