-- ===== src/Acceptor/Listen.antt =====
-- The listening socket that Open makes: network/net/Acceptor.cc, lines 32 to 56, with
-- network/base/SocketOpt.cc. socket(2) gives a socket without options; the flags of the call are those
-- of a socket that does not block.
mod Tests
use wl_tmm.Prelude.{
  ◌≡◌, refl, inl, inr, Option-cases, ℕ, Option, some, [], ◌∷◌, true, if◌then◌else◌, arith,
}
use wl_tmm.InetAddress.{InetAddress}
use wl_tmm.SocketOpt.{
  inet, inet6, Inet, AddrCall, SocketCall, stream, Socket, so_reuseaddr, so_reuseport,
  create_nonblocking_tcp_socket, set_reuse_addr, set_reuse_port, bind_address, get_local_addr,
  get_sock_addr,
}
use wl_tmm.InetAddress.Ports.{port_of}
use wl_tmm.SocketOpt.Addresses.{IsCanonical, get_local_addr-bind_address}

-- The call of socket(2), the socket with its options, and the call of bind(2). The results of
-- setsockopt, bind and listen are not used.
pub record Listening (A : Type 0) : Type 0 where
  pub created : SocketCall
  pub socket : Socket
  pub bound : Option (AddrCall A)

abbrev new_socket : Socket
new_socket = record { set_options = []; nonblock = true; other_flags = 0 }

unfoldable pub open_listener : {A : Type 0} → Inet A → InetAddress → Listening A
open_listener net addr = record {
  created = create_nonblocking_tcp_socket (if addr.is_ipv6 then inet6 else inet);
  socket = set_reuse_port true (set_reuse_addr true new_socket);
  bound = bind_address net addr;
}

bind_address-family :
    {A : Type 0}
    → (net : Inet A) (a : InetAddress) (call : AddrCall A) → bind_address net a ≡ some call
    → (if a.is_ipv6 then inet6 else inet) ≡ call.addr.family
unfolding bind_address get_sock_addr
bind_address-family net a call h = elim (Option-cases (port_of a)) [
  | inl bad ↦ absurd (ground (arith, bad, h))
  | inr (port, read) ↦ ground (arith, read, h)
]

-- For an address whose texts are those that inet_ntop and to_string print, the socket is a stream of
-- the address's family that does not block, with both options set, and its local address is that
-- address.
pub open_listener_lem :
    {A : Type 0}
    → {net : Inet A} → (addr : InetAddress) (x : A) (port : ℕ) → IsCanonical net addr x port
    → let s = open_listener net addr in
      (call : AddrCall A) × (s.bound ≡ some call)
      × (s.created.type ≡ stream)
      × (s.created.family ≡ call.addr.family)
      × (s.socket.set_options ≡ (so_reuseport, 1) ∷ (so_reuseaddr, 1) ∷ [])
      × (s.socket.nonblock ≡ true)
      × (get_local_addr net call.addr ≡ addr)
unfolding open_listener create_nonblocking_tcp_socket set_reuse_addr set_reuse_port
open_listener_lem {net = net} addr x port c =
    let (call, bound, length, back) = get_local_addr-bind_address addr x port c in
    (call, bound, refl, bind_address-family net addr call bound, refl, refl, back)
