-- ===== src/SocketOpt/Tests.antt =====
-- A bound address and its socket.
use wl_tmm.Prelude.{ℕ, ◌≡◌, refl, some, List, [], ◌∷◌, true, false, arith, codes}
use wl_tmm.Prelude.Int.{pos}
use wl_tmm.InetAddress.{InetAddress}
use wl_tmm.InetAddress.Ports.{to_string, digits}
use wl_tmm.SocketOpt.{
  inet, Inet, AddrCall, Socket, bind_address, get_local_addr, accept, tcp_nodelay,
  set_tcp_non_delay, set_non_blocking, sock_nonblock,
}
use wl_tmm.SocketOpt.Addresses.{IsCanonical, get_local_addr-bind_address}

-- Addresses as their texts.
abbrev texts : Inet (List ℕ)
texts = record { pton = λ family text. some text; ntop = λ family addr. addr; zero_addr = [] }

abbrev localhost : InetAddress
localhost = record { addr = codes "127.0.0.1"; port = codes "34444"; is_ipv6 = false }

localhost-IsCanonical : IsCanonical texts localhost localhost.addr 34444
unfolding to_string digits
localhost-IsCanonical = record {
  read = refl;
  printed = refl;
  port_text = refl;
  small = omega arith;
}

get_local_addr-bind_address_example :
    (call : AddrCall (List ℕ)) × (bind_address texts localhost ≡ some call)
    × (call.addrlen ≡ 16)
    × (get_local_addr texts call.addr ≡ localhost)
get_local_addr-bind_address_example =
    get_local_addr-bind_address localhost localhost.addr 34444 localhost-IsCanonical

-- Descriptor 0 is accepted without its peer.
unfilled :
    accept texts (pos 0) (record { family = inet; port = 1; addr = [] }) localhost
    ≡ (pos 0, localhost)
unfolding accept
unfilled = refl

abbrev plain : Socket
plain = record { set_options = []; nonblock = false; other_flags = 2 }

nonblocking : set_non_blocking true (set_tcp_non_delay true plain) ≡ record {
  set_options = (sock_nonblock, 1) ∷ (tcp_nodelay, 1) ∷ [];
  nonblock = true;
  other_flags = 2;
}
unfolding set_non_blocking set_tcp_non_delay
nonblocking = refl
