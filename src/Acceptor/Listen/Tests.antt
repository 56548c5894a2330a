-- ===== src/Acceptor/Listen/Tests.antt =====
-- A server of the port 34444, for the theorem about network/net/Acceptor.cc.
use wl_tmm.Prelude.{ℕ, ◌≡◌, refl, some, List, [], ◌∷◌, true, false, arith, codes}
use wl_tmm.InetAddress.{InetAddress}
use wl_tmm.InetAddress.Ports.{to_string, digits}
use wl_tmm.SocketOpt.{Inet, AddrCall, stream, so_reuseaddr, so_reuseport, get_local_addr}
use wl_tmm.SocketOpt.Addresses.{IsCanonical}
use wl_tmm.Acceptor.Listen.{open_listener, open_listener_lem}

-- Addresses as their texts.
abbrev texts : Inet (List ℕ)
texts = record { pton = λ family text. some text; ntop = λ family addr. addr; zero_addr = [] }

abbrev any_host : InetAddress
any_host = record { addr = codes "0.0.0.0"; port = codes "34444"; is_ipv6 = false }

any_host-IsCanonical : IsCanonical texts any_host any_host.addr 34444
unfolding to_string digits
any_host-IsCanonical = record { read = refl; printed = refl; port_text = refl; small = omega arith }

bound_to_port :
    let s = open_listener texts any_host in
    (call : AddrCall (List ℕ)) × (s.bound ≡ some call)
    × (s.created.type ≡ stream)
    × (s.created.family ≡ call.addr.family)
    × (s.socket.set_options ≡ (so_reuseport, 1) ∷ (so_reuseaddr, 1) ∷ [])
    × (s.socket.nonblock ≡ true)
    × (get_local_addr texts call.addr ≡ any_host)
bound_to_port = open_listener_lem any_host any_host.addr 34444 any_host-IsCanonical
