-- ===== src/UdpServer/Tests.antt =====
-- A server that opens its socket and stops.
use wl_tmm.Prelude.{ℕ, ◌≡◌, refl, none, some, List, [], false, true, codes}
use wl_tmm.Prelude.Int.{pos, negsuc}
use wl_tmm.Prelude.Maps.{int_eq, lookup, insert, erase}
use wl_tmm.EventLoop.{new_loop, no_flags, add_event, del_event}
use wl_tmm.UdpSocket.{on_close}
use wl_tmm.SocketOpt.{Inet}
use wl_tmm.UdpServer.{UdpServer, open_socket, stop}

abbrev texts : Inet (List ℕ)
texts = record { pton = λ family text. some text; ntop = λ family addr. addr; zero_addr = [] }

abbrev server : UdpServer (List ℕ)
server = record {
  socket = record {
    event = record { id = 1; fd = negsuc 0; event = no_flags };
    buffer_list = [];
    closed = false;
    has_write_complete_cb = false;
    has_close_cb = true;
    sent = [];
    shut = [];
    notices = [];
  };
  server = record { addr = codes "0.0.0.0"; port = codes "34444"; is_ipv6 = false };
  bound = none;
}

-- The descriptor of a stopped server stays open.
stopped :
    let (l, s) = stop (open_socket texts (pos 7) (new_loop, server)) in
    (l.events ≡ []) × (s.socket.event.fd ≡ pos 7) × (s.socket.shut ≡ [])
unfolding stop open_socket new_loop lookup insert erase add_event del_event on_close
stopped = (refl, refl, refl)
