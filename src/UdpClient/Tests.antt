-- ===== src/UdpClient/Tests.antt =====
-- A client that connects and closes.
use wl_tmm.Prelude.{ℕ, refl, none, some, List, [], false, true, codes}
use wl_tmm.Prelude.Int.{pos, negsuc}
use wl_tmm.Prelude.Maps.{int_eq, lookup}
use wl_tmm.EventLoop.{EventLoop, new_loop, no_flags}
use wl_tmm.SocketOpt.{Inet}
use wl_tmm.UdpClient.{UdpClient, connect_in_loop, on_close}
use wl_tmm.UdpClient.Life.{IsConnected, IsLeaked, on_close-connect_in_loop}

abbrev texts : Inet (List ℕ)
texts = record { pton = λ family text. some text; ntop = λ family addr. addr; zero_addr = [] }

abbrev client : UdpClient (List ℕ)
client = record {
  socket = record {
    event = record { id = 1; fd = negsuc 0; event = no_flags };
    buffer_list = [];
    closed = false;
    has_write_complete_cb = false;
    has_close_cb = true;
    sent = [];
    shut = [];
    notices = [];
  };
  server_addr = record { addr = codes "127.0.0.1"; port = codes "34444"; is_ipv6 = false };
  connected = false;
  has_connected_cb = true;
  told = 0;
  sock_addr = none;
}

abbrev connected : EventLoop × UdpClient (List ℕ)
connected = connect_in_loop texts (pos 7) (new_loop, client)

closed_client :
    IsConnected (pos 7) 1 connected.0 connected.1
    × IsLeaked (pos 7) [] (on_close connected).0 (on_close connected).1
unfolding new_loop lookup
closed_client = on_close-connect_in_loop texts 7 new_loop client refl refl
