-- ===== src/UdpServer.antt =====
-- network/UdpServer.cc: a server on top of its UdpSocket, on the loop's thread. The descriptor that
-- socket(2) gives is an argument; the result of bind(2) is not used.
mod Tests
use wl_tmm.Prelude.{Option, none, some, if◌then◌else◌}
use wl_tmm.Prelude.Int.{ℤ, pos, ltb_ℤ}
use wl_tmm.EventLoop.{EventLoop, add_event, del_event}
use wl_tmm.UdpSocket.{UdpSocket, on_close}
use wl_tmm.InetAddress.{InetAddress}
use wl_tmm.SocketOpt.{Inet, AddrCall, bind_address}

-- `bound` is the last call of bind.
pub record UdpServer (A : Type 0) : Type 0 where
  pub socket : UdpSocket
  pub server : InetAddress
  pub bound : Option (AddrCall A)

module _ {A : Type 0} where
  -- `Open`.
  unfoldable pub open_socket : Inet A → ℤ → EventLoop × UdpServer A → EventLoop × UdpServer A
  open_socket net sock (l, s) =
      let u = record s.socket { event = record s.socket.event { fd = sock } } in
      if ltb_ℤ sock (pos 0) then (l, record s { socket = on_close u }) else (
        (add_event l u.event).0,
        record s {
          socket = record u { event = (add_event l u.event).1 };
          bound = bind_address net s.server;
        },
      )

  -- The function that `Stop` hands to the loop.
  unfoldable pub stop : EventLoop × UdpServer A → EventLoop × UdpServer A
  stop (l, s) = (del_event l s.socket.event, record s { socket = on_close s.socket })
