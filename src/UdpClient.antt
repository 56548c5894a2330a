-- ===== src/UdpClient.antt =====
-- network/UdpClient.cc: a client on top of its UdpSocket, on the loop's thread. The descriptor that
-- socket(2) gives and the answers of sendto are arguments; the result of connect(2) is not used.
pub mod Life
mod Tests
use wl_tmm.Prelude.{ℕ, ◌+◌, Option, none, some, List, Bool, true, false, if◌then◌else◌}
use wl_tmm.Prelude.Int.{ℤ, pos, ltb_ℤ}
use wl_tmm.EventLoop.{EventLoop, add_event, del_event}
use wl_tmm.UdpSocket
use wl_tmm.UdpSocket.{UdpSocket, UdpBufferNode, enable_writing, send_nodes_in_loop, send_in_loop}
use wl_tmm.TcpConnection.{Wrote}
use wl_tmm.InetAddress.{InetAddress}
use wl_tmm.SocketOpt.{Inet, SockAddr, get_sock_addr, size_of_sockaddr_in6}

-- `told` counts the calls of the connected callback; `sock_addr` has no value at first.
pub record UdpClient (A : Type 0) : Type 0 where
  pub socket : UdpSocket
  pub server_addr : InetAddress
  pub connected : Bool
  pub has_connected_cb : Bool
  pub told : ℕ
  pub sock_addr : Option (SockAddr A)

module _ {A : Type 0} where
  -- `OnClose`.
  unfoldable pub on_close : EventLoop × UdpClient A → EventLoop × UdpClient A
  on_close (l, c) =
      if c.connected
      then (
        del_event l c.socket.event,
        record c { connected = false; socket = UdpSocket.on_close c.socket },
      )
      else (l, c)

  -- `ConnectInLoop`, for a socket.
  unfoldable pub connected_with : Inet A → EventLoop × UdpClient A → EventLoop × UdpClient A
  connected_with net (l, c) =
      let (l1, e) = add_event l c.socket.event in
      let (l2, u) = enable_writing true (l1, record c.socket { event = e }) in
      (
        l2,
        record c {
          connected = true;
          socket = u;
          sock_addr = get_sock_addr net c.server_addr;
          told = if c.has_connected_cb then c.told + 1 else c.told;
        },
      )

  unfoldable pub connect_in_loop : Inet A → ℤ → EventLoop × UdpClient A → EventLoop × UdpClient A
  connect_in_loop net sock (l, c) =
      let event = record c.socket.event { fd = sock } in
      let c' = record c { socket = record c.socket { event = event } } in
      if ltb_ℤ sock (pos 0) then on_close (l, c') else connected_with net (l, c')

  -- `Send` of nodes and of a buffer, on the loop's thread; `peer` is the address of `sock_addr_`.
  unfoldable pub send_nodes : List UdpBufferNode → EventLoop × UdpClient A → EventLoop × UdpClient A
  send_nodes nodes (l, c) =
      let (l', u) = send_nodes_in_loop nodes (l, c.socket) in (l', record c { socket = u })

  unfoldable pub send :
      (buf size peer : ℕ) → Wrote → EventLoop × UdpClient A → EventLoop × UdpClient A
  send buf size peer answer (l, c) =
      let node : UdpBufferNode = record {
        data_addr = buf;
        size = size;
        addr = peer;
        sock_len = size_of_sockaddr_in6;
      } in
      let (l', u) = send_in_loop node answer (l, c.socket) in (l', record c { socket = u })
