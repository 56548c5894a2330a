-- ===== src/UdpClient/Life.antt =====
-- What closing a connected client leaves: network/UdpClient.cc, lines 32 to 73, on top of
-- network/net/UdpSocket.cc.
use mathlib.Core.Path.{subst}
use wl_tmm.Prelude.{ℕ, ◌≡◌, ◌∙◌, none, some, List, true, false, arith}
use wl_tmm.Prelude.Int.{ℤ, pos}
use wl_tmm.Prelude.Maps.{int_eq, int_beq_iff, lookup, lookup-insert, lookup-erase}
use wl_tmm.EventLoop.{EventLoop, add_event, del_event, enable_event_writing}
use wl_tmm.UdpSocket
use wl_tmm.UdpSocket.{enable_writing}
use wl_tmm.SocketOpt.{Inet}
use wl_tmm.UdpClient.{UdpClient, on_close, connected_with, connect_in_loop}

-- The registered object at a descriptor, and what the client knows of its socket.
pub record IsConnected {A : Type 0} (fd : ℤ) (id : ℕ) (l : EventLoop) (c : UdpClient A)
    : Type 0 where
  pub on : c.connected ≡ true
  pub registered : lookup fd l.events ≡ some id
  pub descriptor : c.socket.event.fd ≡ fd

pub record IsLeaked {A : Type 0} (fd : ℤ) (shut : List ℤ) (l : EventLoop) (c : UdpClient A)
    : Type 0 where
  pub off : c.connected ≡ false
  pub unregistered : lookup fd l.events ≡ none
  pub descriptor : c.socket.event.fd ≡ fd
  pub not_shut : c.socket.shut ≡ shut

module _ {A : Type 0} (net : Inet A) (n : ℕ) (l : EventLoop) (c : UdpClient A) where
  connect_in_loop-IsConnected :
      lookup (pos n) l.events ≡ none
      → IsConnected
          (pos n)
          c.socket.event.id
          (connect_in_loop net (pos n) (l, c)).0
          (connect_in_loop net (pos n) (l, c)).1
  unfolding connect_in_loop connected_with add_event enable_writing enable_event_writing
  connect_in_loop-IsConnected new = record {
    on = ground (arith, new);
    registered = ground (
      arith,
      new,
      lookup-insert (pos n) (pos n) c.socket.event.id l.events,
      int_beq_iff (pos n) (pos n),
    );
    descriptor = ground (arith, new, lookup-insert (pos n) (pos n) c.socket.event.id l.events);
  }

  connect_in_loop-socket :
      lookup (pos n) l.events ≡ none
      → let c' = (connect_in_loop net (pos n) (l, c)).1 in
        (c'.socket.closed ≡ c.socket.closed) × (c'.socket.shut ≡ c.socket.shut)
  unfolding connect_in_loop connected_with add_event enable_writing enable_event_writing
  connect_in_loop-socket new =
      ground (arith, new, lookup-insert (pos n) (pos n) c.socket.event.id l.events)

on_close-IsLeaked :
    {A : Type 0} (fd : ℤ) (id : ℕ) (l : EventLoop) (c : UdpClient A)
    → IsConnected fd id l c
    → c.socket.closed ≡ false
    → IsLeaked fd c.socket.shut (on_close (l, c)).0 (on_close (l, c)).1
unfolding on_close UdpSocket.on_close del_event
on_close-IsLeaked fd id l c h up = record {
  off = ground (arith, h.on);
  unregistered = ground (
    arith,
    h.on,
    h.registered,
    h.descriptor,
    lookup-erase c.socket.event.fd fd l.events,
    int_beq_iff fd fd,
    int_beq_iff c.socket.event.fd fd,
  );
  descriptor = ground (arith, h.on, h.descriptor, up);
  not_shut = ground (arith, h.on, up);
}

-- A client that connects with a new descriptor is registered with it; when it closes it is not, but
-- the descriptor stays open.
pub on_close-connect_in_loop :
    {A : Type 0} (net : Inet A) (n : ℕ) (l : EventLoop) (c : UdpClient A)
    → lookup (pos n) l.events ≡ none
    → c.socket.closed ≡ false
    → let (l', c') = connect_in_loop net (pos n) (l, c) in
      IsConnected (pos n) c.socket.event.id l' c'
      × IsLeaked (pos n) c.socket.shut (on_close (l', c')).0 (on_close (l', c')).1
on_close-connect_in_loop net n l c new up =
    let (l', c') = connect_in_loop net (pos n) (l, c) in
    let connected = connect_in_loop-IsConnected net n l c new in
    let (same, shut) = connect_in_loop-socket net n l c new in
    (
      connected,
      subst (λ s. IsLeaked (pos n) s (on_close (l', c')).0 (on_close (l', c')).1) shut
          (on_close-IsLeaked (pos n) c.socket.event.id l' c' connected (same ∙ up)),
    )
