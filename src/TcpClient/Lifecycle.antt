-- ===== src/TcpClient/Lifecycle.antt =====
-- The status of a client: network/TcpClient.cc, lines 18 to 130.
use wl_tmm.Prelude.{
  ℕ, ◌≡◌, refl, ap, none, List, [], ◌∷◌, ◌++◌, Bool, true, false, if◌then◌else◌, arith,
}
use wl_tmm.Prelude.Int.{ℤ, pos, ltb_ℤ}
use wl_tmm.Prelude.Maps.{int_eq, int_beq, lookup}
use wl_tmm.MsgBuffer.ReadFd.{Received}
use wl_tmm.EventLoop.{EventLoop, close_event, del_event}
use wl_tmm.EventLoop.Interest.{InStep, del_event-InStep}
use wl_tmm.EventLoop.Registered.{del_event-lookup}
use wl_tmm.TcpConnection
use wl_tmm.TcpConnection.{TcpConnection, closing, Iovec, Wrote}
use wl_tmm.TcpClient.{
  TcpClient, connecting, connected, disconnected, is_attached, on_close, on_error,
  update_connection_status, check_error, returned, on_connecting, on_write, on_read, send,
  send_nodes,
}

on_close-shut :
    (c : TcpConnection)
    → c.closed ≡ false
    → ltb_ℤ (pos 0) c.event.fd ≡ true
    → (TcpConnection.on_close c).shut ≡ c.shut ++ c.event.fd ∷ []
unfolding wl_tmm.TcpConnection.on_close close_event
on_close-shut c live positive = ground (arith, live, positive)

on_close-notices :
    (c : TcpConnection)
    → c.closed ≡ false
    → (TcpConnection.on_close c).notices
      ≡ (if c.has_close_cb then c.notices ++ closing ∷ [] else c.notices)
unfolding wl_tmm.TcpConnection.on_close
on_close-notices c live = ground (arith, live)

on_close-again :
    (c : TcpConnection)
    → TcpConnection.on_close (TcpConnection.on_close c) ≡ TcpConnection.on_close c
unfolding wl_tmm.TcpConnection.on_close
on_close-again c = ground arith

module _ (on_message : EventLoop × TcpConnection → EventLoop × TcpConnection) where
  -- The first readable or writable event while a client connects makes it connected and calls the
  -- connect callback, whatever error the socket has, and leaves its connection as it is.
  pub on_write-on_read-connecting :
      (so_error : ℕ) (writes : List Wrote) (reads : List Received) (l : EventLoop) (c : TcpClient)
      → c.status ≡ connecting
      → let c' = update_connection_status c in
        (on_write so_error writes (l, c) ≡ returned (l, c'))
        × (on_read on_message so_error reads (l, c) ≡ returned (l, c'))
        × (c'.status ≡ connected)
        × (c'.conn ≡ c.conn)
  unfolding on_write on_read on_connecting check_error update_connection_status
  on_write-on_read-connecting so_error writes reads l c h =
      (ground (arith, h), ground (arith, h), refl, refl)

  -- What OnClose makes of a loop and a client, and that whatever is called later leaves both.
  pub record Disconnected (takes : ℤ → Bool) (l l' : EventLoop) (c c' : TcpClient) : Type 0 where
    pub registered :
        (fd : ℤ)
        → lookup fd l'.events ≡ (if int_beq c.conn.event.fd fd then none else lookup fd l.events)
    pub in_step : InStep takes l → InStep takes l'
    pub shut : c'.conn.shut ≡ c.conn.shut ++ c.conn.event.fd ∷ []
    pub notices :
        c'.conn.notices
        ≡ (if c.conn.has_close_cb then c.conn.notices ++ closing ∷ [] else c.conn.notices)
    pub closes_once : on_close (l', c') ≡ (l', c')
    pub errors : on_error (l', c') ≡ (l', c')
    pub sends : (buf size : ℕ) (answer : Wrote) → send buf size answer (l', c') ≡ (l', c')
    pub sends_nodes : (nodes : List Iovec) → send_nodes nodes (l', c') ≡ (l', c')
    pub writes :
        (so_error : ℕ) (answers : List Wrote)
        → on_write so_error answers (l', c') ≡ returned (l', c')
    pub reads :
        (so_error : ℕ) (answers : List Received)
        → on_read on_message so_error answers (l', c') ≡ returned (l', c')

  -- OnClose of a client that connects or is connected, whose connection is open and has a positive
  -- descriptor, takes this descriptor and no other out of the registered ones, leaves the kernel
  -- in step with them, closes the descriptor once, and calls the close callback once if it is set.
  -- Closing again, errors, sending and the events of the loop then change nothing.
  pub on_close-Disconnected :
      (takes : ℤ → Bool) (l : EventLoop) (c : TcpClient)
      → is_attached c.status ≡ true
      → c.conn.closed ≡ false
      → ltb_ℤ (pos 0) c.conn.event.fd ≡ true
      → let (l', c') = on_close (l, c) in Disconnected takes l l' c c'
  unfolding on_close on_error send send_nodes on_write on_read
  on_close-Disconnected takes l c attached live positive =
      let again = on_close-again c.conn in
      rw attached (record {
        registered = λ fd. del_event-lookup l c.conn.event fd;
        in_step = λ h. del_event-InStep takes l c.conn.event h;
        shut = on_close-shut c.conn live positive;
        notices = on_close-notices c.conn live;
        closes_once =
            ap (λ conn. (del_event l c.conn.event, record c { status = disconnected; conn = conn }))
              again;
        errors =
            ap (λ conn. (del_event l c.conn.event, record c { status = disconnected; conn = conn }))
              again;
        sends = λ buf size answer. refl;
        sends_nodes = λ nodes. refl;
        writes = λ so_error answers. refl;
        reads = λ so_error answers. refl;
      })
