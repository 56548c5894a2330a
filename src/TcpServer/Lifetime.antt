-- ===== src/TcpServer/Lifetime.antt =====
-- From the accept to the close of a connection: network/TcpServer.cc, lines 30 to 64.
use wl_tmm.Prelude.{
  ℕ, ◌≡◌, refl, ap, ◌∙◌, none, some, List, [], ◌∷◌, Bool, true, false, ==_iff, arith,
}
use wl_tmm.Prelude.Int.{ℤ}
use wl_tmm.Prelude.Maps.{int_eq, int_beq_iff, lookup, insert, lookup-insert, lookup-erase}
use wl_tmm.EventLoop.{EventLoop, Event, add_event, del_event}
use wl_tmm.EventLoop.Interest.{InStep, add_event-InStep, del_event-InStep}
use wl_tmm.TimingWheel.{TimingWheel}
use wl_tmm.TcpServer.{
  TcpServer, has_connection, insert_connection, erase_connection, on_accept, on_connection_close,
}

erase_connection-absent :
    (id : ℕ) (is : List ℕ) → has_connection id is ≡ false → erase_connection id is ≡ is
unfolding has_connection erase_connection
erase_connection-absent id [] h = refl
erase_connection-absent id (i ∷ is) h = ground (arith, h, erase_connection-absent id is)

erase_connection-insert_connection :
    (id : ℕ) (is : List ℕ)
    → has_connection id is ≡ false
    → erase_connection id (insert_connection id is) ≡ is
unfolding insert_connection erase_connection
erase_connection-insert_connection id is h =
    ground (arith, h, erase_connection-absent id is h, ==_iff id id)

has_connection-insert_connection :
    (id : ℕ) (is : List ℕ)
    → has_connection id is ≡ false
    → has_connection id (insert_connection id is) ≡ true
unfolding insert_connection has_connection
has_connection-insert_connection id is h = ground (arith, h, ==_iff id id)

module _ (e : Event) (l : EventLoop) (free : lookup e.fd l.events ≡ none) where
  add_event-fresh : lookup e.fd (add_event l e).0.events ≡ some e.id
  unfolding add_event
  add_event-fresh =
      ground (arith, free, lookup-insert e.fd e.fd e.id l.events, int_beq_iff e.fd e.fd)

  add_event-id : (add_event l e).1.id ≡ e.id
  unfolding add_event
  add_event-id = ground (arith, free)

  del_event-add_event :
      (fd : ℤ)
      → lookup fd (del_event (add_event l e).0 (add_event l e).1).events ≡ lookup fd l.events
  unfolding add_event del_event
  del_event-add_event fd =
      let events : List (ℤ × ℕ) = insert e.fd e.id l.events in
      ground (
        arith,
        free,
        lookup-insert e.fd e.fd e.id l.events,
        lookup-insert e.fd fd e.id l.events,
        int_beq_iff e.fd e.fd,
        int_beq_iff e.fd fd,
        lookup-erase e.fd fd events,
      )

-- A connection that is accepted and closed again is among the connections and registered in
-- between, leaves the connections of the server and the registered descriptors as they were, and
-- the kernel watches exactly the registered descriptors that it takes, if it did before. The
-- connection and its descriptor are new.
pub on_accept-on_connection_close :
    (takes : ℤ → Bool) (e : Event) (l : EventLoop) (w : TimingWheel) (s : TcpServer)
    → has_connection e.id s.connections ≡ false
    → lookup e.fd l.events ≡ none
    → InStep takes l
    → let (l1, e1, inserted, s1) = on_accept e (l, w, s) in
      let (l2, s2) = on_connection_close e1 (l1, s1) in
      (has_connection e.id s1.connections ≡ true)
      × (lookup e.fd l1.events ≡ some e.id)
      × (s2.connections ≡ s.connections)
      × ((fd : ℤ) → lookup fd l2.events ≡ lookup fd l.events)
      × InStep takes l2
unfolding on_accept on_connection_close
on_accept-on_connection_close takes e l w s fresh free step =
    let registered = add_event-fresh e l free in
    let gone = del_event-add_event e l free in
    (
      has_connection-insert_connection e.id s.connections fresh,
      registered,
      ap (λ i. erase_connection i (insert_connection e.id s.connections)) (add_event-id e l free)
          ∙ erase_connection-insert_connection e.id s.connections fresh,
      gone,
      del_event-InStep takes (add_event l e).0 (add_event l e).1 (add_event-InStep takes l e step),
    )
