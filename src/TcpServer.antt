-- ===== src/TcpServer.antt =====
-- network/TcpServer.cc: the connections of a server, on its loop's thread. A connection is its event,
-- whose number is the object; its idle timeout is an entry of the wheels with that number.
pub mod Lifetime
pub mod Idle
pub mod Serve
mod Tests
use wl_tmm.Prelude.{ℕ, ◌+◌, List, [], ◌∷◌, ◌++◌, Bool, true, false, ◌==◌, if◌then◌else◌}
use wl_tmm.EventLoop.{EventLoop, Event, add_event, del_event}
use wl_tmm.TimingWheel.{TimingWheel, Inserted, held, insert_entry}

-- The calls of the callbacks of the server, with the connection.
pub data Notice : Type 0 where
  new_connection destroyed : ℕ → Notice

pub record TcpServer : Type 0 where
  pub connections : List ℕ
  pub has_new_connection_cb : Bool
  pub has_destory_connection_cb : Bool
  pub notices : List Notice

abbrev pub noticed : Bool → Notice → List Notice → List Notice
noticed set n ns = if set then ns ++ n ∷ [] else ns

-- An unordered_set: an insertion and an erasure.
unfoldable pub has_connection : ℕ → List ℕ → Bool
has_connection id [] = false
has_connection id (i ∷ is) = if i == id then true else has_connection id is

unfoldable pub insert_connection : ℕ → List ℕ → List ℕ
insert_connection id is = if has_connection id is then is else id ∷ is

unfoldable pub erase_connection : ℕ → List ℕ → List ℕ
erase_connection id [] = []
erase_connection id (i ∷ is) =
    let rest = erase_connection id is in if i == id then rest else i ∷ rest

abbrev pub idle_time : ℕ
idle_time = 30

-- `OnAccept`: the event of the new connection, with what became of the insertion in the wheels.
unfoldable pub on_accept :
    Event → EventLoop × TimingWheel × TcpServer → EventLoop × Event × Inserted × TcpServer
on_accept e (l, w, s) =
    let (l', e') = add_event l e in
    (
      l',
      e',
      insert_entry w idle_time (held e.id),
      record s {
        connections = insert_connection e.id s.connections;
        notices = noticed s.has_new_connection_cb (new_connection e.id) s.notices;
      },
    )

-- `OnConnectionClose`, the close callback of a connection.
unfoldable pub on_connection_close : Event → EventLoop × TcpServer → EventLoop × TcpServer
on_connection_close e (l, s) = (
  del_event l e,
  record s {
    connections = erase_connection e.id s.connections;
    notices = noticed s.has_destory_connection_cb (destroyed e.id) s.notices;
  },
)
