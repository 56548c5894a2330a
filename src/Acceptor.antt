-- ===== src/Acceptor.antt =====
-- network/net/Acceptor.cc: the listening socket of a server, on its loop's thread. What socket(2) and
-- accept(2) give are arguments; a failed socket(2) ends the process, which is `none`.
pub mod Reopen
pub mod Listen
mod Tests
use wl_tmm.Prelude.{
  ℕ, Option, none, some, List, [], ◌∷◌, ◌++◌, Bool, true, false, ◌==◌, ◌||◌, if◌then◌else◌,
}
use wl_tmm.Prelude.Int.{ℤ, pos, ltb_ℤ}
use wl_tmm.EventLoop.{EventLoop, Event, close_event, add_event, del_event}
use wl_tmm.TcpConnection.{shut_with, eintr, eagain}

-- `accepted` are the sockets that the accept callback got, `shut` the descriptors that were closed.
pub record Acceptor : Type 0 where
  pub event : Event
  pub accepted : List ℤ
  pub shut : List ℤ

-- `Open`: the options, the address and the queue of the socket are left out.
unfoldable pub open_socket : ℤ → EventLoop × Acceptor → Option (EventLoop × Acceptor)
open_socket sock (l, a) =
    let (old, fd) = close_event a.event in
    if ltb_ℤ sock (pos 0)
    then none
    else let (l', e) = add_event l (record old { fd = sock }) in
      some (l', record a { event = e; shut = shut_with fd a.shut })

unfoldable pub stop : EventLoop × Acceptor → EventLoop × Acceptor
stop (l, a) = (del_event l a.event, a)

-- `OnClose`, which `OnError` calls too: `sock` is the new socket.
unfoldable pub on_close : ℤ → EventLoop × Acceptor → Option (EventLoop × Acceptor)
on_close sock x = open_socket sock (stop x)

-- An answer of accept(2): a socket, or `errno`.
pub data Accepted : Type 0 where
  accepted_as : ℤ → Accepted
  failed : ℕ → Accepted

-- What a read does: it returns, ends the process, or has not ended with the given answers.
pub data Outcome : Type 0 where
  returned : EventLoop × Acceptor → Outcome
  exited : Outcome
  running : Outcome

-- `OnRead`; `sock` is the socket for the case that it opens a new one.
unfoldable pub on_read : ℤ → List Accepted → EventLoop × Acceptor → Outcome
on_read sock [] x = running
on_read sock (accepted_as s ∷ answers) (l, a) =
    on_read sock answers (l, record a { accepted = a.accepted ++ s ∷ [] })
on_read sock (failed errno ∷ answers) x =
    if errno == eintr || errno == eagain
    then returned x
    else elim (on_close sock x) [ none ↦ exited | some x' ↦ returned x' ]
