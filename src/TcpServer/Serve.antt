-- ===== src/TcpServer/Serve.antt =====
-- A read of the listening socket with the server as its callback: network/net/Acceptor.cc, lines 67 to
-- 87, and network/TcpServer.cc, lines 28 to 52.
pub mod Pending
mod Tests
use wl_tmm.Prelude.{ℕ, ◌+◌, Option, none, some, List, [], ◌∷◌, ◌++◌, ◌||◌, ◌==◌, if◌then◌else◌}
use wl_tmm.Prelude.Int.{ℤ}
use wl_tmm.EventLoop.{EventLoop, Event, no_flags}
use wl_tmm.TimingWheel.{TimingWheel, stored, refused, invalid}
use wl_tmm.TcpConnection.{eintr, eagain}
use wl_tmm.Acceptor.{Acceptor, Accepted, accepted_as, failed, on_close}
use wl_tmm.TcpServer.{TcpServer, on_accept}

-- A server with its acceptor on a loop; `next` is the number of the next connection.
pub record Serving : Type 0 where
  pub loop : EventLoop
  pub wheel : TimingWheel
  pub acceptor : Acceptor
  pub server : TcpServer
  pub next : ℕ

-- The callback with a new socket; `none` is an access out of a wheel or a refused entry.
unfoldable pub accept_one : ℤ → Serving → Option Serving
accept_one fd x =
    let e : Event = record { id = x.next; fd = fd; event = no_flags } in
    let (l, e', inserted, s) = on_accept e (x.loop, x.wheel, x.server) in
    elim inserted [
      | stored w ↦ some (record x {
        loop = l;
        wheel = w;
        acceptor = record x.acceptor { accepted = x.acceptor.accepted ++ fd ∷ [] };
        server = s;
        next = x.next + 1;
      })
      | refused ↦ none
      | invalid ↦ none
    ]

-- It returns, ends the process, is undefined, or has not ended with the given answers.
pub data Outcome : Type 0 where
  returned : Serving → Outcome
  exited : Outcome
  undefined : Outcome
  running : Outcome

-- `Acceptor::OnRead`; `sock` is the socket for the case that it opens a new one.
unfoldable pub serve : ℤ → List Accepted → Serving → Outcome
serve sock [] x = running
serve sock (accepted_as fd ∷ answers) x = elim (accept_one fd x) [
  | none ↦ undefined
  | some x' ↦ serve sock answers x'
]
serve sock (failed errno ∷ answers) x =
    if errno == eintr || errno == eagain
    then returned x
    else elim (on_close sock (x.loop, x.acceptor)) [
      | none ↦ exited
      | some (l, a) ↦ returned (record x { loop = l; acceptor = a })
    ]
