-- ===== src/TcpClient.antt =====
-- network/TcpClient.cc: a connection that a client opens, on a loop's thread. The callbacks of the
-- connection are those of TcpConnection; `connects` counts the calls of the connect callback.
pub mod Lifecycle
mod Tests
use wl_tmm.Prelude.{
  ℕ, zero, suc, ◌+◌, Option, none, some, List, [], ◌∷◌, ◌++◌, Bool, true, false, ◌==◌, ◌||◌, not,
  if◌then◌else◌,
}
use wl_tmm.Prelude.Int.{ℤ, pos, negsuc, ltb_ℤ}
use wl_tmm.MsgBuffer.ReadFd.{Received}
use wl_tmm.EventLoop.{EventLoop, Event, add_event, del_event}
use wl_tmm.TcpConnection
use wl_tmm.TcpConnection.{
  TcpConnection, Iovec, Wrote, enable_writing, send_nodes_in_loop, send_in_loop,
}
use wl_tmm.TcpConnection.Write
use wl_tmm.TcpConnection.Read

-- `status_`, which the constructor does not set: any number may stand there at first.
pub data Status : Type 0 where
  init connecting connected disconnected : Status

pub record TcpClient : Type 0 where
  pub conn : TcpConnection
  pub status : Status
  pub has_connect_cb : Bool
  pub connects : ℕ

abbrev pub is_attached : Status → Bool
is_attached connecting = true
is_attached connected = true
is_attached _ = false

-- `OnClose`.
unfoldable pub on_close : EventLoop × TcpClient → EventLoop × TcpClient
on_close (l, c) = (
  if is_attached c.status then del_event l c.conn.event else l,
  record c { status = disconnected; conn = TcpConnection.on_close c.conn },
)

-- `OnError` of TcpConnection, which calls this OnClose.
unfoldable pub on_error : EventLoop × TcpClient → EventLoop × TcpClient
on_error x = on_close x

unfoldable pub update_connection_status : TcpClient → TcpClient
update_connection_status c = record c {
  status = connected;
  connects = if c.has_connect_cb then c.connects + 1 else c.connects;
}

-- `CheckError`: what getsockopt finds goes to `errno`, and `error` stays 0.
unfoldable pub check_error : ℕ → Bool
check_error so_error = let error : ℕ = 0 in not (error == 0)

-- The result of connect(2): 0, or -1 with `errno`.
pub data Connected : Type 0 where
  at_once : Connected
  failed : ℕ → Connected

abbrev pub einprogress : ℕ
einprogress = 115

-- `ConnectInLoop`: `fd` is the new socket, `answer` that of connect.
unfoldable pub connect_in_loop : ℤ → Connected → EventLoop × TcpClient → EventLoop × TcpClient
connect_in_loop fd answer (l, c) =
    let conn = record c.conn { event = record c.conn.event { fd = fd } } in
    if ltb_ℤ fd (pos 0)
    then on_close (l, record c { conn = conn })
    else let (l1, e) = add_event l conn.event in
      let (l2, conn') = enable_writing true (l1, record conn { event = e }) in
      let c' = record c { conn = conn'; status = connecting } in
      elim answer [
        | at_once ↦ (l2, update_connection_status c')
        | failed errno ↦ if errno == einprogress then (l2, c') else on_close (l2, c')
      ]

-- The end of a call of the connection, for the client that has it.
pub data Outcome : Type 0 where
  returned : EventLoop × TcpClient → Outcome
  undefined : Outcome
  running : Outcome

abbrev pub with_connection : TcpClient → Write.Outcome → Outcome
with_connection c (Write.returned (l, conn)) = returned (l, record c { conn = conn })
with_connection c Write.undefined = undefined
with_connection c Write.running = running

-- An event while the client is connecting; `so_error` is what getsockopt finds.
unfoldable pub on_connecting : ℕ → EventLoop × TcpClient → EventLoop × TcpClient
on_connecting so_error (l, c) =
    if check_error so_error then on_close (l, c) else (l, update_connection_status c)

-- `OnWrite`.
unfoldable pub on_write : ℕ → List Wrote → EventLoop × TcpClient → Outcome
on_write so_error answers (l, c) = elim c.status [
  | connecting ↦ returned (on_connecting so_error (l, c))
  | connected ↦ with_connection c (Write.on_write answers (l, c.conn))
  | init ↦ returned (l, c)
  | disconnected ↦ returned (l, c)
]

module _ (on_message : EventLoop × TcpConnection → EventLoop × TcpConnection) where
  -- `OnRead`.
  unfoldable pub on_read : ℕ → List Received → EventLoop × TcpClient → Outcome
  on_read so_error answers (l, c) = elim c.status [
    | connecting ↦ returned (on_connecting so_error (l, c))
    | connected ↦ with_connection c (Read.on_read on_message answers (l, c.conn))
    | init ↦ returned (l, c)
    | disconnected ↦ returned (l, c)
  ]

-- `Send` of a list of nodes and of a buffer, on the loop's thread.
unfoldable pub send_nodes : List Iovec → EventLoop × TcpClient → EventLoop × TcpClient
send_nodes nodes (l, c) = elim c.status [
  | connected ↦
      let (l', conn) = send_nodes_in_loop nodes (l, c.conn) in (l', record c { conn = conn })
  | init ↦ (l, c)
  | connecting ↦ (l, c)
  | disconnected ↦ (l, c)
]

unfoldable pub send : ℕ → ℕ → Wrote → EventLoop × TcpClient → EventLoop × TcpClient
send buf size answer (l, c) = elim c.status [
  | connected ↦
      let (l', conn) = send_in_loop buf size answer (l, c.conn) in (l', record c { conn = conn })
  | init ↦ (l, c)
  | connecting ↦ (l, c)
  | disconnected ↦ (l, c)
]
