-- ===== src/UdpSocket.antt =====
-- network/net/UdpSocket.cc: datagrams on a loop's thread. The callbacks that are set are flags, and
-- `notices` lists their calls. What a call of sendto gives is an argument.
pub mod Datagrams
pub mod Idle
pub mod Receive
mod Tests
use wl_tmm.Prelude.{
  ℕ, zero, suc, ◌+◌, Option, none, some, List, [], ◌∷◌, ◌++◌, Bool, true, false, ltb, leb, not,
  if◌then◌else◌, length, ◌>>=◌, ◌>>◌, assert,
}
use wl_tmm.Prelude.Int.{ℤ}
use wl_tmm.MsgBuffer.{MsgBuffer, copy_to, has_written, retrieve_all}
use wl_tmm.MsgBuffer.ReadFd
use wl_tmm.MsgBuffer.ReadFd.{Received, received}
use wl_tmm.EventLoop.{EventLoop, Event, close_event, enable_event_writing}
use wl_tmm.TcpConnection.{Wrote, wrote, failed, is_transient, shut_with}

-- `UdpBufferNode`: the address of the data, its size, and where the address of the peer stands. The
-- member `addr` hides that of BufferNode, which is `data` here.
pub record UdpBufferNode : Type 0 where
  pub data_addr : ℕ
  pub size : ℕ
  pub addr : ℕ
  pub sock_len : ℕ

-- A call of sendto: the data, its size, and the address of the peer with its length.
pub record Sendto : Type 0 where
  pub buf : ℕ
  pub len : ℕ
  pub dest : ℕ
  pub addrlen : ℕ

pub data Notice : Type 0 where
  closing write_complete : Notice

-- `sent` are the calls of sendto that succeeded.
pub record UdpSocket : Type 0 where
  pub event : Event
  pub buffer_list : List UdpBufferNode
  pub closed : Bool
  pub has_write_complete_cb : Bool
  pub has_close_cb : Bool
  pub sent : List Sendto
  pub shut : List ℤ
  pub notices : List Notice

abbrev pub noticed : Bool → Notice → List Notice → List Notice
noticed set n ns = if set then ns ++ n ∷ [] else ns

-- `OnClose`.
unfoldable pub on_close : UdpSocket → UdpSocket
on_close u =
    if u.closed
    then record u {
      closed = true;
      notices = noticed u.has_close_cb closing u.notices;
      event = (close_event u.event).0;
      shut = shut_with (close_event u.event).1 u.shut;
    }
    else u

unfoldable pub on_error : UdpSocket → UdpSocket
on_error u = on_close u

unfoldable pub enable_writing : Bool → EventLoop × UdpSocket → EventLoop × UdpSocket
enable_writing enable (l, u) =
    let (l', e, ok) = enable_event_writing l u.event enable in (l', record u { event = e })

-- The call that OnWrite makes for a node: `buf->addr` is the peer's address both times.
abbrev pub queued_call : UdpBufferNode → Sendto
queued_call n = record { buf = n.addr; len = n.size; dest = n.addr; addrlen = n.sock_len }

-- The call for the caller's data.
abbrev pub direct_call : UdpBufferNode → Sendto
direct_call n = record { buf = n.data_addr; len = n.size; dest = n.addr; addrlen = n.sock_len }

-- `SendInLoop` of a list of nodes.
unfoldable pub send_nodes_in_loop :
    List UdpBufferNode → EventLoop × UdpSocket → EventLoop × UdpSocket
send_nodes_in_loop nodes (l, u) = elim (u.buffer_list ++ nodes) [
  | [] ↦ (l, record u { buffer_list = [] })
  | n ∷ ns ↦ enable_writing true (l, record u { buffer_list = n ∷ ns })
]

unfoldable pub queue_node : UdpBufferNode → EventLoop × UdpSocket → EventLoop × UdpSocket
queue_node n (l, u) = enable_writing true (l, record u { buffer_list = u.buffer_list ++ n ∷ [] })

-- Whether a call of sendto returned more than 0.
abbrev pub is_positive : Wrote → Bool
is_positive (wrote n) = ltb 0 n
is_positive (failed errno) = false

-- `SendInLoop` of a buffer: `n` has the data, its size and the peer; `answer` is that of sendto.
unfoldable pub send_in_loop : UdpBufferNode → Wrote → EventLoop × UdpSocket → EventLoop × UdpSocket
send_in_loop n answer (l, u) = elim u.buffer_list [
  | m ∷ ms ↦ queue_node n (l, u)
  | [] ↦
      if is_positive answer
      then (l, record u { sent = u.sent ++ direct_call n ∷ [] })
      else queue_node n (l, u)
]

-- What a call does: it returns, or has not ended with the given answers.
pub data Outcome : Type 0 where
  returned : EventLoop × UdpSocket → Outcome
  running : Outcome

abbrev pub complete : UdpSocket → UdpSocket
complete u = record u { notices = noticed u.has_write_complete_cb write_complete u.notices }

-- The loop of OnWrite: a round makes a call for the first node, which leaves the list when the call
-- returned more than 0.
unfoldable pub write_loop : List Wrote → EventLoop × UdpSocket → Outcome
write_loop [] (l, u) = elim u.buffer_list [ [] ↦ returned (l, complete u) | n ∷ ns ↦ running ]
write_loop (answer ∷ answers) (l, u) = elim u.buffer_list [
  | [] ↦ returned (l, complete u)
  | n ∷ ns ↦ elim answer [
    | wrote zero ↦ write_loop answers (l, u)
    | wrote (suc k) ↦
        write_loop answers (l, record u { buffer_list = ns; sent = u.sent ++ queued_call n ∷ [] })
    | failed errno ↦ if is_transient errno then returned (l, u) else returned (l, on_close u)
  ]
]

-- `OnWrite` without the extension of the idle timeout, which Idle adds: it changes the wheels only.
unfoldable pub on_write : List Wrote → EventLoop × UdpSocket → Outcome
on_write answers (l, u) = if u.closed then returned (l, u) else write_loop answers (l, u)

-- A call of recvfrom writes at most `message_buffer_size_` bytes behind the buffer's contents.
abbrev pub message_buffer_size : ℕ
message_buffer_size = 65535

unfoldable pub receive : MsgBuffer → List ℕ → Option MsgBuffer
receive b bytes =
    assert (leb (length bytes) message_buffer_size)
    >> copy_to b.buffer b.writer_index bytes
    >>= λ buf. has_written (record b { buffer = buf }) (length bytes)

-- What a read does: the buffers that the message callback got, the buffer at the end, and whether
-- the socket is to be closed; an access out of the buffer; or a call that has not ended.
pub data Reading : Type 0 where
  ended : List MsgBuffer → MsgBuffer → Bool → Reading
  undefined : Reading
  reading : Reading

abbrev pub and_before : MsgBuffer → Reading → Reading
and_before b (ended bs b' close) = ended (b ∷ bs) b' close
and_before b undefined = undefined
and_before b reading = reading

-- The loop of OnRead with a callback; an empty datagram is passed over.
unfoldable pub read_loop : List Received → MsgBuffer → Reading
read_loop [] b = reading
read_loop (ReadFd.failed errno ∷ answers) b = ended [] b (not (is_transient errno))
read_loop (received [] ∷ answers) b = read_loop answers b
read_loop (received (x ∷ xs) ∷ answers) b = elim (receive b (x ∷ xs)) [
  | none ↦ undefined
  | some b' ↦ and_before b' (read_loop answers (retrieve_all b'))
]
