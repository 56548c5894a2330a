-- ===== src/TcpConnection.antt =====
-- network/net/TcpConnection.cc: a connection on a loop's thread. A pointer is an address, and what
-- is sent are addresses, so that the bytes are those that the memory holds when the kernel reads
-- them. The callbacks that are set are flags, and `notices` lists their calls.
pub mod Write
pub mod Read
pub mod Idle
pub mod Life
pub mod Closed
pub mod Handover
pub mod Stream
pub mod Order
pub mod Stall
mod Tests
use wl_tmm.Prelude.{
  ℕ, zero, suc, ◌+◌, ◌-◌, ◌^◌, ◌≡◌, Option, none, some, List, [], ◌∷◌, ◌++◌, map, Bool, true, false,
  ◌||◌, ltb, ◌==◌, if◌then◌else◌, add_size, sub_size, take,
}
use wl_tmm.Prelude.Int.{ℤ}
use wl_tmm.MsgBuffer.{MsgBuffer}
use wl_tmm.EventLoop.{EventLoop, Event, close_event, enable_event_writing}

-- `struct iovec`.
pub record Iovec : Type 0 where
  pub iov_base : ℕ
  pub iov_len : ℕ

-- The calls of the close, message and write-complete callbacks.
pub data Notice : Type 0 where
  closing message write_complete : Notice

-- `sent` are the addresses whose bytes the kernel took, `shut` the descriptors that were closed.
pub record TcpConnection : Type 0 where
  pub event : Event
  pub closed : Bool
  pub has_close_cb : Bool
  pub message_buffer : MsgBuffer
  pub has_message_cb : Bool
  pub io_vec_li : List Iovec
  pub has_write_complete_cb : Bool
  pub max_idle_time : ℕ
  pub sent : List ℕ
  pub shut : List ℤ
  pub notices : List Notice

-- A call of a callback, if it is set.
abbrev pub noticed : Bool → Notice → List Notice → List Notice
noticed set n ns = if set then ns ++ n ∷ [] else ns

abbrev pub notify : Bool → Notice → TcpConnection → TcpConnection
notify set n c = record c { notices = noticed set n c.notices }

abbrev pub shut_with : Option ℤ → List ℤ → List ℤ
shut_with none fds = fds
shut_with (some fd) fds = fds ++ fd ∷ []

-- `OnClose`, on the loop's thread.
unfoldable pub on_close : TcpConnection → TcpConnection
on_close c =
    if c.closed
    then c
    else let (event, fd) = close_event c.event in
      let c' = notify c.has_close_cb closing c in
      record c' { closed = true; event = event; shut = shut_with fd c.shut }

-- An answer of write(2) or writev(2): the number of bytes taken, or `errno`.
pub data Wrote : Type 0 where
  wrote : ℕ → Wrote
  failed : ℕ → Wrote

abbrev pub eintr : ℕ
eintr = 4

abbrev pub eagain : ℕ
eagain = 11

-- EWOULDBLOCK is EAGAIN.
abbrev pub is_transient : ℕ → Bool
is_transient errno = errno == eintr || errno == eagain

-- The addresses from `base` on.
abbrev pub range : ℕ → ℕ → List ℕ
range base zero = []
range base (suc n) = base ∷ range (suc base) n

abbrev pub addresses : List Iovec → List ℕ
addresses [] = []
addresses (v ∷ vs) = range v.iov_base v.iov_len ++ addresses vs

unfoldable pub enable_writing : Bool → EventLoop × TcpConnection → EventLoop × TcpConnection
enable_writing enable (l, c) =
    let (l', e, ok) = enable_event_writing l c.event enable in (l', record c { event = e })

-- `SendInLoop` of a list of nodes.
unfoldable pub send_nodes_in_loop :
    List Iovec → EventLoop × TcpConnection → EventLoop × TcpConnection
send_nodes_in_loop nodes (l, c) = if c.closed then (l, c) else elim (c.io_vec_li ++ nodes) [
  | [] ↦ (l, record c { io_vec_li = [] })
  | v ∷ vs ↦ enable_writing true (l, record c { io_vec_li = v ∷ vs })
]

-- What write(2) returns, converted to size_t: -1 is the largest size, and never below 0.
abbrev pub send_len_of : Wrote → ℕ
send_len_of (wrote n) = n
send_len_of (failed errno) = 2 ^ 64 - 1

-- The addresses that write(2) took.
abbrev pub taken : Wrote → ℕ → ℕ → List ℕ
taken (wrote n) buf size = take n (range buf size)
taken (failed errno) buf size = []

-- What is left behind the direct write is queued.
unfoldable pub queue_rest : ℕ → ℕ → ℕ → EventLoop × TcpConnection → EventLoop × TcpConnection
queue_rest buf send_len size (l, c) =
    if size == 0
    then (l, notify c.has_write_complete_cb write_complete c)
    else enable_writing true (
      l,
      record c {
        io_vec_li = c.io_vec_li ++ record { iov_base = add_size buf send_len; iov_len = size } ∷ [];
      },
    )

-- `SendInLoop` of a buffer; `answer` is that of write(2).
unfoldable pub send_in_loop : ℕ → ℕ → Wrote → EventLoop × TcpConnection → EventLoop × TcpConnection
send_in_loop buf size answer (l, c) = if c.closed then (l, c) else elim c.io_vec_li [
  | v ∷ vs ↦ queue_rest buf 0 size (l, c)
  | [] ↦
      queue_rest buf (send_len_of answer) (sub_size size (send_len_of answer))
        (l, record c { sent = c.sent ++ taken answer buf size })
]
