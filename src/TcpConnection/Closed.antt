-- ===== src/TcpConnection/Closed.antt =====
-- Whether a connection is closed after a call: network/net/TcpConnection.cc, lines 11 to 24 and 170 to
-- 228.
use wl_tmm.Prelude.{ℕ, ◌≡◌, List, ◌++◌, true, arith, List-cases, inl, inr, sub_size, Bool-cases}
use wl_tmm.EventLoop.{EventLoop, close_event}
use wl_tmm.TcpConnection.{
  TcpConnection, Iovec, Wrote, on_close, enable_writing, send_nodes_in_loop, send_in_loop,
  queue_rest, send_len_of, taken,
}
use wl_tmm.TcpConnection.Stream.{stream}

pub send_nodes_in_loop-closed :
    (nodes : List Iovec) (l : EventLoop) (c : TcpConnection)
    → (send_nodes_in_loop nodes (l, c)).1.closed ≡ c.closed
unfolding send_nodes_in_loop enable_writing
send_nodes_in_loop-closed nodes l c = ground arith

queue_rest-closed :
    (buf n size : ℕ) (l : EventLoop) (c : TcpConnection)
    → (queue_rest buf n size (l, c)).1.closed ≡ c.closed
unfolding queue_rest enable_writing
queue_rest-closed buf n size l c = ground arith

pub send_in_loop-closed :
    (buf size : ℕ) (a : Wrote) (l : EventLoop) (c : TcpConnection)
    → (send_in_loop buf size a (l, c)).1.closed ≡ c.closed
unfolding send_in_loop
send_in_loop-closed buf size a l c = elim (Bool-cases c.closed) [
  | inl shut ↦ ground (arith, shut)
  | inr live ↦ elim (List-cases c.io_vec_li) [
    | inl empty ↦ ground (
      arith,
      live,
      empty,
      queue_rest-closed buf (send_len_of a) (sub_size size (send_len_of a)) l
          (record c { sent = c.sent ++ taken a buf size }),
    )
    | inr (v, vs, queued) ↦ ground (arith, live, queued, queue_rest-closed buf 0 size l c)
  ]
]

pub on_close-stream :
    (c : TcpConnection) → (stream (on_close c) ≡ stream c) × ((on_close c).closed ≡ true)
unfolding on_close close_event
on_close-stream c = elim (Bool-cases c.closed) [
  | inl shut ↦ (ground (arith, shut), ground (arith, shut))
  | inr live ↦ (ground (arith, live), ground (arith, live))
]
