-- ===== src/TcpConnection/Tests.antt =====
-- A connection with an empty queue, for the theorems about network/net/TcpConnection.cc.
use wl_tmm.Prelude.{◌≡◌, refl, List, [], ◌∷◌, ◌++◌, true, false, arith, replicate}
use wl_tmm.Prelude.Int.{pos}
use wl_tmm.MsgBuffer.{MsgBuffer}
use wl_tmm.MsgBuffer.ReadFd.{Received, total}
use wl_tmm.MsgBuffer.ReadFd
use wl_tmm.EventLoop.{event_read, new_loop, enable_event_writing}
use wl_tmm.Prelude.Maps.{lookup}
use wl_tmm.TcpConnection.{
  TcpConnection, Iovec, wrote, send_in_loop, send_nodes_in_loop, queue_rest, enable_writing,
}
use wl_tmm.TcpConnection.Order.{
  Op, nodes, buffer, Steps, done, next, sends_nodes, sends_buffer, all_asked, stream-all_asked,
}
use wl_tmm.TcpConnection.Stream.{stream}

abbrev fresh_buffer : MsgBuffer
fresh_buffer = record { buffer = replicate 12 0; reader_index = 8; writer_index = 8 }

abbrev idle : TcpConnection
idle = record {
  event = record { id = 1; fd = pos 7; event = event_read };
  closed = false;
  has_close_cb = true;
  message_buffer = fresh_buffer;
  has_message_cb = true;
  io_vec_li = [];
  has_write_complete_cb = true;
  max_idle_time = 30;
  sent = [];
  shut = [];
  notices = [];
}

abbrev segment : Iovec
segment = record { iov_base = 500; iov_len = 3 }

abbrev queued : TcpConnection
queued = record idle { io_vec_li = segment ∷ segment ∷ [] }

-- Three bytes of a buffer of five are written at once; a node follows.
abbrev two_sends : List Op
two_sends = buffer 100 5 3 ∷ nodes (segment ∷ []) ∷ []

two_sends_done :
    Steps
      (new_loop, idle)
      two_sends
      (send_nodes_in_loop (segment ∷ []) (send_in_loop 100 5 (wrote 3) (new_loop, idle)))
unfolding send_in_loop queue_rest enable_writing enable_event_writing new_loop lookup
two_sends_done =
    next _ _ _ _ _ refl (sends_buffer 100 5 3 (new_loop, idle) (omega arith) (omega arith)) (
      next _ _ _ _ _ refl
        (sends_nodes (segment ∷ []) (send_in_loop 100 5 (wrote 3) (new_loop, idle))) (done _))

stream-all_asked_example :
    stream (send_nodes_in_loop (segment ∷ []) (send_in_loop 100 5 (wrote 3) (new_loop, idle))).1
    ≡ [] ++ all_asked two_sends
stream-all_asked_example = stream-all_asked (new_loop, idle) _ two_sends two_sends_done
