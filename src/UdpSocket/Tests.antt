-- ===== src/UdpSocket/Tests.antt =====
-- A socket with queued datagrams, for the theorems about network/net/UdpSocket.cc.
use wl_tmm.Prelude.{
  ℕ, ◌≡◌, refl, some, List, [], ◌∷◌, ◌++◌, map, true, false, arith, replicate, length-replicate,
}
use wl_tmm.Prelude.Int.{pos}
use wl_tmm.MsgBuffer.{MsgBuffer}
use wl_tmm.MsgBuffer.Contents.{contents}
use wl_tmm.MsgBuffer.ReadFd
use wl_tmm.MsgBuffer.ReadFd.{Received, received}
use wl_tmm.EventLoop.{event_read, new_loop}
use wl_tmm.TcpConnection.{failed, eagain}
use wl_tmm.UdpSocket.{UdpSocket, UdpBufferNode, on_write, ended, read_loop, on_write}
use wl_tmm.TimingWheel.{TimingWheel, new_wheel, held, stored, insert_entry}
use wl_tmm.TimingWheel.Turn.{is_referenced, wheel_refers, slot_refers, refers}
use wl_tmm.UdpSocket.Idle.{Idle, extend_life, on_write_extending}
use wl_tmm.UdpSocket.Receive.{IsFresh, read_loop-datagrams}

abbrev first : UdpBufferNode
first = record { data_addr = 100; size = 5; addr = 900; sock_len = 16 }

abbrev second : UdpBufferNode
second = record { data_addr = 200; size = 6; addr = 900; sock_len = 16 }

abbrev queued : UdpSocket
queued = record {
  event = record { id = 1; fd = pos 7; event = event_read };
  buffer_list = first ∷ second ∷ [];
  closed = false;
  has_write_complete_cb = true;
  has_close_cb = true;
  sent = [];
  shut = [];
  notices = [];
}

abbrev empty_buffer : MsgBuffer
empty_buffer = record { buffer = replicate 65543 0; reader_index = 8; writer_index = 8 }

empty_buffer-IsFresh : IsFresh empty_buffer
empty_buffer-IsFresh = record {
  reader = refl;
  writer = refl;
  size = length-replicate {A = ℕ} 65543 0;
}

read_loop-datagrams_example :
    (bs : List MsgBuffer) × (b' : MsgBuffer) × (read_loop
        (map received ((65 ∷ []) ∷ (66 ∷ 67 ∷ []) ∷ []) ++ ReadFd.failed eagain ∷ [])
        empty_buffer
      ≡ ended bs b' false)
    × (map contents bs ≡ (65 ∷ []) ∷ (66 ∷ 67 ∷ []) ∷ [])
    × IsFresh b'
read_loop-datagrams_example =
    read_loop-datagrams ((65 ∷ []) ∷ (66 ∷ 67 ∷ []) ∷ []) empty_buffer empty_buffer-IsFresh
      (omega arith, omega arith, (omega arith, omega arith, tt))

abbrev with_timeout : Idle
with_timeout = record { max_idle_time = 30; timeout_entry = some 1 }

abbrev held_wheel : TimingWheel
held_wheel = record new_wheel { hours = ((held 1 ∷ []) ∷ []) }

-- An open socket whose entry lives extends it, and a closed one does not.
open_extends :
    (on_write_extending [] with_timeout held_wheel (new_loop, queued)).0
    ≡ insert_entry held_wheel 30 (held 1)
unfolding on_write_extending extend_life is_referenced wheel_refers slot_refers refers new_wheel
open_extends = refl

closed_extends_nothing :
    (on_write_extending [] with_timeout held_wheel (new_loop, record queued { closed = true })).0
    ≡ stored held_wheel
unfolding on_write_extending
closed_extends_nothing = refl
