-- ===== src/TcpConnection/Life/Tests.antt =====
-- A connection that is extended after ten turns, for the theorem about
-- network/net/TcpConnection.cc, lines 250 to 264.
use wl_tmm.Prelude.{◌≡◌, refl, [], ◌∷◌, ◌++◌, arith, replicate, false, true}
use wl_tmm.Prelude.Int.{pos}
use wl_tmm.EventLoop.{event_read}
use wl_tmm.TimingWheel.{
  TimingWheel, held, new_wheel, insert_entry, insert_second_entry, emplace, add_entry,
  contains_held,
}
use wl_tmm.TimingWheel.Due.{run}
use wl_tmm.TimingWheel.Expire.{expiries}
use wl_tmm.TimingWheel.Turn.{
  advance, pop_up_seconds, carry, destroy, release, is_referenced, wheel_refers, slot_refers,
  refers,
}
use wl_tmm.TcpConnection.{TcpConnection}
use wl_tmm.TcpConnection.Idle.{extend_life}
use wl_tmm.TcpConnection.Life.{extend_life-alive}

abbrev idle : TcpConnection
idle = record {
  event = record { id = 1; fd = pos 7; event = event_read };
  closed = false;
  has_close_cb = true;
  message_buffer = record { buffer = replicate 12 0; reader_index = 8; writer_index = 8 };
  has_message_cb = true;
  io_vec_li = [];
  has_write_complete_cb = true;
  max_idle_time = 30;
  sent = [];
  shut = [];
  notices = [];
}

-- The object is 20 seconds from its end.
abbrev waiting : TimingWheel
waiting = record new_wheel { seconds = replicate 19 [] ++ (held 1 ∷ []) ∷ replicate 40 [] }

-- And then 30.
abbrev extended : TimingWheel
extended = record new_wheel {
  seconds = replicate 19 [] ++ (held 1 ∷ []) ∷ replicate 9 [] ++ (held 1 ∷ []) ∷ replicate 30 [];
}

extend_life-alive_example : expiries 1 [] ≡ 0
unfolding new_wheel extend_life insert_entry insert_second_entry emplace add_entry contains_held run
    advance pop_up_seconds carry destroy release is_referenced wheel_refers slot_refers refers
extend_life-alive_example =
    extend_life-alive 1 29 idle waiting extended _ [] refl (omega arith) (omega arith) refl refl
