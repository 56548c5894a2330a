-- ===== src/TcpServer/Tests.antt =====
-- A server without connections, for the theorem about network/TcpServer.cc.
use wl_tmm.Prelude.{◌≡◌, refl, some, List, [], Bool, ltb, true, false}
use wl_tmm.Prelude.Int.{ℤ, pos, negsuc}
use wl_tmm.Prelude.Maps.{int_eq, lookup}
use wl_tmm.EventLoop.{EventLoop, Event, add_event, no_flags, new_loop}
use wl_tmm.EventLoop.Interest.{InStep, new_loop-InStep}
use wl_tmm.TimingWheel
use wl_tmm.TimingWheel.{
  TimingWheel, Inserted, stored, refused, invalid, Effect, done, undefined, runaway, new_wheel,
  insert_entry, insert_second_entry, emplace, add_entry, contains_held,
}
use wl_tmm.TimingWheel.Due.{run}
use wl_tmm.TimingWheel.Expire.{expiries}
use wl_tmm.TimingWheel.Turn.{
  advance, pop_up_seconds, carry, destroy, release, is_referenced, wheel_refers, slot_refers,
}
use wl_tmm.TcpServer.{TcpServer, has_connection, on_accept, on_connection_close}
use wl_tmm.TcpServer.Idle.{on_accept-expiries}
use wl_tmm.TcpServer.Lifetime.{on_accept-on_connection_close}

abbrev server : TcpServer
server = record {
  connections = [];
  has_new_connection_cb = true;
  has_destory_connection_cb = false;
  notices = [];
}

abbrev client : Event
client = record { id = 1; fd = pos 7; event = no_flags }

-- The descriptors that the kernel takes.
abbrev taken : ℤ → Bool
taken (pos n) = ltb n 1024
taken (negsuc n) = false

on_accept-on_connection_close_example :
    let (l1, e1, inserted, s1) = on_accept client (new_loop, new_wheel, server) in
    let (l2, s2) = on_connection_close e1 (l1, s1) in
    (has_connection 1 s1.connections ≡ true)
    × (lookup (pos 7) l1.events ≡ some 1)
    × (s2.connections ≡ [])
    × ((fd : ℤ) → lookup fd l2.events ≡ lookup fd new_loop.events)
    × InStep taken l2
unfolding has_connection new_loop lookup
on_accept-on_connection_close_example =
    on_accept-on_connection_close taken client new_loop new_wheel server refl refl
      (new_loop-InStep taken)

abbrev accepted : EventLoop × Event × Inserted × TcpServer
accepted = on_accept client (new_loop, new_wheel, server)

abbrev stored_wheel : Inserted → TimingWheel
stored_wheel (stored w) = w
stored_wheel refused = new_wheel
stored_wheel invalid = new_wheel

abbrev kept_wheel : TimingWheel
kept_wheel = stored_wheel accepted.2

abbrev finished : Effect → TimingWheel
finished (done w ev) = w
finished undefined = new_wheel
finished runaway = new_wheel

abbrev happened : Effect → List wl_tmm.TimingWheel.Event
happened (done w ev) = ev
happened undefined = []
happened runaway = []

-- After 30 turns the connection has expired.
on_accept-expiries_example : expiries 1 (happened (run 30 kept_wheel)) ≡ 1
unfolding on_accept new_loop new_wheel insert_entry insert_second_entry emplace add_entry
    contains_held run advance pop_up_seconds carry destroy release is_referenced wheel_refers
    slot_refers add_event
on_accept-expiries_example =
    on_accept-expiries 30 client accepted.1 new_loop accepted.0 new_wheel kept_wheel
      (finished (run 30 kept_wheel)) server accepted.3 (happened (run 30 kept_wheel)) refl refl refl
