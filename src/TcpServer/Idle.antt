-- ===== src/TcpServer/Idle.antt =====
-- The idle timeout of an accepted connection: network/TcpServer.cc, lines 28 to 58, with
-- network/net/TimingWheel.cc.
use wl_tmm.Prelude.{ℕ, ◌≡◌, ap, List, ltb, if◌then◌else◌, arith}
use wl_tmm.EventLoop.{EventLoop, Event}
use wl_tmm.TimingWheel
use wl_tmm.TimingWheel.{TimingWheel, held, done, stored, insert_entry}
use wl_tmm.TimingWheel.Sums.{sum_all}
use wl_tmm.TimingWheel.Due.{run}
use wl_tmm.TimingWheel.Expire.{refs, expiries}
use wl_tmm.TimingWheel.Idle.{insert_entry-expiries}
use wl_tmm.TcpServer.{TcpServer, on_accept}

-- A connection whose number no wheel holds when it is accepted expires once, at the 30th turn of
-- the wheels after that, and not before or again, if nothing else is put into the wheels.
pub on_accept-expiries :
    (n : ℕ) (e e' : Event) (l l' : EventLoop) (w w0 w' : TimingWheel) (s s' : TcpServer)
    (ev : List wl_tmm.TimingWheel.Event)
    → sum_all (refs e.id) w ≡ 0
    → on_accept e (l, w, s) ≡ (l', e', stored w0, s')
    → run n w0 ≡ done w' ev
    → expiries e.id ev ≡ (if ltb n 30 then 0 else 1)
unfolding on_accept
on_accept-expiries n e e' l l' w w0 w' s s' ev fresh accepted ran =
    insert_entry-expiries e.id n 30 w w0 w' ev (omega arith) (omega arith) fresh
      (ap (λ r. r.2) accepted) ran
