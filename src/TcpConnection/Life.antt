-- ===== src/TcpConnection/Life.antt =====
-- What an extended life is worth: network/net/TcpConnection.cc, lines 250 to 264, with
-- network/net/TimingWheel.cc.
mod Tests
use wl_tmm.Prelude.{ℕ, ◌<◌, ◌≡◌, some, List, true, arith}
use wl_tmm.TimingWheel.{TimingWheel, Event, done, stored}
use wl_tmm.TimingWheel.Due.{run}
use wl_tmm.TimingWheel.Expire.{expiries}
use wl_tmm.TimingWheel.Alive.{insert_entry-alive}
use wl_tmm.TimingWheel.Turn.{is_referenced}
use wl_tmm.TcpConnection.{TcpConnection}
use wl_tmm.TcpConnection.Idle.{extend_life}

-- When ExtendLife put a connection that the wheels still hold back into them, it does not expire
-- in fewer turns of the wheels than its idle time, which is below a minute.
pub extend_life-alive :
    (id n : ℕ) (c : TcpConnection) (w w0 w' : TimingWheel) (ev : List Event)
    → is_referenced id w ≡ true
    → c.max_idle_time < 60
    → n < c.max_idle_time
    → extend_life (some id) w c ≡ stored w0
    → run n w0 ≡ done w' ev
    → expiries id ev ≡ 0
unfolding extend_life
extend_life-alive id n c w w0 w' ev held high few h ran =
    insert_entry-alive id n c.max_idle_time w w0 w' ev few high (ground (arith, held, h)) ran
