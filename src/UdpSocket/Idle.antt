-- ===== src/UdpSocket/Idle.antt =====
-- The idle timeout and the closing of a UdpSocket: network/net/UdpSocket.cc, lines 14 to 17, 85
-- to 92, 182 to 188 and 229 to 242. A negative time is a large uint32_t; the number of an entry stands for the weak
-- pointer, which is empty when no wheel refers to the entry.
use wl_tmm.Prelude.{ℕ, List, Option, none, some, ◌==◌, if◌then◌else◌, Bool}
use wl_tmm.TimingWheel.{TimingWheel, held, Inserted, stored, insert_entry}
use wl_tmm.TimingWheel.Turn.{is_referenced}
use wl_tmm.EventLoop.{EventLoop, Event}
use wl_tmm.EventLoop.Queue.{run_in_loop}
use wl_tmm.TcpConnection.{Wrote}
use wl_tmm.UdpSocket.{UdpSocket, Outcome, on_close, on_write}

-- `max_idle_time_` and `timeout_entry_`.
pub record Idle : Type 0 where
  pub max_idle_time : ℕ
  pub timeout_entry : Option ℕ

-- `OnTimeout` reports only.
unfoldable pub on_timeout : UdpSocket → UdpSocket
on_timeout u = u

-- `id` is the new entry.
unfoldable pub enable_check_idle_timeout : ℕ → ℕ → TimingWheel → Inserted × Idle
enable_check_idle_timeout max_time id w = (
  insert_entry w max_time (held id),
  record { max_idle_time = max_time; timeout_entry = some id },
)

-- `EntendLife`.
unfoldable pub extend_life : Idle → TimingWheel → Inserted
extend_life i w = elim i.timeout_entry [
  | none ↦ stored w
  | some id ↦ if is_referenced id w then insert_entry w i.max_idle_time (held id) else stored w
]

-- `OnWrite` with the extension of the idle timeout that an open socket begins it with.
unfoldable pub on_write_extending :
    List Wrote → Idle → TimingWheel → EventLoop × UdpSocket → Inserted × Outcome
on_write_extending answers i w x =
    (if x.1.closed then stored w else extend_life i w, on_write answers x)

-- `ForceClose`: the function that the loop gets stands at the number `fn`.
unfoldable pub force_close : (fn : ℕ) → Bool → Event → EventLoop × UdpSocket → EventLoop × UdpSocket
force_close fn in_loop_thread made x =
    run_in_loop (λ f u. if f == fn then on_close u else u) in_loop_thread made fn x
