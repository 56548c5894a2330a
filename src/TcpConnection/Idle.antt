-- ===== src/TcpConnection/Idle.antt =====
-- The idle timeout: network/net/TcpConnection.cc, lines 250 to 264. The TimeoutEntry is an object
-- that the wheels hold; its number stands for the weak pointer, which is empty until the first call
-- and when no wheel refers to the object any more. A negative time is a large uint32_t.
use wl_tmm.Prelude.{ℕ, Option, none, some, if◌then◌else◌}
use wl_tmm.TimingWheel.{TimingWheel, held, Inserted, stored, insert_entry}
use wl_tmm.TimingWheel.Turn.{is_referenced}
use wl_tmm.TcpConnection.{TcpConnection}

-- `id` is the new object.
unfoldable pub enable_check_idle_timeout :
    ℕ → ℕ → TimingWheel → TcpConnection → Inserted × TcpConnection × Option ℕ
enable_check_idle_timeout max_time id w c =
    (insert_entry w max_time (held id), record c { max_idle_time = max_time }, some id)

unfoldable pub extend_life : Option ℕ → TimingWheel → TcpConnection → Inserted
extend_life none w c = stored w
extend_life (some id) w c =
    if is_referenced id w then insert_entry w c.max_idle_time (held id) else stored w
