-- ===== src/TcpClient/Tests.antt =====
-- A client that is closed, for the theorems about network/TcpClient.cc.
use wl_tmm.Prelude.{refl, [], Bool, true, false, replicate}
use wl_tmm.Prelude.Int.{ℤ, pos, negsuc}
use wl_tmm.EventLoop.{event_read, new_loop}
use wl_tmm.TcpClient.{TcpClient, connecting, on_close}
use wl_tmm.TcpClient.Lifecycle.{Disconnected, on_close-Disconnected}

abbrev client : TcpClient
client = record {
  conn = record {
    event = record { id = 1; fd = pos 7; event = event_read };
    closed = false;
    has_close_cb = true;
    message_buffer = record { buffer = replicate 12 0; reader_index = 8; writer_index = 8 };
    has_message_cb = true;
    io_vec_li = [];
    has_write_complete_cb = true;
    max_idle_time = 30;
    sent = [];
    shut = [];
    notices = [];
  };
  status = connecting;
  has_connect_cb = true;
  connects = 0;
}

abbrev taken : ℤ → Bool
taken (pos n) = true
taken (negsuc n) = false

on_close-Disconnected_example :
    let (l', c') = on_close (new_loop, client) in Disconnected (λ x. x) taken new_loop l' client c'
on_close-Disconnected_example = on_close-Disconnected (λ x. x) taken new_loop client refl refl refl
