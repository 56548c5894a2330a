-- ===== src/TcpServer/Serve/Tests.antt =====
-- A server that reads two sockets, for the theorem about network/net/Acceptor.cc and
-- network/TcpServer.cc.
use wl_tmm.Prelude.{◌≡◌, List, [], ◌∷◌, ◌++◌, map, true, false}
use wl_tmm.Prelude.Int.{ℤ, pos}
use wl_tmm.EventLoop.{event_read, new_loop}
use wl_tmm.TimingWheel.{new_wheel}
use wl_tmm.TimingWheel.Total.{new_wheel-IsValid}
use wl_tmm.TcpConnection.{eagain}
use wl_tmm.Acceptor.{accepted_as, failed}
use wl_tmm.TcpServer.Serve.{Serving, returned, serve}
use wl_tmm.TcpServer.Serve.Pending.{Served, serve-accepted}

abbrev listening : Serving
listening = record {
  loop = new_loop;
  wheel = new_wheel;
  acceptor = record {
    event = record { id = 0; fd = pos 5; event = event_read };
    accepted = [];
    shut = [];
  };
  server = record {
    connections = [];
    has_new_connection_cb = true;
    has_destory_connection_cb = false;
    notices = [];
  };
  next = 1;
}

abbrev socks : List ℤ
socks = pos 7 ∷ pos 8 ∷ []

serve-accepted_example :
    (x' : Serving) × (serve (pos 6) (map accepted_as socks ++ failed eagain ∷ []) listening
      ≡ returned x')
    × Served socks listening x'
serve-accepted_example = serve-accepted (pos 6) socks listening new_wheel-IsValid
