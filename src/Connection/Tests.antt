-- ===== src/Connection/Tests.antt =====
-- Contexts and activations of small connections.
use wl_tmm.Prelude.{ℕ, ◌≡◌, refl, none, some, [], ◌∷◌, true, false}
use wl_tmm.Prelude.Int.{pos}
use wl_tmm.InetAddress.{InetAddress}
use wl_tmm.EventLoop.{Event, new_loop, no_flags}
use wl_tmm.EventLoop.Queue.{run_functions}
use wl_tmm.Prelude.Maps.{int_eq, insert}
use wl_tmm.Connection.{Connection, set_context, clear_context, run_active}
use wl_tmm.Connection.Activation.{activate_times, run_functions-activate_times}

abbrev nowhere : InetAddress
nowhere = record { addr = []; port = []; is_ipv6 = false }

abbrev idle_connection : Connection ℕ
idle_connection = record {
  local_addr = nowhere;
  peer_addr = nowhere;
  contexts = [];
  has_active_cb = true;
  active = false;
  called = 0;
}

abbrev pipe : Event
pipe = record { id = 9; fd = pos 5; event = no_flags }

-- A cleared type keeps its entry.
kept :
    (clear_context
      (pos 0)
      (set_context (pos 3) (some 8) (set_context (pos 0) (some 7) idle_connection))).contexts
    ≡ (pos 0, none) ∷ (pos 3, some 8) ∷ []
unfolding set_context clear_context insert
kept = refl

run_functions-activate_times_example :
    ((run_functions (run_active 1) (activate_times 1 pipe 2 (new_loop, idle_connection))).1.called
      ≡ 2)
    × ((run_functions (run_active 1) (activate_times 1 pipe 2 (new_loop, idle_connection))).1.active
        ≡ true)
unfolding new_loop
run_functions-activate_times_example =
    run_functions-activate_times 1 pipe 1 new_loop idle_connection refl refl refl
