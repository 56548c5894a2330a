-- ===== src/TcpConnection/Handover/Tests.antt =====
-- Calls that another thread makes before the loop's turn, for the theorem about
-- network/net/TcpConnection.cc, lines 25 to 29 and 160 to 169.
use wl_tmm.Prelude.{ℕ, zero, suc, ◌≡◌, refl, List, [], ◌∷◌, ◌++◌, arith, replicate, false, true}
use wl_tmm.Prelude.Int.{pos}
use wl_tmm.EventLoop.{Event, event_read, new_loop, no_flags}
use wl_tmm.TcpConnection.{TcpConnection, Iovec, Wrote, wrote}
use wl_tmm.TcpConnection.Stream.{stream}
use wl_tmm.TcpConnection.Handover.{
  Call, send_list, send_buffer, force_close, AllSends, of_list, of_buffer, call_all, run_functions,
  all_given, run_functions-call_all,
}

abbrev idle : TcpConnection
idle = record {
  event = record { id = 1; fd = pos 7; event = event_read };
  closed = false;
  has_close_cb = true;
  message_buffer = record { buffer = replicate 12 0; reader_index = 8; writer_index = 8 };
  has_message_cb = true;
  io_vec_li = [];
  has_write_complete_cb = true;
  max_idle_time = 30;
  sent = [];
  shut = [];
  notices = [];
}

abbrev pipe : Event
pipe = record { id = 9; fd = pos 4; event = no_flags }

-- A buffer, a list, ForceClose, and the list again.
abbrev calls : ℕ → Call
calls zero = send_buffer 100 5
calls (suc zero) = send_list 40
calls (suc (suc zero)) = force_close
calls (suc (suc (suc n))) = send_list 40

abbrev lists : ℕ → List Iovec
lists list = record { iov_base = 500; iov_len = 3 } ∷ []

abbrev answers : ℕ → Wrote
answers f = wrote 2

sends : AllSends calls lists answers (0 ∷ 1 ∷ [])
sends = (of_buffer 0 100 5 2 refl refl (omega arith) (omega arith), (of_list 1 40 refl, tt))

run_functions-call_all_example :
    let before = call_all calls lists answers pipe (0 ∷ 1 ∷ 2 ∷ 3 ∷ []) (new_loop, idle) in
    let after = run_functions calls lists answers before in
    (before.1 ≡ idle)
    × (stream after.1 ≡ stream idle ++ all_given calls lists answers (0 ∷ 1 ∷ []))
    × (after.1.closed ≡ true)
unfolding new_loop
run_functions-call_all_example =
    run_functions-call_all calls lists answers pipe (0 ∷ 1 ∷ []) (3 ∷ []) 2 new_loop idle refl refl
      sends refl
