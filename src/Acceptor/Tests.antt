-- ===== src/Acceptor/Tests.antt =====
-- A listening socket that failed, for the theorem about network/net/Acceptor.cc.
use wl_tmm.Prelude.{refl, [], ◌∷◌, Bool, true, false, inr}
use wl_tmm.Prelude.Int.{ℤ, pos, negsuc}
use wl_tmm.Prelude.Maps.{int_eq, lookup, insert}
use wl_tmm.EventLoop.{EventLoop, Event, no_flags, new_loop, add_event, del_event, close_event}
use wl_tmm.Acceptor.{Acceptor, on_close, open_socket, stop}
use wl_tmm.Acceptor.Reopen.{Reopened, on_close-Reopened}

abbrev taken : ℤ → Bool
taken (pos n) = true
taken (negsuc n) = false

abbrev listening : Event
listening = record { id = 1; fd = pos 5; event = no_flags }

abbrev loop : EventLoop
loop = (add_event new_loop listening).0

abbrev acceptor : Acceptor
acceptor = record { event = (add_event new_loop listening).1; accepted = pos 7 ∷ []; shut = [] }

abbrev next_socket : Event
next_socket = record { id = 1; fd = pos 6; event = acceptor.event.event }

abbrev loop_again : EventLoop
loop_again = (add_event (del_event loop acceptor.event) next_socket).0

abbrev acceptor_again : Acceptor
acceptor_again = record acceptor {
  event = (add_event (del_event loop acceptor.event) next_socket).1;
  shut = pos 5 ∷ [];
}

on_close-Reopened_example : Reopened taken (pos 6) loop loop_again acceptor acceptor_again
unfolding on_close open_socket stop close_event new_loop add_event del_event lookup insert
on_close-Reopened_example =
    on_close-Reopened taken (pos 6) loop loop_again acceptor acceptor_again refl (inr refl) refl
