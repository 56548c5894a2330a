-- ===== src/EventLoop/Tests.antt =====
-- A loop with one registered descriptor, for the theorems about EventLoop.
use wl_tmm.TimingWheel.{done, new_wheel}
use wl_tmm.EventLoop.Pipe.{PipeEvent, turns, turns-pending}
use wl_tmm.EventLoop.Timers.{
  Timer, after, repeating, construct_loop, destroy_loop, run_timer, schedule_all,
  run_functions-schedule_all,
}
use wl_tmm.Prelude.{
  ℕ, none, ◌==◌, if◌then◌else◌, arith, ◌≡◌, refl, List, [], ◌∷◌, Bool, ◌&&◌, true, false, some,
}
use wl_tmm.Prelude.Int.{ℤ, pos, negsuc}
use wl_tmm.Prelude.Maps.{int_eq, lookup}
use wl_tmm.EventLoop.{
  Mask, event_write, mask_or, EventLoop, Event, event_read, no_flags, new_loop, add_event,
}
use wl_tmm.EventLoop.Interest.{
  is_some, interest, InStep, Op, add, writing, del, wake, steps, steps-InStep, new_loop-InStep,
  add_event-InStep,
}
use wl_tmm.EventLoop.Queue.{run_functions}

abbrev socket : Event
socket = record { id = 1; fd = pos 7; event = no_flags }

abbrev pipe : Event
pipe = record { id = 2; fd = pos 9; event = no_flags }

-- It has no descriptor.
abbrev no_socket : Event
no_socket = record { id = 3; fd = negsuc 0; event = no_flags }

abbrev some_ops : List Op
some_ops = add no_socket ∷ add socket ∷ wake pipe ∷ writing socket true ∷ del pipe ∷ []

abbrev watched : EventLoop
watched = (add_event new_loop socket).0

abbrev watched_socket : Event
watched_socket = (add_event new_loop socket).1

-- The descriptors that the kernel takes.
abbrev taken : ℤ → Bool
taken (pos n) = true
taken (negsuc n) = false

watched-InStep : InStep taken watched
watched-InStep = add_event-InStep taken new_loop socket (new_loop-InStep taken)

steps-InStep_example :
    is_some (lookup (negsuc 0) (interest taken (steps new_loop some_ops)))
    ≡ (taken (negsuc 0) && is_some (lookup (negsuc 0) (steps new_loop some_ops).events))
steps-InStep_example = steps-InStep taken some_ops new_loop (new_loop-InStep taken) (negsuc 0)

-- A descriptor that is readable and writable, with edges.
abbrev both_ways : Mask
both_ways = mask_or event_read event_write

-- A second loop on a thread ends the process, also when the first one is gone.
second_loop : construct_loop 2 (destroy_loop (some 1)) ≡ none
unfolding construct_loop destroy_loop
second_loop = refl

abbrev pipe_event : PipeEvent
pipe_event = record { event = pipe; write_fd = pos 10; pending = 0; shut = [] }

pipe_filled : (turns 65536 3 100 pipe_event).pending ≡ 1600
pipe_filled = turns-pending 65536 2 100 pipe_event (omega arith)

abbrev two_timers : ℕ → Timer
two_timers f = if f == 1 then after 5 1 else repeating 7 2

run_functions-schedule_all_example :
    (run_functions
      (run_timer two_timers)
      (schedule_all two_timers false pipe (1 ∷ 2 ∷ []) (new_loop, done new_wheel []))).1
    ≡ (schedule_all two_timers true pipe (1 ∷ 2 ∷ []) (new_loop, done new_wheel [])).1
unfolding new_loop
run_functions-schedule_all_example =
    run_functions-schedule_all two_timers pipe (1 ∷ 2 ∷ []) new_loop (done new_wheel []) refl
