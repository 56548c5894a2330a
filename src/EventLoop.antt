-- ===== src/EventLoop.antt =====
-- network/net/EventLoop.cc, Event.cc and PipeEvent.cc: the registered events, the calls of
-- epoll_ctl, the queue of functions from other threads and the pipe that wakes the loop.
-- An event object is a value with its number, its descriptor and its mask; a function in the queue
-- is a number. What the system calls give is an argument.
pub mod Dispatch
pub mod Interest
pub mod Pipe
pub mod Queue
pub mod Registered
pub mod Timers
mod Tests
use wl_tmm.Prelude.{
  ℕ, ◌+◌, ◌^◌, Option, none, some, List, [], ◌∷◌, ◌++◌, Bool, true, false, ◌&&◌, ◌||◌, not,
  if◌then◌else◌,
}
use wl_tmm.Prelude.Int.{ℤ, pos, negsuc, ltb_ℤ}
use wl_tmm.Prelude.Maps.{Eq, int_eq, lookup, insert, erase}

-- The flags of an epoll mask: EPOLLIN, EPOLLPRI, EPOLLOUT, EPOLLERR, EPOLLHUP and EPOLLET.
pub record Mask : Type 0 where
  pub input : Bool
  pub urgent : Bool
  pub output : Bool
  pub error : Bool
  pub hang_up : Bool
  pub edge : Bool

abbrev pub no_flags : Mask
no_flags = record {
  input = false;
  urgent = false;
  output = false;
  error = false;
  hang_up = false;
  edge = false;
}

-- EPOLLIN | EPOLLPRI | EPOLLET.
abbrev pub event_read : Mask
event_read = record {
  input = true;
  urgent = true;
  output = false;
  error = false;
  hang_up = false;
  edge = true;
}

-- EPOLLOUT | EPOLLET.
abbrev pub event_write : Mask
event_write = record {
  input = false;
  urgent = false;
  output = true;
  error = false;
  hang_up = false;
  edge = true;
}

-- `a | b`.
abbrev pub mask_or : Mask → Mask → Mask
mask_or a b = record {
  input = a.input || b.input;
  urgent = a.urgent || b.urgent;
  output = a.output || b.output;
  error = a.error || b.error;
  hang_up = a.hang_up || b.hang_up;
  edge = a.edge || b.edge;
}

-- `a & ~b`.
abbrev pub mask_without : Mask → Mask → Mask
mask_without a b = record {
  input = a.input && not b.input;
  urgent = a.urgent && not b.urgent;
  output = a.output && not b.output;
  error = a.error && not b.error;
  hang_up = a.hang_up && not b.hang_up;
  edge = a.edge && not b.edge;
}

-- `Event`: `id` is the object's identity, `fd` is -1 while there is no descriptor.
pub record Event : Type 0 where
  pub id : ℕ
  pub fd : ℤ
  pub event : Mask

-- `Event::Close`: the object, and the descriptor that is closed.
unfoldable pub close_event : Event → Event × Option ℤ
close_event e = if ltb_ℤ (pos 0) e.fd then (record e { fd = negsuc 0 }, some e.fd) else (e, none)

-- A call of epoll_ctl.
pub data Ctl : Type 0 where
  ctl_add : ℤ → Mask → Ctl
  ctl_mod : ℤ → Mask → Ctl
  ctl_del : ℤ → Ctl

-- `events` maps a descriptor to the number of its object; `calls` are those of epoll_ctl so far;
-- `wakes` counts the words written to the pipe.
pub record EventLoop : Type 0 where
  pub looping : Bool
  pub events : List (ℤ × ℕ)
  pub functions : List ℕ
  pub pipe_event : Option Event
  pub calls : List Ctl
  pub wakes : ℕ

unfoldable pub new_loop : EventLoop
new_loop = record {
  looping = false;
  events = [];
  functions = [];
  pipe_event = none;
  calls = [];
  wakes = 0;
}

unfoldable pub quit : EventLoop → EventLoop
quit l = record l { looping = false }

unfoldable pub add_event : EventLoop → Event → EventLoop × Event
add_event l e = elim (lookup e.fd l.events) [
  | some other ↦ (l, e)
  | none ↦
      let mask = mask_or e.event event_read in
      (
        record l { events = insert e.fd e.id l.events; calls = l.calls ++ ctl_add e.fd mask ∷ [] },
        record e { event = mask },
      )
]

unfoldable pub del_event : EventLoop → Event → EventLoop
del_event l e = elim (lookup e.fd l.events) [
  | none ↦ l
  | some other ↦ record l { events = erase e.fd l.events; calls = l.calls ++ ctl_del e.fd ∷ [] }
]

unfoldable pub enable_event_writing : EventLoop → Event → Bool → EventLoop × Event × Bool
enable_event_writing l e enable = elim (lookup e.fd l.events) [
  | none ↦ (l, e, false)
  | some other ↦
      let mask = if enable then mask_or e.event event_write else mask_without e.event event_write in
      (record l { calls = l.calls ++ ctl_mod e.fd mask ∷ [] }, record e { event = mask }, true)
]

unfoldable pub enable_event_reading : EventLoop → Event → Bool → EventLoop × Event × Bool
enable_event_reading l e enable = elim (lookup e.fd l.events) [
  | none ↦ (l, e, false)
  | some other ↦
      let mask = if enable then mask_or e.event event_read else mask_without e.event event_read in
      (record l { calls = l.calls ++ ctl_mod e.fd mask ∷ [] }, record e { event = mask }, true)
]

-- `WakeUp`: `made` is the event that a new PipeEvent would be. The word is written in any case.
unfoldable pub wake_up : EventLoop → Event → EventLoop
wake_up l made = elim l.pipe_event [
  | some old ↦ record l { wakes = l.wakes + 1 }
  | none ↦
      let (l', e) = add_event (record l { pipe_event = some made }) made in
      record l' { pipe_event = some e; wakes = l'.wakes + 1 }
]
