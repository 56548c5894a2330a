-- ===== src/EventLoopThread/Tests.antt =====
-- Some orders of the two threads.
use wl_tmm.Prelude.{◌≡◌, refl, true, false}
use wl_tmm.EventLoopThread.{
  notified, promised, in_loop, announced, returned, joining, by_thread, by_owner, EventLoopThread,
  new_thread, ◌⟶*◌, wait, wake, publish, set_value, enter, start, announce, unlock, get, find_loop,
  quit, here, next,
}
use wl_tmm.EventLoopThread.Handover.{steps-loop_set}
use wl_tmm.EventLoopThread.Destroy.{steps-joining}

-- Run has notified the thread and has the lock still.
abbrev asked : EventLoopThread
asked = record new_thread { thread = notified; owner = announced; lock = by_owner; running = true }

abbrev handed_over : EventLoopThread
handed_over = record {
  thread = promised;
  owner = returned;
  lock = by_thread;
  running = true;
  loop_set = true;
  promise_kept = true;
  looping = false;
}

handed_over_steps : new_thread ⟶* handed_over
handed_over_steps = next (wait refl refl refl) (
    next (start refl refl) (
      next (announce refl) (
        next (unlock refl) (
          next (wake refl refl refl)
            (next (publish refl) (next (set_value refl) (next (get refl refl) here)))))))

steps-loop_set_example : handed_over.loop_set ≡ true
steps-loop_set_example = steps-loop_set handed_over_steps refl refl

-- The destructor quits a loop that has not begun.
abbrev quit_early : EventLoopThread
quit_early = record handed_over { owner = joining }

quit_early_steps : handed_over ⟶* quit_early
quit_early_steps = next (find_loop refl refl) (next (quit refl) here)

abbrev endless : EventLoopThread
endless = record quit_early { thread = in_loop; looping = true }

endless_steps : quit_early ⟶* endless
endless_steps = next (enter refl) here

steps-joining_example : endless.owner ≡ joining
steps-joining_example = steps-joining {s = quit_early} refl refl endless_steps
