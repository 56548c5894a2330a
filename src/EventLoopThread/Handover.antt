-- ===== src/EventLoopThread/Handover.antt =====
-- That Run hands over a loop: network/net/EventLoopThread.cc, lines 18 to 45.
use wl_tmm.Prelude.{◌≡◌, ◌⊎◌, Bool, true, false, if◌then◌else◌, arith}
use wl_tmm.EventLoopThread.{
  LoopThread, fresh, waiting, notified, published, promised, in_loop, left, ended, Owner, idle,
  asking, announced, awaiting, joining, destroyed, free, by_thread, by_owner, EventLoopThread,
  new_thread, ◌⟶◌, ◌⟶*◌, wait, pass, wake, wait_again, publish, set_value, enter, leave, finish,
  start, announce, unlock, get, find_loop, find_none, quit, join, here, next,
}

-- The positions at which loop_ is set, the promise is kept, and Loop has ended.
abbrev has_loop : LoopThread → Bool
has_loop published = true
has_loop promised = true
has_loop in_loop = true
has_loop left = true
has_loop _ = false

abbrev pub has_promise : LoopThread → Bool
has_promise promised = true
has_promise in_loop = true
has_promise left = true
has_promise ended = true
has_promise _ = false

abbrev is_over : LoopThread → Bool
is_over left = true
is_over ended = true
is_over _ = false

-- The positions of the owner behind Run, and behind Quit.
abbrev pub has_run : Owner → Bool
has_run idle = false
has_run asking = false
has_run announced = false
has_run awaiting = false
has_run _ = true

abbrev has_quit : Owner → Bool
has_quit joining = true
has_quit destroyed = true
has_quit _ = false

-- Who has the lock: the owner in Run, up to the notification, and the thread from behind the wait.
abbrev pub owner_locks : Owner → Bool
owner_locks asking = true
owner_locks announced = true
owner_locks _ = false

abbrev pub thread_locks : LoopThread → Bool
thread_locks fresh = false
thread_locks waiting = false
thread_locks notified = false
thread_locks ended = false
thread_locks _ = true

-- The owner is before the notification, and the thread has not been woken by it.
abbrev pub may_wait : Owner → Bool
may_wait idle = true
may_wait asking = true
may_wait _ = false

pub record IsConsistent (s : EventLoopThread) : Type 0 where
  pub loop : s.loop_set ≡ has_loop s.thread
  pub promise : s.promise_kept ≡ has_promise s.thread
  pub ask : s.owner ≡ idle ⊎ (s.running ≡ true)
  pub run : has_run s.owner ≡ true → s.promise_kept ≡ true
  pub over : is_over s.thread ≡ true → has_quit s.owner ≡ true
  pub holder : s.lock ≡ (
      if owner_locks s.owner then by_owner else if thread_locks s.thread then by_thread else free)
  pub one_holder : owner_locks s.owner ≡ true → thread_locks s.thread ≡ false
  pub begun : thread_locks s.thread ≡ true → s.running ≡ true
  pub unasked : s.owner ≡ idle → s.running ≡ false
  pub asleep : s.thread ≡ waiting → may_wait s.owner ≡ true
  pub roused : s.thread ≡ notified → s.running ≡ true
  pub flag : s.thread ≡ in_loop → s.looping ≡ false → has_quit s.owner ≡ true

pub new_thread-IsConsistent : IsConsistent new_thread
new_thread-IsConsistent = ground arith

pub step-IsConsistent : {s t : EventLoopThread} → s ⟶ t → IsConsistent s → IsConsistent t
step-IsConsistent (wait at unheld off) c = ground arith
step-IsConsistent (pass at unheld on) c = ground arith
step-IsConsistent (wake at unheld on) c = ground arith
step-IsConsistent (wait_again at unheld off) c = ground arith
step-IsConsistent (publish at) c = ground arith
step-IsConsistent (set_value at) c = ground arith
step-IsConsistent (enter at) c = ground arith
step-IsConsistent (leave at off) c = ground arith
step-IsConsistent (finish at) c = ground arith
step-IsConsistent (start at unheld) c = ground arith
step-IsConsistent (announce at) c = ground arith
step-IsConsistent (unlock at) c = ground arith
step-IsConsistent (get at kept) c = ground arith
step-IsConsistent (find_loop at set) c = ground arith
step-IsConsistent (find_none at null) c = ground arith
step-IsConsistent (quit at) c = ground arith
step-IsConsistent (join at end) c = ground arith

pub steps-IsConsistent : {s t : EventLoopThread} → s ⟶* t → IsConsistent s → IsConsistent t
steps-IsConsistent here c = c
steps-IsConsistent (next step rest) c = steps-IsConsistent rest (step-IsConsistent step c)

-- In every order of the two threads, from the end of Run until the destructor has called Quit,
-- loop_ is not null.
pub steps-loop_set :
    {s : EventLoopThread}
    → new_thread ⟶* s
    → has_run s.owner ≡ true
    → has_quit s.owner ≡ false
    → s.loop_set ≡ true
steps-loop_set r run unquit =
    let c = steps-IsConsistent r new_thread-IsConsistent in
    ground (arith, c.loop, c.promise, c.run, c.over)
