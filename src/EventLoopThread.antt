-- ===== src/EventLoopThread.antt =====
-- network/net/EventLoopThread.cc: the thread of a loop, and the thread that starts it, asks for its
-- loop and destroys the object. A step is what one of them does between two points at which the other
-- may run; the state has both positions, the holder of lock_, and the members that they share. A
-- wake-up without a notification finds running_ false, or the lock held, and waits again; it is left
-- out.
pub mod Handover
pub mod Return
pub mod Destroy
mod Tests
use wl_tmm.Prelude.{◌≡◌, Bool, true, false}

-- Where StartEventLoop is: before the lock, in the wait, woken by a notification and without the lock,
-- behind the wait, with loop_ set, with the promise kept, in Loop, behind it, and at its end. It holds
-- the lock from behind the wait to its end.
pub data LoopThread : Type 0 where
  fresh waiting notified woken published promised in_loop left ended : LoopThread

-- Where the other thread is: before Run, in it with the lock and running_ set, then with the others
-- notified, at the future, behind Run, in the destructor before Quit and at the join, and behind it.
pub data Owner : Type 0 where
  idle asking announced awaiting returned quitting joining destroyed : Owner

pub data Holder : Type 0 where
  free by_thread by_owner : Holder

-- `loop_set` is whether loop_ is not null, and `looping` is the member of the loop.
pub record EventLoopThread : Type 0 where
  pub thread : LoopThread
  pub owner : Owner
  pub lock : Holder
  pub running : Bool
  pub loop_set : Bool
  pub promise_kept : Bool
  pub looping : Bool

abbrev pub new_thread : EventLoopThread
new_thread = record {
  thread = fresh;
  owner = idle;
  lock = free;
  running = false;
  loop_set = false;
  promise_kept = false;
  looping = false;
}

-- `notify_all` wakes the thread if it waits.
abbrev pub notify : LoopThread → LoopThread
notify waiting = notified
notify p = p

infix 40 ◌⟶◌ ◌⟶*◌
pub data ◌⟶◌ : EventLoopThread → EventLoopThread → Type 0 where
  -- StartEventLoop, lines 37 to 44, and the start and the end of EventLoop::Loop. The wait gives the
  -- lock back.
  wait :
      {s : EventLoopThread}
      → s.thread ≡ fresh
      → s.lock ≡ free
      → s.running ≡ false
      → s ⟶ record s { thread = waiting }
  pass :
      {s : EventLoopThread}
      → s.thread ≡ fresh
      → s.lock ≡ free
      → s.running ≡ true
      → s ⟶ record s { thread = woken; lock = by_thread }
  wake :
      {s : EventLoopThread}
      → s.thread ≡ notified
      → s.lock ≡ free
      → s.running ≡ true
      → s ⟶ record s { thread = woken; lock = by_thread }
  wait_again :
      {s : EventLoopThread}
      → s.thread ≡ notified
      → s.lock ≡ free
      → s.running ≡ false
      → s ⟶ record s { thread = waiting }
  publish :
      {s : EventLoopThread}
      → s.thread ≡ woken
      → s ⟶ record s { thread = published; loop_set = true }
  set_value :
      {s : EventLoopThread}
      → s.thread ≡ published
      → s ⟶ record s { thread = promised; promise_kept = true }
  enter :
      {s : EventLoopThread}
      → s.thread ≡ promised
      → s ⟶ record s { thread = in_loop; looping = true }
  leave :
      {s : EventLoopThread}
      → s.thread ≡ in_loop
      → s.looping ≡ false
      → s ⟶ record s { thread = left }
  finish :
      {s : EventLoopThread}
      → s.thread ≡ left
      → s ⟶ record s { thread = ended; loop_set = false; lock = free }
  -- Run, lines 23 to 28.
  start :
      {s : EventLoopThread}
      → s.owner ≡ idle
      → s.lock ≡ free
      → s ⟶ record s { owner = asking; lock = by_owner; running = true }
  announce :
      {s : EventLoopThread}
      → s.owner ≡ asking
      → s ⟶ record s { owner = announced; thread = notify s.thread }
  unlock :
      {s : EventLoopThread} → s.owner ≡ announced → s ⟶ record s { owner = awaiting; lock = free }
  get :
      {s : EventLoopThread}
      → s.owner ≡ awaiting
      → s.promise_kept ≡ true
      → s ⟶ record s { owner = returned }
  -- The destructor, lines 9 to 16.
  find_loop :
      {s : EventLoopThread}
      → s.owner ≡ returned
      → s.loop_set ≡ true
      → s ⟶ record s { owner = quitting }
  find_none :
      {s : EventLoopThread}
      → s.owner ≡ returned
      → s.loop_set ≡ false
      → s ⟶ record s { owner = joining }
  quit :
      {s : EventLoopThread} → s.owner ≡ quitting → s ⟶ record s { owner = joining; looping = false }
  join :
      {s : EventLoopThread}
      → s.owner ≡ joining
      → s.thread ≡ ended
      → s ⟶ record s { owner = destroyed }

pub data ◌⟶*◌ : EventLoopThread → EventLoopThread → Type 0 where
  here : {s : EventLoopThread} → s ⟶* s
  next : {s t u : EventLoopThread} → s ⟶ t → t ⟶* u → s ⟶* u
