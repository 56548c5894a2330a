-- ===== src/EventLoopThread/Destroy.antt =====
-- The destructor: network/net/EventLoopThread.cc, lines 6 to 17, and EventLoop::Loop, which sets looping_
-- when it begins: network/net/EventLoop.cc, line 29.
use wl_tmm.Prelude.{◌≡◌, ◌⊎◌, inl, true, arith}
use wl_tmm.EventLoopThread.{
  promised, in_loop, joining, EventLoopThread, ◌⟶◌, ◌⟶*◌, wait, pass, wake, wait_again, announce,
  unlock, publish, set_value, enter, leave, finish, start, get, find_loop, find_none, quit, join,
  here, next,
}

-- The owner waits for the thread, which has not begun its loop, or runs it with the flag set.
pub record IsLost (s : EventLoopThread) : Type 0 where
  pub waits : s.owner ≡ joining
  pub runs : (s.thread ≡ promised) ⊎ ((s.thread ≡ in_loop) × (s.looping ≡ true))

step-IsLost : {s t : EventLoopThread} → s ⟶ t → IsLost s → IsLost t
step-IsLost (wait at unheld off) c = ground arith
step-IsLost (pass at unheld on) c = ground arith
step-IsLost (wake at unheld on) c = ground arith
step-IsLost (wait_again at unheld off) c = ground arith
step-IsLost (publish at) c = ground arith
step-IsLost (set_value at) c = ground arith
step-IsLost (enter at) c = ground arith
step-IsLost (leave at off) c = ground arith
step-IsLost (finish at) c = ground arith
step-IsLost (start at unheld) c = ground arith
step-IsLost (announce at) c = ground arith
step-IsLost (unlock at) c = ground arith
step-IsLost (get at kept) c = ground arith
step-IsLost (find_loop at set) c = ground arith
step-IsLost (find_none at null) c = ground arith
step-IsLost (quit at) c = ground arith
step-IsLost (join at end) c = ground arith

steps-IsLost : {s t : EventLoopThread} → s ⟶* t → IsLost s → IsLost t
steps-IsLost here c = c
steps-IsLost (next step rest) c = steps-IsLost rest (step-IsLost step c)

-- If the destructor calls Quit before the thread, which has kept its promise, enters Loop, it
-- waits at the join after any further steps.
pub steps-joining :
    {s t : EventLoopThread} → s.thread ≡ promised → s.owner ≡ joining → s ⟶* t → t.owner ≡ joining
steps-joining at waits r = (steps-IsLost r (record { waits = waits; runs = inl at })).waits
