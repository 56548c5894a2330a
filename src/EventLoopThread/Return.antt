-- ===== src/EventLoopThread/Return.antt =====
-- That Run returns: network/net/EventLoopThread.cc, lines 18 to 45.
use wl_tmm.Prelude.{ℕ, ◌+◌, ◌≡◌, true}
use wl_tmm.EventLoopThread.{
  LoopThread, fresh, waiting, notified, woken, published, promised, in_loop, left, ended, Owner,
  idle, asking, announced, awaiting, returned, quitting, joining, destroyed, EventLoopThread, ◌⟶◌,
}
use wl_tmm.EventLoopThread.Handover.{has_run}

-- However the two threads go on, Run returns: it has, or there is a step, and it does after each.
pub data Returns : EventLoopThread → Type 0 where
  has_returned : {s : EventLoopThread} → has_run s.owner ≡ true → Returns s
  goes_on :
      {s t : EventLoopThread} → s ⟶ t → ((u : EventLoopThread) → s ⟶ u → Returns u) → Returns s

-- How far the threads are from their ends.
abbrev thread_rank : LoopThread → ℕ
thread_rank fresh = 8
thread_rank waiting = 7
thread_rank notified = 6
thread_rank woken = 5
thread_rank published = 4
thread_rank promised = 3
thread_rank in_loop = 2
thread_rank left = 1
thread_rank ended = 0

abbrev owner_rank : Owner → ℕ
owner_rank idle = 7
owner_rank asking = 6
owner_rank announced = 5
owner_rank awaiting = 4
owner_rank returned = 3
owner_rank quitting = 2
owner_rank joining = 1
owner_rank destroyed = 0

abbrev rank : EventLoopThread → ℕ
rank s = thread_rank s.thread + owner_rank s.owner

abbrev CanGoOn : EventLoopThread → Type 0
CanGoOn s = (t : EventLoopThread) × (s ⟶ t)
