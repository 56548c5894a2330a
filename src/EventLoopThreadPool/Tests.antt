-- ===== src/EventLoopThreadPool/Tests.antt =====
-- A pool of three threads, for network/net/EventLoopThreadPool.cc.
use wl_tmm.Prelude.{ℕ, ◌%◌, ◌≡◌, some, [], ◌∷◌, get_elem?, arith}
use wl_tmm.EventLoopThreadPool.{EventLoopThreadPool, get_next_loop}
use wl_tmm.EventLoopThreadPool.Turns.{after_calls, get_next_loop-turns}

abbrev three : EventLoopThreadPool
three = record { threads = 10 ∷ 20 ∷ 30 ∷ []; loop_index = 0 }

-- The fifth call gives the second loop.
second_loop :
    (x : ℕ) × ((get_next_loop (after_calls 4 three)).0 ≡ some x)
    × (get_elem? three.threads (4 % 3) ≡ some x)
second_loop = get_next_loop-turns 4 three (omega arith) (omega arith)
