-- ===== src/EventLoopThreadPool.antt =====
-- network/net/EventLoopThreadPool.cc: the loops in turn. A loop is a number, and `loop_index` the bit
-- pattern of an int32_t.
pub mod Turns
mod Tests
use wl_tmm.Prelude.{
  ℕ, zero, suc, ◌+◌, ◌%◌, ◌^◌, ◌==◌, Option, none, some, List, [], ◌∷◌, get_elem?, length,
  replicate, if◌then◌else◌, ltb,
}
use wl_tmm.TestContext.{int32_to_size}

pub record EventLoopThreadPool : Type 0 where
  pub threads : List ℕ
  pub loop_index : ℕ

abbrev from_first : ℕ → ℕ → List ℕ
from_first first zero = []
from_first first (suc n) = first ∷ from_first (suc first) n

-- The constructor, for a number of threads that is not negative.
unfoldable pub new_pool : ℕ → EventLoopThreadPool
new_pool thread_num = record {
  threads = from_first 0 (if thread_num == 0 then 1 else thread_num);
  loop_index = 0;
}

unfoldable pub get_loops : EventLoopThreadPool → List ℕ
get_loops p = p.threads

unfoldable pub size : EventLoopThreadPool → ℕ
size p = length p.threads

-- `GetNextLoop`: with no thread, the remainder by 0 is undefined.
unfoldable pub get_next_loop : EventLoopThreadPool → Option ℕ × EventLoopThreadPool
get_next_loop p = (
  if length p.threads == 0
      then none
      else get_elem? p.threads (int32_to_size p.loop_index % length p.threads),
  record p { loop_index = (p.loop_index + 1) % 2 ^ 32 },
)
