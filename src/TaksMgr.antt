-- ===== src/TaksMgr.antt =====
-- base/TaksMgr.cc and base/Task.cc: the tasks of a manager and one look at them. A task is its number
-- with its times in milliseconds, which are int16_t; what a callback does is an argument: whether it
-- restarts its task, at the time that it reads.
pub mod Due
mod Tests
use wl_tmm.Prelude.{
  ℕ, ◌+◌, ◌-◌, ◌%◌, ◌^◌, List, [], ◌∷◌, ◌++◌, Bool, true, false, ◌==◌, not, ltb, if◌then◌else◌,
}
use wl_tmm.Prelude.Int.{ℤ, pos, negsuc, ltb_ℤ, ◌+ℤ◌}

pub record Task : Type 0 where
  pub id : ℕ
  pub interval : ℤ
  pub when : ℤ

-- An integer converted to int16_t.
abbrev pub of_bits : ℕ → ℤ
of_bits n = if ltb n (2 ^ 15) then pos n else negsuc (2 ^ 16 - 1 - n)

abbrev pub to_int16 : ℤ → ℤ
to_int16 (pos n) = of_bits (n % 2 ^ 16)
to_int16 (negsuc n) = of_bits (2 ^ 16 - 1 - n % 2 ^ 16)

-- The constructor: the interval is narrowed after the sum.
unfoldable pub new_task : ℕ → ℤ → ℤ → Task
new_task id now interval = record {
  id = id;
  interval = to_int16 interval;
  when = to_int16 (now +ℤ interval);
}

unfoldable pub restart : ℤ → Task → Task
restart now t = record t { when = to_int16 (t.interval +ℤ now) }

unfoldable pub contains_task : ℕ → List Task → Bool
contains_task id [] = false
contains_task id (t ∷ ts) = if t.id == id then true else contains_task id ts

unfoldable pub add : Task → List Task → Bool × List Task
add t ts = if contains_task t.id ts then (false, ts) else (true, t ∷ ts)

unfoldable pub del : ℕ → List Task → Bool × List Task
del id [] = (true, [])
del id (t ∷ ts) = let (ok, rest) = del id ts in if t.id == id then (true, ts) else (true, t ∷ rest)

module _ (restarts : ℕ → Bool) (reads : ℕ → ℤ) where
  -- A run of a task's callback.
  unfoldable pub run : Task → Task
  run t = if restarts t.id then restart (reads t.id) t else t

  -- `OnWork`: the numbers of the tasks that ran, and the tasks that stay.
  unfoldable pub on_work : ℤ → List Task → List ℕ × List Task
  on_work now [] = ([], [])
  on_work now (t ∷ ts) =
      let (ran, stay) = on_work now ts in
      if ltb_ℤ t.when now
      then if ltb_ℤ (run t).when now then (t.id ∷ ran, stay) else (t.id ∷ ran, run t ∷ stay)
      else (ran, t ∷ stay)
