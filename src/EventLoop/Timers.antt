-- ===== src/EventLoop/Timers.antt =====
-- Timers of a loop: network/net/EventLoop.cc, lines 10 to 25, 175 to 186 and 239 to 298, on top of
-- network/net/TimingWheel.cc. A function in the queue is a number, and `timers` says which timer it
-- puts into the wheels.
use wl_tmm.Prelude.{
  ℕ, ◌≡◌, refl, sym, ap, ◌∙◌, Option, none, some, List, [], ◌∷◌, ◌++◌, Bool, true, false, ◌==◌,
  if◌then◌else◌,
}
use wl_tmm.TimingWheel.{
  TimingWheel, Entry, Effect, done, undefined, and_then, stored, refused, invalid, insert_entry,
}
use wl_tmm.TimingWheel.Turn.{run_after, run_every}
use wl_tmm.EventLoop.{EventLoop, Event}
use wl_tmm.EventLoop.Queue.{run_in_loop, run_functions, run_all, post_all, run_functions-post_all}

-- `t_local_eventloop` of a thread: a loop, or none. The constructor ends the process when there is one.
unfoldable pub construct_loop : ℕ → Option ℕ → Option (Option ℕ)
construct_loop loop none = some (some loop)
construct_loop loop (some other) = none

-- The destructor leaves the variable as it is.
unfoldable pub destroy_loop : Option ℕ → Option ℕ
destroy_loop t_local = t_local

unfoldable pub is_in_loop_thread : ℕ → Option ℕ → Bool
is_in_loop_thread loop none = false
is_in_loop_thread loop (some other) = other == loop

-- `AssertInLoopThread`: `none` is the end of the process.
unfoldable pub assert_in_loop_thread : ℕ → Option ℕ → Option (Unit {0})
assert_in_loop_thread loop t_local = if is_in_loop_thread loop t_local then some tt else none

-- A call of InsertEntry, RunAfter or RunEvery.
pub data Timer : Type 0 where
  entry : ℕ → Entry → Timer
  after : ℕ → ℕ → Timer
  repeating : ℕ → ℕ → Timer

-- The call on the wheels. An entry that is refused is left to the caller's reference.
unfoldable pub put_timer : Timer → TimingWheel → Effect
put_timer (entry delay e) w = elim (insert_entry w delay e) [
  | stored w' ↦ done w' []
  | refused ↦ done w []
  | invalid ↦ undefined
]
put_timer (after delay cb) w = run_after w delay cb
put_timer (repeating interval cb) w = run_every w interval cb

module _ (timers : ℕ → Timer) where
  unfoldable pub run_timer : ℕ → Effect → Effect
  run_timer f x = and_then x (put_timer (timers f))

  -- `InsertEntry`, `RunAfter` and `RunEvery` of the loop, by the number of the function.
  unfoldable pub schedule : Bool → Event → ℕ → EventLoop × Effect → EventLoop × Effect
  schedule in_loop_thread made f (l, x) =
      if in_loop_thread
      then (l, run_timer f x)
      else run_in_loop run_timer in_loop_thread made f (l, x)

  unfoldable pub schedule_all : Bool → Event → List ℕ → EventLoop × Effect → EventLoop × Effect
  schedule_all in_loop_thread made [] x = x
  schedule_all in_loop_thread made (f ∷ fs) x =
      schedule_all in_loop_thread made fs (schedule in_loop_thread made f x)

  schedule_all-posted :
      (made : Event) (fs : List ℕ) (x : EventLoop × Effect)
      → schedule_all false made fs x ≡ post_all run_timer made fs x
  unfolding schedule_all schedule post_all
  schedule_all-posted made [] x = refl
  schedule_all-posted made (f ∷ fs) x =
      schedule_all-posted made fs (run_in_loop run_timer false made f x)

  schedule_all-direct :
      (made : Event) (fs : List ℕ) (l : EventLoop) (x : Effect)
      → schedule_all true made fs (l, x) ≡ (l, run_all run_timer fs x)
  unfolding schedule_all schedule run_all
  schedule_all-direct made [] l x = refl
  schedule_all-direct made (f ∷ fs) l x = schedule_all-direct made fs l (run_timer f x)

  -- Timers that another thread asks for, while the queue is empty, are after the next RunFunctions
  -- in the wheels as if the thread of the loop had put them there in the same order, with the same
  -- effects.
  pub run_functions-schedule_all :
      (made : Event) (fs : List ℕ) (l : EventLoop) (x : Effect)
      → l.functions ≡ []
      → (run_functions run_timer (schedule_all false made fs (l, x))).1
        ≡ (schedule_all true made fs (l, x)).1
  run_functions-schedule_all made fs l x nothing =
      ap (λ y. (run_functions run_timer y).1) (schedule_all-posted made fs (l, x))
      ∙ (run_functions-post_all run_timer made fs l x).0
      ∙ ap (λ q. run_all run_timer (q ++ fs) x) nothing
      ∙ ap (λ y. y.1) (sym (schedule_all-direct made fs l x))
