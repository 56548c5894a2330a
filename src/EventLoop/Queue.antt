-- ===== src/EventLoop/Queue.antt =====
-- Functions for the loop's thread: network/net/EventLoop.cc, lines 187 to 237. The mutex is held
-- while a function is queued, and while the whole queue is run: the queue grows between runs only.
use mathlib.Core.Path.{ap₂}
use wl_tmm.Prelude.{
  ℕ, ◌≡◌, refl, sym, ap, ◌∙◌, List, [], ◌∷◌, ◌++◌, Bool, false, arith, append_assoc, append-nil,
  if◌then◌else◌,
}
use wl_tmm.EventLoop.{EventLoop, Event, add_event, wake_up}

module _ {ℓ} {S : Type ℓ} (run : ℕ → S → S) where
  -- `RunInLoop`: on the loop's own thread the function runs at once.
  unfoldable pub run_in_loop : Bool → Event → ℕ → EventLoop × S → EventLoop × S
  run_in_loop in_loop_thread made f (l, s) =
      if in_loop_thread
      then (l, run f s)
      else (wake_up (record l { functions = l.functions ++ f ∷ [] }) made, s)

  unfoldable pub run_all : List ℕ → S → S
  run_all [] s = s
  run_all (f ∷ fs) s = run_all fs (run f s)

  -- `RunFunctions`.
  unfoldable pub run_functions : EventLoop × S → EventLoop × S
  run_functions (l, s) = (record l { functions = [] }, run_all l.functions s)

  -- Functions posted by other threads, in the order in which they got the mutex.
  unfoldable pub post_all : Event → List ℕ → EventLoop × S → EventLoop × S
  post_all made [] x = x
  post_all made (f ∷ fs) x = post_all made fs (run_in_loop false made f x)

  wake_up-functions : (l : EventLoop) (made : Event) → (wake_up l made).functions ≡ l.functions
  unfolding wake_up add_event
  wake_up-functions l made = ground arith

  post_all-functions :
      (made : Event) (fs : List ℕ) (l : EventLoop) (s : S)
      → ((post_all made fs (l, s)).0.functions ≡ l.functions ++ fs)
        × ((post_all made fs (l, s)).1 ≡ s)
  unfolding post_all run_in_loop
  post_all-functions made [] l s = (sym (append-nil l.functions), refl)
  post_all-functions made (f ∷ fs) l s =
      let l' : EventLoop = wake_up (record l { functions = l.functions ++ f ∷ [] }) made in
      let (queued, same) = post_all-functions made fs l' s in
      (
        queued
            ∙ ap (λ q. q ++ fs)
                (wake_up-functions (record l { functions = l.functions ++ f ∷ [] }) made)
            ∙ append_assoc l.functions (f ∷ []) fs,
        same,
      )

  -- Functions that other threads post run at the next RunFunctions, each once, behind what was
  -- queued and in the order of the posts, and leave the queue empty.
  pub run_functions-post_all :
      (made : Event) (fs : List ℕ) (l : EventLoop) (s : S)
      → let after = run_functions (post_all made fs (l, s)) in
        (after.1 ≡ run_all (l.functions ++ fs) s) × (after.0.functions ≡ [])
  unfolding run_functions
  run_functions-post_all made fs l s =
      let (queued, same) = post_all-functions made fs l s in (ap₂ run_all queued same, refl)
