-- ===== src/Connection/Activation.antt =====
-- How often the callback of `Active` runs: network/net/Connection.cc, lines 50 to 65.
use wl_tmm.Prelude.{
  ℕ, ◌+◌, ◌≡◌, refl, [], zero, suc, Bool, true, false, arith, ==_iff, replicate, ap, ◌++◌, ◌∙◌, ◌∷◌,
}
use wl_tmm.EventLoop.{EventLoop, Event, wake_up}
use wl_tmm.EventLoop.Queue.{run_in_loop, run_functions, run_all, post_all, run_functions-post_all}
use wl_tmm.Connection.{Connection, activate_in_loop, activate, run_active}

module _ {ℓ} {C : Type ℓ} (fn : ℕ) where
  -- `Active`, called a number of times from another thread.
  unfoldable pub activate_times : Event → ℕ → EventLoop × Connection C → EventLoop × Connection C
  activate_times made zero x = x
  activate_times made (suc n) x = activate_times made n (activate_in_loop fn false made x)

  activate_times-post_all :
      (made : Event) (n : ℕ) (l : EventLoop) (c : Connection C)
      → c.active ≡ false
      → activate_times made n (l, c) ≡ post_all (run_active fn) made (replicate n fn) (l, c)
  unfolding activate_times post_all activate_in_loop run_in_loop
  activate_times-post_all made zero l c idle = refl
  activate_times-post_all made (suc n) l c idle =
      let l' : EventLoop = wake_up (record l { functions = l.functions ++ fn ∷ [] }) made in
      let asked : activate_in_loop fn false made (l, c) ≡ (l', c) = ground (arith, idle) in
      ap (activate_times made n) asked ∙ activate_times-post_all made n l' c idle

  run_active_lem : (c : Connection C) → run_active fn fn c ≡ activate c
  unfolding run_active
  run_active_lem c = ground (arith, ==_iff fn fn)

  run_all-replicate :
      (n : ℕ) (c : Connection C)
      → c.has_active_cb ≡ true
      → ((run_all (run_active fn) (replicate n fn) c).called ≡ c.called + n)
        × ((run_all (run_active fn) (replicate (suc n) fn) c).active ≡ true)
  unfolding run_all activate
  run_all-replicate zero c set = ground (arith, run_active_lem c)
  run_all-replicate (suc n) c set =
      ground (arith, run_active_lem c, set, run_all-replicate n (activate c) set)

  -- Calls of Active from another thread on an idle connection with a callback, while the queue is
  -- empty, call the callback once each at the next RunFunctions, and leave the connection active.
  pub run_functions-activate_times :
      (made : Event) (n : ℕ) (l : EventLoop) (c : Connection C)
      → l.functions ≡ []
      → c.has_active_cb ≡ true
      → c.active ≡ false
      → let after = run_functions (run_active fn) (activate_times made (suc n) (l, c)) in
        (after.1.called ≡ c.called + suc n) × (after.1.active ≡ true)
  run_functions-activate_times made n l c nothing set idle =
      let posted = activate_times-post_all made (suc n) l c idle in
      let ran = run_functions-post_all (run_active fn) made (replicate (suc n) fn) l c in
      let turn = ap (run_functions (run_active fn)) posted in
      let end : (run_functions (run_active fn) (activate_times made (suc n) (l, c))).1
          ≡ run_all (run_active fn) (replicate (suc n) fn) c =
        ap (λ x. x.1) turn
        ∙ ran.0
        ∙ ap (λ q. run_all (run_active fn) (q ++ replicate (suc n) fn) c) nothing in
      (
        ap (λ x. x.called) end ∙ (run_all-replicate (suc n) c set).0,
        ap (λ x. x.active) end ∙ (run_all-replicate n c set).1,
      )

  -- An active connection is left alone.
  pub activate_in_loop-active :
      (in_loop : Bool) (made : Event) (l : EventLoop) (c : Connection C)
      → c.active ≡ true
      → activate_in_loop fn in_loop made (l, c) ≡ (l, c)
  unfolding activate_in_loop
  activate_in_loop-active in_loop made l c on = ground (arith, on)
