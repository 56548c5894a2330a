-- ===== src/EventLoop/Dispatch.antt =====
-- One turn of the loop: network/net/EventLoop.cc, lines 27 to 87. What epoll_wait gives, the handlers,
-- the queued functions and the timers are arguments; a handler may change the loop.
use wl_tmm.Prelude.{
  ℕ, ◌*◌, ◌≡◌, sym, ap, Option, none, some, List, [], ◌∷◌, ◌++◌, true, arith, ◌&&◌, ◌||◌, not, ◌==◌,
  append_assoc, append-nil, if◌then◌else◌, length, ◌↔◌, Option-cases, inl, inr,
}
use wl_tmm.Prelude.Int.{ℤ, pos, ltb_ℤ}
use wl_tmm.Prelude.Maps.{int_eq, lookup}
use wl_tmm.EventLoop.{EventLoop, Mask}
use wl_tmm.EventLoop.Queue.{run_functions}

pub data Handler : Type 0 where
  on_error on_close on_read on_write : Handler

-- Which handler the flags call, by the order of the tests.
unfoldable pub handler_of : Mask → Option Handler
handler_of m =
    if m.error
    then some on_error
    else if m.hang_up && not m.input
    then some on_close
    else if m.input || m.urgent
    then some on_read
    else if m.output
    then some on_write
    else none

-- The handler for one entry of the list of ready descriptors, with its object.
unfoldable pub called : EventLoop → ℤ → Mask → Option (ℕ × Handler)
called l fd m = if not (ltb_ℤ (pos 0) fd) then none else elim (lookup fd l.events) [
  | none ↦ none
  | some id ↦ elim (handler_of m) [ none ↦ none | some f ↦ some (id, f) ]
]

module _ {ℓ} {S : Type ℓ} (handle : ℕ → Handler → EventLoop × S → EventLoop × S) where
  unfoldable pub dispatch : EventLoop × S → ℤ → Mask → EventLoop × S
  dispatch (l, s) fd m = elim (called l fd m) [ none ↦ (l, s) | some (id, f) ↦ handle id f (l, s) ]

  unfoldable pub dispatch_all : List (ℤ × Mask) → EventLoop × S → EventLoop × S
  dispatch_all [] x = x
  dispatch_all ((fd, m) ∷ ready) x = dispatch_all ready (dispatch x fd m)

  -- One turn: `size` is the length of `epoll_events_`; no list stands for an error of epoll_wait.
  unfoldable pub loop_once :
      (run : ℕ → S → S) (on_timer : S → S)
      → Option (List (ℤ × Mask))
      → ℕ × (EventLoop × S)
      → ℕ × (EventLoop × S)
  loop_once run on_timer none x = x
  loop_once run on_timer (some ready) (size, x) =
      let (l, s) = run_functions run (dispatch_all ready x) in
      (if length ready == size then size * 2 else size, (l, on_timer s))

-- OnWrite is the handler of a ready descriptor exactly if EPOLLOUT is set, and neither EPOLLERR,
-- EPOLLHUP, EPOLLIN nor EPOLLPRI.
pub handler_of-on_write :
    (m : Mask)
    → (handler_of m ≡ some on_write)
      ↔ (m.output && not m.error && not m.hang_up && not m.input && not m.urgent ≡ true)
unfolding handler_of
handler_of-on_write m = ground arith

-- The handlers for the ready descriptors, when no handler changes the loop.
unfoldable pub all_called : EventLoop → List (ℤ × Mask) → List (ℕ × Handler)
all_called l [] = []
all_called l ((fd, m) ∷ ready) =
    let rest = all_called l ready in elim (called l fd m) [ none ↦ rest | some c ↦ c ∷ rest ]

-- A handler that records its call.
abbrev pub note : ℕ → Handler → EventLoop × List (ℕ × Handler) → EventLoop × List (ℕ × Handler)
note id f (l, log) = (l, log ++ (id, f) ∷ [])

dispatch_all-note :
    (ready : List (ℤ × Mask)) (l : EventLoop) (log : List (ℕ × Handler))
    → dispatch_all note ready (l, log) ≡ (l, log ++ all_called l ready)
unfolding dispatch_all all_called dispatch
dispatch_all-note [] l log = ap (λ x. (l, x)) (sym (append-nil log))
dispatch_all-note ((fd, m) ∷ ready) l log = elim (Option-cases (called l fd m)) [
  | inl quiet ↦ ground (arith, quiet, dispatch_all-note ready l log)
  | inr (c, loud) ↦ ground (
    arith,
    loud,
    dispatch_all-note ready l (log ++ c ∷ []),
    append_assoc log (c ∷ []) (all_called l ready),
  )
]
