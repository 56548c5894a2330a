-- ===== src/TcpConnection/Handover.antt =====
-- Calls from other threads: network/net/TcpConnection.cc, lines 25 to 29 and 160 to 169, with
-- network/net/EventLoop.cc, lines 187 to 227. A function in the queue is a number, and `calls` says
-- what it captures: the address of the caller's list, or a pointer and a size. What the lists hold and
-- what write(2) answers, when the functions run, are arguments.
mod Tests
use mathlib.Core.Path.{ap₂, subst}
use wl_tmm.Prelude.{
  ℕ, ◌+◌, ◌≤◌, ◌<◌, ◌^◌, ◌≡◌, refl, sym, ap, ◌∙◌, some, none, List, [], ◌∷◌, ◌++◌, Bool, true,
  false, if◌then◌else◌, append_assoc, append-nil, arith, List-cases, inl, inr, ◌⊎◌, sub_size,
  Bool-cases, ◌==◌,
}
use wl_tmm.EventLoop.{EventLoop, Event, close_event, wake_up, add_event}
use wl_tmm.TcpConnection.{
  TcpConnection, Iovec, Wrote, wrote, addresses, range, on_close, enable_writing,
  send_nodes_in_loop, send_in_loop, queue_rest, send_len_of, taken,
}
use wl_tmm.TcpConnection.Order.{send_nodes-stream, send-stream}
use wl_tmm.TcpConnection.Stream.{stream}
use wl_tmm.TcpConnection.Closed.{send_nodes_in_loop-closed, send_in_loop-closed, on_close-stream}

-- The functions of the two Sends and of ForceClose.
pub data Call : Type 0 where
  send_list : ℕ → Call
  send_buffer : ℕ → ℕ → Call
  force_close : Call

pub Call-cases :
    (k : Call)
    → ((list : ℕ) × (k ≡ send_list list))
      ⊎ (((buf size : ℕ) × (k ≡ send_buffer buf size)) ⊎ (k ≡ force_close))
Call-cases (send_list list) = inl (list, refl)
Call-cases (send_buffer buf size) = inr (inl (buf, size, refl))
Call-cases force_close = inr (inr refl)

module _ (calls : ℕ → Call) (lists : ℕ → List Iovec) (answers : ℕ → Wrote) where
  unfoldable pub run_call : ℕ → EventLoop × TcpConnection → EventLoop × TcpConnection
  run_call f (l, c) = elim (calls f) [
    | send_list list ↦ send_nodes_in_loop (lists list) (l, c)
    | send_buffer buf size ↦ send_in_loop buf size (answers f) (l, c)
    | force_close ↦ (l, on_close c)
  ]

  -- `Send` and `ForceClose`, by the number of the function: RunInLoop.
  unfoldable pub call_in_loop :
      Bool → Event → ℕ → EventLoop × TcpConnection → EventLoop × TcpConnection
  call_in_loop in_loop_thread made f (l, c) =
      if in_loop_thread
      then run_call f (l, c)
      else (wake_up (record l { functions = l.functions ++ f ∷ [] }) made, c)

  unfoldable pub run_calls : List ℕ → EventLoop × TcpConnection → EventLoop × TcpConnection
  run_calls [] x = x
  run_calls (f ∷ fs) x = run_calls fs (run_call f x)

  -- `RunFunctions`.
  unfoldable pub run_functions : EventLoop × TcpConnection → EventLoop × TcpConnection
  run_functions (l, c) = run_calls l.functions (record l { functions = [] }, c)

  -- Calls of other threads, in the order in which they got the mutex.
  unfoldable pub call_all : Event → List ℕ → EventLoop × TcpConnection → EventLoop × TcpConnection
  call_all made [] x = x
  call_all made (f ∷ fs) x = call_all made fs (call_in_loop false made f x)

  wake_up-functions : (l : EventLoop) (made : Event) → (wake_up l made).functions ≡ l.functions
  unfolding wake_up add_event
  wake_up-functions l made = ground arith

  call_all-functions :
      (made : Event) (fs : List ℕ) (l : EventLoop) (c : TcpConnection)
      → ((call_all made fs (l, c)).0.functions ≡ l.functions ++ fs)
        × ((call_all made fs (l, c)).1 ≡ c)
  unfolding call_all call_in_loop
  call_all-functions made [] l c = (sym (append-nil l.functions), refl)
  call_all-functions made (f ∷ fs) l c =
      let more : EventLoop = record l { functions = l.functions ++ f ∷ [] } in
      let (queued, same) = call_all-functions made fs (wake_up more made) c in
      (
        queued
            ∙ ap (λ q. q ++ fs) (wake_up-functions more made)
            ∙ append_assoc l.functions (f ∷ []) fs,
        same,
      )

  -- A call of Send that does not fail: what it gives to the stream.
  abbrev pub given_by : Call → List ℕ
  given_by (send_list list) = addresses (lists list)
  given_by (send_buffer buf size) = range buf size
  given_by force_close = []

  abbrev pub given : ℕ → List ℕ
  given f = given_by (calls f)

  abbrev pub all_given : List ℕ → List ℕ
  all_given [] = []
  all_given (f ∷ fs) = given f ++ all_given fs

  -- The function is of a Send; a direct write of it takes no more than the buffer, which ends below
  -- 2^64.
  pub data IsSend : ℕ → Type 0 where
    of_list : (f list : ℕ) → calls f ≡ send_list list → IsSend f
    of_buffer :
        (f buf size n : ℕ)
        → calls f ≡ send_buffer buf size
        → answers f ≡ wrote n
        → n ≤ size
        → buf + size < 2 ^ 64
        → IsSend f

  abbrev pub AllSends : List ℕ → Type 0
  AllSends [] = Unit {0}
  AllSends (f ∷ fs) = IsSend f × AllSends fs

  run_call-IsSend :
      (f : ℕ) (l : EventLoop) (c : TcpConnection)
      → c.closed ≡ false
      → IsSend f
      → (stream (run_call f (l, c)).1 ≡ stream c ++ given f)
        × ((run_call f (l, c)).1.closed ≡ false)
  unfolding run_call
  run_call-IsSend _ l c live (of_list f list is) =
      rw (is, run_call)
        (send_nodes-stream (lists list) l c live, send_nodes_in_loop-closed (lists list) l c ∙ live)
  run_call-IsSend _ l c live (of_buffer f buf size n is took few room) =
      rw (is, run_call, took)
        (
          send-stream buf size n l c live few room,
          send_in_loop-closed buf size (wrote n) l c ∙ live,
        )

  run_calls-AllSends :
      (fs : List ℕ) (l : EventLoop) (c : TcpConnection)
      → c.closed ≡ false
      → AllSends fs
      → (stream (run_calls fs (l, c)).1 ≡ stream c ++ all_given fs)
        × ((run_calls fs (l, c)).1.closed ≡ false)
  unfolding run_calls
  run_calls-AllSends [] l c live all = (sym (append-nil (stream c)), live)
  run_calls-AllSends (f ∷ fs) l c live (first, rest) =
      let (more, live') = run_call-IsSend f l c live first in
      let (all, last) =
        run_calls-AllSends fs (run_call f (l, c)).0 (run_call f (l, c)).1 live' rest in
      (
        all ∙ ap (λ xs. xs ++ all_given fs) more ∙ append_assoc (stream c) (given f) (all_given fs),
        last,
      )

  -- A closed connection stays as it is.
  run_call-closed :
      (f : ℕ) (l : EventLoop) (c : TcpConnection) → c.closed ≡ true → run_call f (l, c) ≡ (l, c)
  unfolding run_call send_nodes_in_loop send_in_loop on_close
  run_call-closed f l c shut = elim (Call-cases (calls f)) [
    | inl (list, is) ↦ ground (arith, is, shut)
    | inr (inl (buf, size, is)) ↦ ground (arith, is, shut)
    | inr (inr is) ↦ ground (arith, is, shut)
  ]

  run_calls-closed :
      (fs : List ℕ) (l : EventLoop) (c : TcpConnection)
      → c.closed ≡ true
      → run_calls fs (l, c) ≡ (l, c)
  unfolding run_calls
  run_calls-closed [] l c shut = refl
  run_calls-closed (f ∷ fs) l c shut =
      ap (run_calls fs) (run_call-closed f l c shut) ∙ run_calls-closed fs l c shut

  run_calls-append :
      (fs gs : List ℕ) (x : EventLoop × TcpConnection)
      → run_calls (fs ++ gs) x ≡ run_calls gs (run_calls fs x)
  unfolding run_calls
  run_calls-append [] gs x = refl
  run_calls-append (f ∷ fs) gs x = run_calls-append fs gs (run_call f x)

  run_call-force_close :
      (f : ℕ) (l : EventLoop) (c : TcpConnection)
      → calls f ≡ force_close
      → (stream (run_call f (l, c)).1 ≡ stream c) × ((run_call f (l, c)).1.closed ≡ true)
  unfolding run_call
  run_call-force_close f l c is = rw (is, run_call) (on_close-stream c)

  -- Other threads call Send some times on an open connection whose loop has an empty queue, then
  -- ForceClose, and then anything. Until the loop runs its functions the connection is as it was;
  -- then it is closed, and has sent or queued, behind what it had, what the buffers and the lists
  -- hold at that time, in the order of the calls, and nothing of the later ones. The direct writes
  -- do not fail and take no more than their buffers, which end below 2^64.
  pub run_functions-call_all :
      (made : Event) (fs gs : List ℕ) (f : ℕ) (l : EventLoop) (c : TcpConnection)
      → l.functions ≡ []
      → c.closed ≡ false
      → AllSends fs
      → calls f ≡ force_close
      → let before = call_all made (fs ++ f ∷ gs) (l, c) in
        let after = run_functions before in
        (before.1 ≡ c) × (stream after.1 ≡ stream c ++ all_given fs) × (after.1.closed ≡ true)
  unfolding run_functions run_calls
  run_functions-call_all made fs gs f l c idle live all is =
      let posted = fs ++ f ∷ gs in
      let (queued, same) = call_all-functions made posted l c in
      let l1 : EventLoop = record (call_all made posted (l, c)).0 { functions = [] } in
      let sent : EventLoop × TcpConnection = run_calls fs (l1, c) in
      let closed : EventLoop × TcpConnection = run_call f sent in
      let (order, alive) = run_calls-AllSends fs l1 c live all in
      let (kept, shut) = run_call-force_close f sent.0 sent.1 is in
      let shape : run_functions (call_all made posted (l, c)) ≡ closed =
        ap₂ (λ q d. run_calls q (l1, d)) (queued ∙ ap (λ q. q ++ posted) idle) same
        ∙ run_calls-append fs (f ∷ gs) (l1, c)
        ∙ run_calls-closed gs closed.0 closed.1 shut in
      (
        same,
        ap (λ (x : EventLoop × TcpConnection). stream x.1) shape ∙ kept ∙ order,
        ap (λ (x : EventLoop × TcpConnection). x.1.closed) shape ∙ shut,
      )
