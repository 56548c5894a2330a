-- ===== src/TcpConnection/Order.antt =====
-- The bytes of a connection in the order in which they were given to it: network/net/TcpConnection.cc,
-- lines 91 to 228.
use mathlib.Core.Path.{ap₂}
use wl_tmm.Prelude.{
  ℕ, ◌+◌, ◌-◌, ◌≤◌, ◌<◌, ◌^◌, ◌≡◌, refl, sym, ap, ◌∙◌, List, [], ◌∷◌, ◌++◌, false, ◌==◌, take,
  take-append_eq, append_assoc, append-nil, arith, Bool-cases, List-cases, inl, inr, add_size,
  sub_size,
}
use wl_tmm.EventLoop.{EventLoop}
use wl_tmm.TcpConnection.{
  TcpConnection, Iovec, Wrote, wrote, addresses, range, enable_writing, send_nodes_in_loop,
  send_in_loop, queue_rest,
}
use wl_tmm.TcpConnection.Write.{returned, on_write}
use wl_tmm.TcpConnection.Stream.{
  stream, length-range, range-split, addresses-append, on_write-stream,
}

send_nodes-queued :
    (nodes : List Iovec) (l : EventLoop) (c : TcpConnection)
    → c.closed ≡ false
    → let c' = (send_nodes_in_loop nodes (l, c)).1 in
      (c'.sent ≡ c.sent) × (c'.io_vec_li ≡ c.io_vec_li ++ nodes)
unfolding send_nodes_in_loop enable_writing
send_nodes-queued nodes l c live = elim (List-cases (c.io_vec_li ++ nodes)) [
  | inl e ↦ (ground (arith, live, e), ground (arith, live, e))
  | inr (v, vs, e) ↦ (ground (arith, live, e), ground (arith, live, e))
]

-- Nodes that are sent go behind what is queued.
pub send_nodes-stream :
    (nodes : List Iovec) (l : EventLoop) (c : TcpConnection)
    → c.closed ≡ false
    → stream (send_nodes_in_loop nodes (l, c)).1 ≡ stream c ++ addresses nodes
send_nodes-stream nodes l c live =
    let (same, queue) = send_nodes-queued nodes l c live in
    ap₂ (λ s q. s ++ addresses q) same queue
    ∙ ap (λ xs. c.sent ++ xs) (addresses-append c.io_vec_li nodes)
    ∙ sym (append_assoc c.sent (addresses c.io_vec_li) (addresses nodes))

queue_rest-stream :
    (buf k size : ℕ) (l : EventLoop) (c : TcpConnection)
    → buf + k + size < 2 ^ 64
    → stream (queue_rest buf k size (l, c)).1 ≡ stream c ++ range (buf + k) size
unfolding queue_rest enable_writing
queue_rest-stream buf k size l c room = elim (Bool-cases (size == 0)) [
  | inl none_left ↦
      let same : stream (queue_rest buf k size (l, c)).1 ≡ stream c =
        rw (none_left, queue_rest) refl in
      same
      ∙ sym (append-nil (stream c))
      ∙ ap (λ n. stream c ++ range (buf + k) n) {x = 0} {y = size} (ground (arith, none_left))
  | inr some_left ↦
      let left : Iovec = record { iov_base = buf + k; iov_len = size } in
      let base : add_size buf k ≡ buf + k = omega arith in
      let queued : stream (queue_rest buf k size (l, c)).1
          ≡ c.sent ++ addresses (c.io_vec_li ++ left ∷ []) =
        rw (some_left, queue_rest)
          (ap
            (λ b. c.sent ++ addresses (c.io_vec_li ++ record { iov_base = b; iov_len = size } ∷ []))
            base) in
      queued
      ∙ ap (λ xs. c.sent ++ xs) (addresses-append c.io_vec_li (left ∷ []))
      ∙ ap (λ xs. c.sent ++ (addresses c.io_vec_li ++ xs)) (append-nil (range (buf + k) size))
      ∙ sym (append_assoc c.sent (addresses c.io_vec_li) (range (buf + k) size))
]

direct_stream :
    (buf size n : ℕ) (c : TcpConnection)
    → n ≤ size
    → c.io_vec_li ≡ []
    → stream (record c { sent = c.sent ++ take n (range buf size) }) ++ range (buf + n) (size - n)
      ≡ stream c ++ range buf size
direct_stream buf size n c few empty =
    let front : take n (range buf size) ≡ range buf n =
      ap (take n) (range-split buf n size few)
      ∙ take-append_eq n (range buf n) _ (sym (length-range buf n)) in
    let split = range-split buf n size few in
    let nothing : (xs : List ℕ) → xs ++ addresses c.io_vec_li ≡ xs =
      λ xs. ap (λ q. xs ++ addresses q) empty ∙ append-nil xs in
    ap (λ xs. xs ++ range (buf + n) (size - n)) (nothing (c.sent ++ take n (range buf size)))
    ∙ append_assoc c.sent (take n (range buf size)) (range (buf + n) (size - n))
    ∙ ap (λ xs. c.sent ++ (xs ++ range (buf + n) (size - n))) front
    ∙ ap (λ xs. c.sent ++ xs) (sym split)
    ∙ ap (λ xs. xs ++ range buf size) (sym (nothing c.sent))

-- A buffer that is sent goes behind what is queued, when the direct write did not fail.
pub send-stream :
    (buf size n : ℕ) (l : EventLoop) (c : TcpConnection)
    → c.closed ≡ false
    → n ≤ size
    → buf + size < 2 ^ 64
    → stream (send_in_loop buf size (wrote n) (l, c)).1 ≡ stream c ++ range buf size
unfolding send_in_loop
send-stream buf size n l c live few room = elim (List-cases c.io_vec_li) [
  | inl empty ↦
      let direct : TcpConnection = record c { sent = c.sent ++ take n (range buf size) } in
      let rest : sub_size size n ≡ size - n = omega arith in
      let shape : stream (send_in_loop buf size (wrote n) (l, c)).1
          ≡ stream (queue_rest buf n (sub_size size n) (l, direct)).1 =
        ground (arith, live, empty) in
      shape
      ∙ ap (λ k. stream (queue_rest buf n k (l, direct)).1) rest
      ∙ queue_rest-stream buf n (size - n) l direct (omega arith)
      ∙ direct_stream buf size n c few empty
  | inr (v, vs, queued) ↦
      let shape : stream (send_in_loop buf size (wrote n) (l, c)).1
          ≡ stream (queue_rest buf 0 size (l, c)).1 =
        ground (arith, live, queued) in
      shape
      ∙ queue_rest-stream buf 0 size l c (omega arith)
      ∙ ap (λ b. stream c ++ range b size) {x = buf + 0} (omega arith)
]

-- What a client and the loop ask of a connection.
pub data Op : Type 0 where
  nodes : List Iovec → Op
  buffer : ℕ → ℕ → ℕ → Op
  writable : List Wrote → Op

-- What an operation adds to the stream.
abbrev pub asked : Op → List ℕ
asked (nodes vs) = addresses vs
asked (buffer buf size n) = range buf size
asked (writable answers) = []

abbrev pub all_asked : List Op → List ℕ
all_asked [] = []
all_asked (o ∷ os) = asked o ++ all_asked os

-- An operation returns; a direct write takes `n` bytes, and does not fail.
pub data Step : EventLoop × TcpConnection → Op → EventLoop × TcpConnection → Type 0 where
  sends_nodes :
      (vs : List Iovec) (x : EventLoop × TcpConnection)
      → Step x (nodes vs) (send_nodes_in_loop vs x)
  sends_buffer :
      (buf size n : ℕ) (x : EventLoop × TcpConnection)
      → n ≤ size
      → buf + size < 2 ^ 64
      → Step x (buffer buf size n) (send_in_loop buf size (wrote n) x)
  writes :
      (answers : List Wrote) (x x' : EventLoop × TcpConnection)
      → on_write answers x ≡ returned x'
      → Step x (writable answers) x'

-- Operations in a row, on a connection that is not closed while they run.
pub data Steps : EventLoop × TcpConnection → List Op → EventLoop × TcpConnection → Type 0 where
  done : (x : EventLoop × TcpConnection) → Steps x [] x
  next :
      (x y z : EventLoop × TcpConnection) (o : Op) (os : List Op)
      → x.1.closed ≡ false
      → Step x o y
      → Steps y os z
      → Steps x (o ∷ os) z

stream-asked :
    (x y : EventLoop × TcpConnection) (o : Op)
    → x.1.closed ≡ false
    → Step x o y
    → stream y.1 ≡ stream x.1 ++ asked o
stream-asked _ _ _ live (sends_nodes vs x) = send_nodes-stream vs x.0 x.1 live
stream-asked _ _ _ live (sends_buffer buf size n x few room) =
    send-stream buf size n x.0 x.1 live few room
stream-asked _ _ _ live (writes answers x y h) =
    on_write-stream answers x.0 y.0 x.1 y.1 h ∙ sym (append-nil (stream x.1))

-- Whatever the kernel takes at a time, after any operations on an open connection the bytes that
-- it took and those that are queued are, in their order, those before and those that the
-- operations were given; the direct writes do not fail and take no more than they are given, and
-- buffers end below 2^64.
pub stream-all_asked :
    (x y : EventLoop × TcpConnection) (os : List Op)
    → Steps x os y
    → stream y.1 ≡ stream x.1 ++ all_asked os
stream-all_asked _ _ _ (done x) = sym (append-nil (stream x.1))
stream-all_asked _ _ _ (next x m y o rest live first others) =
    stream-all_asked m y rest others
    ∙ ap (λ xs. xs ++ all_asked rest) (stream-asked x m o live first)
    ∙ append_assoc (stream x.1) (asked o) (all_asked rest)
