-- ===== src/TcpConnection/Stall.antt =====
-- The ends of a write: network/net/TcpConnection.cc, lines 91 to 151 and 189 to 228.
use wl_tmm.Prelude.{
  ℕ, zero, suc, ◌+◌, ◌-◌, ◌<◌, ◌^◌, ◌≡◌, refl, List, [], ◌∷◌, false, arith, replicate,
}
use wl_tmm.EventLoop.{EventLoop}
use wl_tmm.TcpConnection.{
  TcpConnection, Iovec, Wrote, wrote, failed, send_in_loop, queue_rest, enable_writing,
}
use wl_tmm.TcpConnection.Write.{consume, running, write_loop, on_write}
use wl_tmm.TcpConnection.Stream.{after}

-- Answers that are an error or some bytes.
abbrev pub AllProgress : List Wrote → Type 0
AllProgress [] = Unit {0}
AllProgress (failed errno ∷ answers) = AllProgress answers
AllProgress (wrote n ∷ answers) = (0 < n) × AllProgress answers

write_loop-idle :
    (fuel : ℕ) (l : EventLoop) (c : TcpConnection) (v : Iovec) (vs : List Iovec)
    → c.io_vec_li ≡ v ∷ vs
    → write_loop (replicate fuel (wrote 0)) (l, c) ≡ running
unfolding write_loop consume
write_loop-idle zero l c v vs queued = refl
write_loop-idle (suc fuel) l c v vs queued =
    ground (arith, queued, write_loop-idle fuel l (after 0 (v ∷ vs) c) v vs refl)

-- On an open connection with nothing but empty segments queued, and writev that takes 0 bytes, a
-- write never ends.
pub on_write-empty_segments :
    (base k fuel : ℕ) (l : EventLoop) (c : TcpConnection)
    → c.closed ≡ false
    → c.io_vec_li ≡ replicate (suc k) (record { iov_base = base; iov_len = 0 })
    → on_write (replicate fuel (wrote 0)) (l, c) ≡ running
unfolding on_write
on_write-empty_segments base k fuel l c live queued = ground (
  arith,
  live,
  queued,
  write_loop-idle fuel l c (record { iov_base = base; iov_len = 0 })
      (replicate k (record { iov_base = base; iov_len = 0 })) queued,
)

-- A failed direct write on an open connection with an empty queue, whatever the error, queues a
-- segment that begins one byte before the buffer and is one byte longer, and leaves the connection
-- open; the buffer is not at address 0 and ends below 2^64.
pub send_in_loop-failed :
    (buf size errno : ℕ) (l : EventLoop) (c : TcpConnection)
    → c.closed ≡ false
    → c.io_vec_li ≡ []
    → 0 < buf
    → buf + size < 2 ^ 64
    → size < 2 ^ 64 - 1
    → let c' = (send_in_loop buf size (failed errno) (l, c)).1 in
      (c'.io_vec_li ≡ record { iov_base = buf - 1; iov_len = suc size } ∷ []) × (c'.closed ≡ false)
unfolding send_in_loop queue_rest enable_writing
send_in_loop-failed buf size errno l c live empty above room small =
    (ground (arith, live, empty), ground (arith, live, empty))
