-- ===== src/MsgBuffer/Tests.antt =====
-- The theorems at concrete buffers: network/base/MsgBuffer.h and MsgBuffer.cpp.
use mathlib.Core.Option
use wl_tmm.Prelude.{ℕ, ◌≡◌, refl, some, List, [], ◌∷◌, ◌++◌, arith, replicate}
use wl_tmm.MsgBuffer.{MsgBuffer, writable_bytes}
use wl_tmm.MsgBuffer.Contents.{IsValid, contents}
use wl_tmm.MsgBuffer.Queue.{Op, put, skip, skip_all, run, replay, run-replay}
use wl_tmm.MsgBuffer.Ints.{read_int32, prepend_int32}
use wl_tmm.MsgBuffer.NetworkOrder.{network_bytes, Reads, read_int32-prepend_int32}
use wl_tmm.MsgBuffer.ReadFd.{Received, received, areas, read_fd, read_fd_lem}

-- A vector of 16 bytes that holds "1\r\n" behind its headroom.
line : MsgBuffer
line = record {
  buffer = replicate 8 0 ++ 49 ∷ 13 ∷ 10 ∷ 0 ∷ 0 ∷ 0 ∷ 0 ∷ 0 ∷ [];
  reader_index = 8;
  writer_index = 11;
}

line-IsValid : IsValid line
unfolding line
line-IsValid = omega arith

-- Bytes are put in and taken out, and at last more are asked for than there are.
abbrev some_ops : List Op
some_ops = put (50 ∷ 51 ∷ []) ∷ skip 2 ∷ put (52 ∷ []) ∷ skip_all ∷ put (53 ∷ []) ∷ skip 2 ∷ []

run-replay_example : Option.map contents (run some_ops line) ≡ replay some_ops (contents line)
unfolding line
run-replay_example = run-replay some_ops line line-IsValid (omega arith)

read_int32-prepend_int32_example :
    (b : MsgBuffer) × (prepend_int32 line 258 ≡ some b)
    × (contents b ≡ network_bytes 4 258 ++ contents line)
    × Reads (read_int32 b) 258 (contents line)
unfolding line
read_int32-prepend_int32_example =
    read_int32-prepend_int32 line-IsValid 258 (omega arith) (omega arith)

-- A kernel that hands over seven bytes: five for the vector, two for the stack buffer.
kernel : List ℕ → Received
kernel lengths = received (1 ∷ 2 ∷ 3 ∷ 4 ∷ 5 ∷ 6 ∷ 7 ∷ [])

read_fd_lem_example :
    (b : MsgBuffer) × (read_fd line kernel ≡ some (received (1 ∷ 2 ∷ 3 ∷ 4 ∷ 5 ∷ 6 ∷ 7 ∷ []), b))
    × IsValid b
    × (contents b ≡ contents line ++ 1 ∷ 2 ∷ 3 ∷ 4 ∷ 5 ∷ 6 ∷ 7 ∷ [])
unfolding line kernel areas writable_bytes
read_fd_lem_example =
    read_fd_lem line-IsValid kernel (1 ∷ 2 ∷ 3 ∷ 4 ∷ 5 ∷ 6 ∷ 7 ∷ []) refl (omega arith)
      (omega arith)
