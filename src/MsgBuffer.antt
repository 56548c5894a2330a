-- ===== src/MsgBuffer.antt =====
-- network/base/MsgBuffer.h and MsgBuffer.cpp: the growable byte buffer with a reader and a writer
-- index. A pointer into the buffer is an index from `begin()`. A failed `assert`, an access out of
-- the vector and a `std::length_error` are `none`.
pub mod Contents
pub mod Append
pub mod Ints
pub mod NetworkOrder
pub mod Queue
pub mod ReadFd
pub mod Search
mod Tests
use wl_tmm.Prelude.{
  ℕ, zero, suc, ◌+◌, ◌-◌, ◌^◌, ◌≤◌, Option, none, some, List, [], ◌∷◌, ◌++◌, Bool, true, false,
  ◌&&◌, ltb, leb, ◌==◌, if◌then◌else◌, length, take, drop, replicate, add_size, sub_size, ◌>>=◌,
  ◌>>◌, assert,
}
use mathlib.Core.Option
use wl_tmm.Endian.{
  bytes_le, from_le, host_to_network64, host_to_network32, host_to_network16, network_to_host64,
  network_to_host32, network_to_host16,
}

-- `char` is a byte as a number.
pub record MsgBuffer : Type 0 where
  pub buffer : List ℕ
  pub reader_index : ℕ
  pub writer_index : ℕ

abbrev pub cheap_prepend : ℕ
cheap_prepend = 8

abbrev pub initial_size : ℕ
initial_size = 1024

-- `std::vector<char>::max_size()`.
abbrev pub max_size : ℕ
max_size = 2 ^ 63 - 1

abbrev pub cr : ℕ
cr = 13

abbrev pub lf : ℕ
lf = 10

-- The bytes of a vector in [lo, hi).
abbrev pub read_range : List ℕ → ℕ → ℕ → Option (List ℕ)
read_range buf lo hi =
    if leb lo hi && leb hi (length buf) then some (drop lo (take hi buf)) else none

-- `std::copy` of `src` to position `at` of a vector.
abbrev pub copy_to : List ℕ → ℕ → List ℕ → Option (List ℕ)
copy_to buf at src =
    if leb (at + length src) (length buf)
    then some (take at buf ++ (src ++ drop (at + length src) buf))
    else none

-- `std::vector::resize`.
abbrev pub resize : List ℕ → ℕ → Option (List ℕ)
resize buf n =
    if ltb max_size n
    then none
    else if leb n (length buf)
    then some (take n buf)
    else some (buf ++ replicate (n - length buf) 0)

unfoldable pub readable_bytes : MsgBuffer → ℕ
readable_bytes b = sub_size b.writer_index b.reader_index

unfoldable pub writable_bytes : MsgBuffer → ℕ
writable_bytes b = sub_size (length b.buffer) b.writer_index

unfoldable pub prependable_bytes : MsgBuffer → ℕ
prependable_bytes b = b.reader_index

unfoldable pub peek : MsgBuffer → ℕ
peek b = b.reader_index

unfoldable pub begin_write : MsgBuffer → ℕ
begin_write b = b.writer_index

unfoldable pub new_buffer : ℕ → Option MsgBuffer
unfolding readable_bytes writable_bytes prependable_bytes
new_buffer size = do
  bytes ← resize [] (add_size cheap_prepend size)
  let b : MsgBuffer = record {
    buffer = bytes;
    reader_index = cheap_prepend;
    writer_index = cheap_prepend;
  }
  assert (readable_bytes b == 0)
  assert (writable_bytes b == size)
  assert (prependable_bytes b == cheap_prepend)
  some b

unfoldable pub swap : MsgBuffer → MsgBuffer → MsgBuffer × MsgBuffer
swap lhs rhs = (rhs, lhs)

unfoldable pub retrieve_all : MsgBuffer → MsgBuffer
retrieve_all b = record b { reader_index = cheap_prepend; writer_index = cheap_prepend }

unfoldable pub retrieve : MsgBuffer → ℕ → Option MsgBuffer
unfolding readable_bytes retrieve_all
retrieve b len = do
  assert (leb len (readable_bytes b))
  if ltb len (readable_bytes b)
      then some (record b { reader_index = add_size b.reader_index len })
      else some (retrieve_all b)

unfoldable pub retrieve_until : MsgBuffer → ℕ → Option MsgBuffer
unfolding peek begin_write
retrieve_until b end = do
  assert (leb (peek b) end)
  assert (leb end (begin_write b))
  retrieve b (sub_size end (peek b))

unfoldable pub retrieve_as_string : MsgBuffer → ℕ → Option (List ℕ × MsgBuffer)
unfolding readable_bytes peek
retrieve_as_string b len = do
  assert (leb len (readable_bytes b))
  result ← read_range b.buffer (peek b) (peek b + len)
  b' ← retrieve b len
  some (result, b')

unfoldable pub retrieve_all_as_string : MsgBuffer → Option (List ℕ × MsgBuffer)
retrieve_all_as_string b = retrieve_as_string b (readable_bytes b)

unfoldable pub has_written : MsgBuffer → ℕ → Option MsgBuffer
unfolding writable_bytes
has_written b len = do
  assert (leb len (writable_bytes b))
  some (record b { writer_index = add_size b.writer_index len })

unfoldable pub unwrite : MsgBuffer → ℕ → Option MsgBuffer
unfolding readable_bytes
unwrite b len = do
  assert (leb len (readable_bytes b))
  some (record b { writer_index = sub_size b.writer_index len })

-- Move the readable bytes to the front.
unfoldable pub move_to_front : MsgBuffer → Option MsgBuffer
unfolding readable_bytes
move_to_front b = do
  assert (ltb cheap_prepend b.reader_index)
  let readable = readable_bytes b
  bytes ← read_range b.buffer b.reader_index b.writer_index
  moved ← copy_to b.buffer cheap_prepend bytes
  let b' : MsgBuffer = record {
    buffer = moved;
    reader_index = cheap_prepend;
    writer_index = add_size cheap_prepend readable;
  }
  assert (readable == readable_bytes b')
  some b'

unfoldable pub make_space : MsgBuffer → ℕ → Option MsgBuffer
unfolding writable_bytes prependable_bytes
make_space b len =
    if ltb (add_size (writable_bytes b) (prependable_bytes b)) (add_size len cheap_prepend)
    then Option.map (λ bytes. record b { buffer = bytes })
        (resize b.buffer (add_size b.writer_index len))
    else move_to_front b

unfoldable pub ensure_writable_bytes : MsgBuffer → ℕ → Option MsgBuffer
unfolding writable_bytes
ensure_writable_bytes b len = do
  b' ← if ltb (writable_bytes b) len then make_space b len else some b
  assert (leb len (writable_bytes b'))
  some b'

unfoldable pub append : MsgBuffer → List ℕ → Option MsgBuffer
unfolding begin_write has_written
append b src = do
  b' ← ensure_writable_bytes b (length src)
  bytes ← copy_to b'.buffer (begin_write b') src
  has_written (record b' { buffer = bytes }) (length src)

unfoldable pub prepend : MsgBuffer → List ℕ → Option MsgBuffer
unfolding prependable_bytes
prepend b src = do
  assert (leb (length src) (prependable_bytes b))
  let r = sub_size b.reader_index (length src)
  bytes ← copy_to b.buffer r src
  some (record b { buffer = bytes; reader_index = r })
