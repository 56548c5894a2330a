-- ===== src/MsgBuffer/NetworkOrder.antt =====
-- What the integer operations of network/base/MsgBuffer.h, lines 225 to 337, leave in a buffer and
-- read from it: integers travel highest byte first.
use mathlib.Core.Path.{ap₂}
use wl_tmm.Prelude.{
  ℕ, ◌+◌, ◌-◌, ◌^◌, ◌≤◌, ◌<◌, ◌≡◌, ap, sym, ◌∙◌, Option, some, List, ◌++◌, reverse, length, take,
  drop, length-take, length-reverse, take-append_eq, drop-append_eq, take-drop, take-take_le,
  take-append_ge, arith, length-append,
}
use wl_tmm.Endian.{
  bytes_le, from_le, byte_swap, host_to_network64, host_to_network32, host_to_network16,
  network_to_host64, network_to_host32, network_to_host16, length-bytes_le, bytes_le-byte_swap,
  byte_swap-byte_swap,
}
use wl_tmm.MsgBuffer.{MsgBuffer, readable_bytes, retrieve, prepend}
use wl_tmm.MsgBuffer.Contents.{
  contents, IsValid, Yields, readable_bytes-eq, length-contents, retrieve_lem, length-copied,
}
use wl_tmm.MsgBuffer.Ints.{
  peek_bytes, read_int64, read_int32, read_int16, prepend_int64, prepend_int32, prepend_int16,
}

-- The bytes of an integer as they travel.
abbrev pub network_bytes : ℕ → ℕ → List ℕ
network_bytes k x = reverse (bytes_le k x)

pub length-network_bytes : (k x : ℕ) → length (network_bytes k x) ≡ k
length-network_bytes k x = length-reverse (bytes_le k x) ∙ length-bytes_le k x

-- A peek sees the first bytes of the contents.
pub peek_bytes_lem :
    {b : MsgBuffer} (k : ℕ)
    → IsValid b
    → k ≤ readable_bytes b
    → peek_bytes b k ≡ some (take k (contents b))
unfolding peek_bytes contents
peek_bytes_lem {b} k v h =
    let inside : b.reader_index + k ≤ b.writer_index = omega (arith, readable_bytes-eq v, h) in
    let same : drop b.reader_index (take (b.reader_index + k) b.buffer)
        ≡ take k (drop b.reader_index (take b.writer_index b.buffer)) =
      ap (drop b.reader_index)
        (sym (take-take_le (b.reader_index + k) b.writer_index b.buffer inside))
      ∙ sym (take-drop k b.reader_index (take b.writer_index b.buffer)) in
    ground (arith, inside, same, v, readable_bytes-eq v)

prepended_front :
    (buf src : List ℕ) (r reader writer : ℕ)
    → r + length src ≡ reader
    → reader ≤ writer
    → writer ≤ length buf
    → drop r (take writer (take r buf ++ (src ++ drop (r + length src) buf)))
      ≡ src ++ drop reader (take writer buf)
prepended_front buf src r reader writer e low high =
    let start : length (take r buf) ≡ r = omega (arith, length-take r buf) in
    let tail : List ℕ = drop (r + length src) buf in
    ap (drop r) (take-append_ge writer (take r buf) (src ++ tail) (omega arith))
    ∙ drop-append_eq r (take r buf) _ (sym start)
    ∙ take-append_ge (writer - length (take r buf)) src tail (omega arith)
    ∙ ap (◌++◌ src) (
        take-drop (writer - length (take r buf) - length src) (r + length src) buf
        ∙ ap₂ (λ m n. drop m (take n buf)) e (omega arith))

byte_swap-network_bytes : (k x : ℕ) → x < 256 ^ k → byte_swap k (from_le (network_bytes k x)) ≡ x
unfolding byte_swap
byte_swap-network_bytes k x h = unfold byte_swap in byte_swap-byte_swap k x h

module _ {b : MsgBuffer} (v : IsValid b) where
  -- Prepending puts the data before the contents, in the room in front of the reader index.
  pub prepend_lem :
      (src : List ℕ) → length src ≤ b.reader_index → Yields (prepend b src) (src ++ contents b)
  unfolding prepend contents
  prepend_lem src h =
      let r : ℕ = b.reader_index - length src in
      let inside : r + length src ≤ length b.buffer = omega (arith, v) in
      let rest : List ℕ = src ++ drop (r + length src) b.buffer in
      (
        record b { buffer = take r b.buffer ++ rest; reader_index = r },
        ground (arith, v, inside),
        omega (arith, length-copied b.buffer r src inside),
        prepended_front b.buffer src r b.reader_index b.writer_index (omega arith)
            (omega (arith, v)) (omega (arith, v)),
      )

  -- The first integer of the contents is read, and consumed.
  read_lem :
      (k x : ℕ) (rest : List ℕ)
      → contents b ≡ network_bytes k x ++ rest
      → (peek_bytes b k ≡ some (network_bytes k x)) × Yields (retrieve b k) rest
  read_lem k x rest e =
      let enough : k ≤ readable_bytes b = omega (
        arith,
        length-contents v,
        ap length e,
        length-append (network_bytes k x) rest,
        length-network_bytes k x,
      ) in
      let (b', done, valid, left) = retrieve_lem v k enough in
      (
        peek_bytes_lem k v enough
            ∙ ap some (
                ap (take k) e
                ∙ take-append_eq k (network_bytes k x) rest (sym (length-network_bytes k x))),
        (
          b',
          done,
          valid,
          left
              ∙ ap (drop k) e
              ∙ drop-append_eq k (network_bytes k x) rest (sym (length-network_bytes k x)),
        ),
      )

-- A read gives `x`, and leaves a valid buffer that holds `rest`.
abbrev pub Reads : Option (ℕ × MsgBuffer) → ℕ → List ℕ → Type 0
Reads r x rest = (b : MsgBuffer) × (r ≡ some (x, b)) × IsValid b × (contents b ≡ rest)

-- The bytes of an integer at the front of the contents are read as that integer, and consumed.
module _ {b : MsgBuffer} (v : IsValid b) where
  pub read_int64_lem :
      (x : ℕ) (rest : List ℕ)
      → x < 2 ^ 64
      → contents b ≡ network_bytes 8 x ++ rest
      → Reads (read_int64 b) x rest
  unfolding read_int64 network_to_host64
  read_int64_lem x rest h e =
      let (seen, (b', done, valid, left)) = read_lem v 8 x rest e in
      (b', ground (arith, seen, done, byte_swap-network_bytes 8 x h), valid, left)

  pub read_int32_lem :
      (x : ℕ) (rest : List ℕ)
      → x < 2 ^ 32
      → contents b ≡ network_bytes 4 x ++ rest
      → Reads (read_int32 b) x rest
  unfolding read_int32 network_to_host32
  read_int32_lem x rest h e =
      let (seen, (b', done, valid, left)) = read_lem v 4 x rest e in
      (b', ground (arith, seen, done, byte_swap-network_bytes 4 x h), valid, left)

  pub read_int16_lem :
      (x : ℕ) (rest : List ℕ)
      → x < 2 ^ 16
      → contents b ≡ network_bytes 2 x ++ rest
      → Reads (read_int16 b) x rest
  unfolding read_int16 network_to_host16
  read_int16_lem x rest h e =
      let (seen, (b', done, valid, left)) = read_lem v 2 x rest e in
      (b', ground (arith, seen, done, byte_swap-network_bytes 2 x h), valid, left)

module _ {b : MsgBuffer} (v : IsValid b) where
  -- With 8 bytes of room in front, an integer of 64 bits that is prepended is what is read next,
  -- and reading it gives back the buffer's contents.
  pub read_int64-prepend_int64 :
      (x : ℕ)
      → x < 2 ^ 64
      → 8 ≤ b.reader_index
      → (b' : MsgBuffer) × (prepend_int64 b x ≡ some b')
        × (contents b' ≡ network_bytes 8 x ++ contents b)
        × Reads (read_int64 b') x (contents b)
  unfolding prepend_int64 host_to_network64
  read_int64-prepend_int64 x h room =
      let (b', done, valid, front) =
        prepend_lem v (bytes_le 8 (byte_swap 8 x))
          (omega (arith, length-bytes_le 8 (byte_swap 8 x))) in
      let whole = front ∙ ap (λ xs. xs ++ contents b) (bytes_le-byte_swap 8 x) in
      (b', done, whole, read_int64_lem valid x (contents b) h whole)

  -- On a valid buffer with 4 bytes of room in front, a 32-bit integer that is prepended stands
  -- there in network order, is what is read next, and reading it gives the contents back.
  pub read_int32-prepend_int32 :
      (x : ℕ)
      → x < 2 ^ 32
      → 4 ≤ b.reader_index
      → (b' : MsgBuffer) × (prepend_int32 b x ≡ some b')
        × (contents b' ≡ network_bytes 4 x ++ contents b)
        × Reads (read_int32 b') x (contents b)
  unfolding prepend_int32 host_to_network32
  read_int32-prepend_int32 x h room =
      let (b', done, valid, front) =
        prepend_lem v (bytes_le 4 (byte_swap 4 x))
          (omega (arith, length-bytes_le 4 (byte_swap 4 x))) in
      let whole = front ∙ ap (λ xs. xs ++ contents b) (bytes_le-byte_swap 4 x) in
      (b', done, whole, read_int32_lem valid x (contents b) h whole)

  -- With 2 bytes of room in front, an integer of 16 bits that is prepended is what is read next,
  -- and reading it gives back the buffer's contents.
  pub read_int16-prepend_int16 :
      (x : ℕ)
      → x < 2 ^ 16
      → 2 ≤ b.reader_index
      → (b' : MsgBuffer) × (prepend_int16 b x ≡ some b')
        × (contents b' ≡ network_bytes 2 x ++ contents b)
        × Reads (read_int16 b') x (contents b)
  unfolding prepend_int16 host_to_network16
  read_int16-prepend_int16 x h room =
      let (b', done, valid, front) =
        prepend_lem v (bytes_le 2 (byte_swap 2 x))
          (omega (arith, length-bytes_le 2 (byte_swap 2 x))) in
      let whole = front ∙ ap (λ xs. xs ++ contents b) (bytes_le-byte_swap 2 x) in
      (b', done, whole, read_int16_lem valid x (contents b) h whole)
