-- ===== src/MsgBuffer/ReadFd.antt =====
-- Filling a buffer from a socket: network/base/MsgBuffer.cpp, lines 23 to 55. The kernel's `readv`
-- is a parameter: a function from the lengths of the areas that it may fill.
use native.Mathlib.Decide.{dec_le}
use wl_tmm.Prelude.{
  ℕ, ◌+◌, ◌≤◌, ◌<◌, ◌≡◌, ap, sym, ◌∙◌, Option, some, List, [], ◌∷◌, ◌++◌, length, take, drop,
  length-take, length-drop, take-append-drop, take_all, append_assoc, arith, leb, ltb,
  if◌then◌else◌, add_size, ◌>>=◌, ◌>>◌, assert,
}
use wl_tmm.MsgBuffer.{MsgBuffer, max_size, writable_bytes, copy_to, append}
use wl_tmm.MsgBuffer.Contents.{contents, IsValid, Yields, writable_bytes-eq, length-copied}
use wl_tmm.MsgBuffer.Append.{written, written_lem, append_lem}

-- A result of readv(2): the bytes that were read, or `errno`.
pub data Received : Type 0 where
  received : List ℕ → Received
  failed : ℕ → Received

abbrev pub extra_size : ℕ
extra_size = 65536

-- The lengths of the areas that are handed to readv.
unfoldable pub areas : ℕ → List ℕ
areas writable = if ltb writable extra_size then writable ∷ extra_size ∷ [] else writable ∷ []

abbrev pub total : List ℕ → ℕ
total [] = 0
total (n ∷ ns) = n + total ns

-- The rest is appended from `extrabuf`; bytes behind its end cannot be read.
unfoldable pub spill : MsgBuffer → List ℕ → Option MsgBuffer
spill b extra = assert (leb (length extra) extra_size) >> append b extra

-- `n` bytes have been stored, the first of them behind the writer index.
unfoldable pub take_in : MsgBuffer → List ℕ → Option MsgBuffer
take_in b bytes =
    let writable = writable_bytes b in
    copy_to b.buffer b.writer_index (take writable bytes) >>= λ buf.
    if leb (length bytes) writable
    then some (record b { buffer = buf; writer_index = add_size b.writer_index (length bytes) })
    else spill (record b { buffer = buf; writer_index = length buf }) (drop writable bytes)

unfoldable pub read_fd : MsgBuffer → (List ℕ → Received) → Option (Received × MsgBuffer)
read_fd b readv = elim (readv (areas (writable_bytes b))) [
  | failed errno ↦ some (failed errno, b)
  | received bytes ↦ take_in b bytes >>= λ b'. some (received bytes, b')
]

take_in_spills :
    (b full b' : MsgBuffer) (bytes : List ℕ)
    → writable_bytes b < length bytes
    → copy_to b.buffer b.writer_index (take (writable_bytes b) bytes) ≡ some full.buffer
    → full ≡ record b { buffer = full.buffer; writer_index = length full.buffer }
    → length (drop (writable_bytes b) bytes) ≤ extra_size
    → append full (drop (writable_bytes b) bytes) ≡ some b'
    → take_in b bytes ≡ some b'
unfolding take_in spill
take_in_spills b full b' bytes h copied same small done =
    ground (
      arith,
      copied,
      h,
      small,
      sym (ap (λ f. append f (drop (writable_bytes b) bytes)) same) ∙ done,
    )

module _ {b : MsgBuffer} (v : IsValid b) where
  take_in_short :
      (bytes : List ℕ)
      → length bytes ≤ writable_bytes b
      → Yields (take_in b bytes) (contents b ++ bytes)
  unfolding take_in
  take_in_short bytes h =
      let room : b.writer_index + length bytes ≤ length b.buffer =
        omega (arith, writable_bytes-eq v, v) in
      let (valid, whole) = written_lem bytes v room in
      (
        written b bytes,
        ground (arith, h, take_all (writable_bytes b) bytes h, room, v),
        valid,
        whole,
      )

  abbrev filled : List ℕ → MsgBuffer
  filled bytes = written b (take (writable_bytes b) bytes)

  filled-index :
      (bytes : List ℕ)
      → writable_bytes b < length bytes
      → (filled bytes).writer_index ≡ length b.buffer
  filled-index bytes h = omega (arith, length-take (writable_bytes b) bytes, writable_bytes-eq v, v)

  take_in_long :
      (bytes : List ℕ)
      → writable_bytes b < length bytes
      → length bytes ≤ writable_bytes b + extra_size
      → b.writer_index + length bytes ≤ max_size
      → Yields (take_in b bytes) (contents b ++ bytes)
  take_in_long bytes h small fits =
      let first : List ℕ = take (writable_bytes b) bytes in
      let extra : List ℕ = drop (writable_bytes b) bytes in
      let index = filled-index bytes h in
      let room : b.writer_index + length first ≤ length b.buffer = omega (arith, index) in
      let (valid, whole) = written_lem first v room in
      let rest = length-drop (writable_bytes b) bytes in
      let (b', done, valid', all) =
        append_lem extra valid (omega (arith, index, rest, writable_bytes-eq v)) in
      (
        b',
        take_in_spills b (filled bytes) b' bytes h (ground (arith, room))
            (ap (λ w. record b { buffer = (filled bytes).buffer; writer_index = w })
              (index ∙ sym (length-copied b.buffer b.writer_index first room)))
            (omega (arith, rest)) done,
        valid',
        all
            ∙ ap (λ xs. xs ++ extra) whole
            ∙ append_assoc (contents b) first extra
            ∙ ap (◌++◌ (contents b)) (take-append-drop (writable_bytes b) bytes),
      )

  total-areas : (n : ℕ) → total (areas n) ≤ n + extra_size
  unfolding areas
  total-areas n = ground arith

  take_in_lem :
      (bytes : List ℕ)
      → length bytes ≤ total (areas (writable_bytes b))
      → b.writer_index + length bytes ≤ max_size
      → Yields (take_in b bytes) (contents b ++ bytes)
  take_in_lem bytes h fits = elim (dec_le (length bytes) (writable_bytes b)) [
    | yes short ↦ take_in_short bytes short
    | no long ↦
        take_in_long bytes (omega arith) (omega (arith, total-areas (writable_bytes b))) fits
  ]

  -- On a valid buffer, what readv gives is appended to the contents in its order, also the part
  -- that came by the stack buffer, and the buffer stays valid; readv gives no more than it has
  -- areas for, and the limit of a vector is not exceeded.
  pub read_fd_lem :
      (readv : List ℕ → Received) (bytes : List ℕ)
      → readv (areas (writable_bytes b)) ≡ received bytes
      → length bytes ≤ total (areas (writable_bytes b))
      → b.writer_index + length bytes ≤ max_size
      → (b' : MsgBuffer) × (read_fd b readv ≡ some (received bytes, b'))
        × IsValid b'
        × (contents b' ≡ contents b ++ bytes)
  unfolding read_fd
  read_fd_lem readv bytes e h fits =
      let (b', done, valid, whole) = take_in_lem bytes h fits in
      (b', ground (arith, e, done), valid, whole)

  -- A failed read keeps the buffer as it is, and hands `errno` on.
  pub read_fd-failed :
      (readv : List ℕ → Received) (errno : ℕ)
      → readv (areas (writable_bytes b)) ≡ failed errno
      → read_fd b readv ≡ some (failed errno, b)
  unfolding read_fd
  read_fd-failed readv errno e = ground (arith, e)
