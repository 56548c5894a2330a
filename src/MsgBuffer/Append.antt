-- ===== src/MsgBuffer/Append.antt =====
-- Writing at the end of a buffer: network/base/MsgBuffer.h, lines 182 to 217 and 361 to 380.
use wl_tmm.Prelude.{
  ℕ, ◌+◌, ◌-◌, ◌≤◌, ◌<◌, ◌≡◌, refl, ap, ◌∙◌, some, List, ◌++◌, length, take, drop, length-take,
  length-drop, take-append_le, drop-append_le, drop-append_eq, arith, ltb, ltb→lt, length-append,
  length-replicate, Bool-cases, inl, inr, replicate,
}
use wl_tmm.MsgBuffer.{
  MsgBuffer, max_size, cheap_prepend, writable_bytes, ensure_writable_bytes, make_space,
  move_to_front, append,
}
use wl_tmm.MsgBuffer.Contents.{
  contents, IsValid, Yields, readable_bytes-eq, writable_bytes-eq, length-contents, length-copied,
  take-copied,
}

-- A buffer with `n` free bytes behind the writer index, and the same contents as `b`.
pub record Roomy (b : MsgBuffer) (n : ℕ) (b' : MsgBuffer) : Type 0 where
  pub valid : IsValid b'
  pub room : b'.writer_index + n ≤ length b'.buffer
  pub same : contents b' ≡ contents b
  pub advance : b'.writer_index ≤ b.writer_index

module _ {b : MsgBuffer} (v : IsValid b) where
  abbrev grown : ℕ → MsgBuffer
  grown n = record b { buffer = b.buffer ++ replicate (b.writer_index + n - length b.buffer) 0 }

  grown-Roomy :
      (n : ℕ)
      → b.writer_index + n ≤ max_size
      → length b.buffer ≤ b.writer_index + n
      → Roomy b n (grown n)
  unfolding contents
  grown-Roomy n fits more =
      let added = b.writer_index + n - length b.buffer in
      let total = length-append b.buffer (replicate added 0) in
      let new = length-replicate {A = ℕ} added 0 in
      record {
        valid = omega (arith, total, new);
        room = omega (arith, total, new);
        same = ap (drop b.reader_index) (take-append_le b.writer_index b.buffer _ v.within);
        advance = omega arith;
      }

  abbrev moved : MsgBuffer
  moved = record {
    buffer =
        take cheap_prepend b.buffer
        ++ (contents b ++ drop (cheap_prepend + length (contents b)) b.buffer);
    reader_index = cheap_prepend;
    writer_index = cheap_prepend + length (contents b);
  }

  moved-Roomy :
      (n : ℕ)
      → cheap_prepend ≤ b.reader_index
      → length (contents b) + n + cheap_prepend ≤ length b.buffer
      → Roomy b n moved
  unfolding contents
  moved-Roomy n low fits =
      let inside : cheap_prepend + length (contents b) ≤ length b.buffer = omega (arith, fits) in
      let total = length-copied b.buffer cheap_prepend (contents b) inside in
      record {
        valid = omega (arith, total);
        room = omega (arith, total);
        same =
            ap (drop cheap_prepend) (take-copied b.buffer cheap_prepend (contents b) inside)
            ∙ drop-append_eq cheap_prepend (take cheap_prepend b.buffer) (contents b)
                (omega (arith, length-take cheap_prepend b.buffer));
        advance = omega (arith, low, length-contents v, readable_bytes-eq v, v.ordered);
      }

  -- The assertions of the compaction hold whenever it is chosen.
  move_to_front_lem : cheap_prepend < b.reader_index → move_to_front b ≡ some moved
  unfolding move_to_front contents
  move_to_front_lem low = ground (
    arith,
    length-drop b.reader_index (take b.writer_index b.buffer),
    length-take b.writer_index b.buffer,
  )

  -- Asking for room succeeds unless the vector would outgrow its limit, and keeps the contents.
  pub make_space_lem :
      (n : ℕ)
      → writable_bytes b < n
      → b.writer_index + n ≤ max_size
      → (b' : MsgBuffer) × (make_space b n ≡ some b') × Roomy b n b'
  unfolding make_space
  make_space_lem n short fits =
      elim (Bool-cases (ltb (writable_bytes b + b.reader_index) (n + cheap_prepend))) [
        | inl tight ↦ (
          grown n,
          ground (arith, writable_bytes-eq v, tight),
          grown-Roomy n fits (omega (arith, writable_bytes-eq v)),
        )
        | inr loose ↦
            let low : cheap_prepend < b.reader_index = ground (arith, writable_bytes-eq v, loose) in
            (
              moved,
              ground (arith, writable_bytes-eq v, loose, move_to_front_lem low),
              moved-Roomy n (omega arith) (
                  ground
                    (arith, loose, writable_bytes-eq v, length-contents v, readable_bytes-eq v)),
            )
      ]

  pub ensure_writable_bytes_lem :
      (n : ℕ)
      → b.writer_index + n ≤ max_size
      → (b' : MsgBuffer) × (ensure_writable_bytes b n ≡ some b') × Roomy b n b'
  unfolding ensure_writable_bytes
  ensure_writable_bytes_lem n fits = elim (Bool-cases (ltb (writable_bytes b) n)) [
    | inl short ↦
        let (b', made, ok) = make_space_lem n (ltb→lt (writable_bytes b) n short) fits in
        (b', ground (arith, short, made, writable_bytes-eq ok.valid, ok.room), ok)
    | inr enough ↦ (
      b,
      ground (arith, enough),
      record {
        valid = v;
        room = ground (arith, enough, writable_bytes-eq v);
        same = refl;
        advance = omega arith;
      },
    )
  ]

-- `src` copied behind the writer index, and the index moved past it.
abbrev pub written : MsgBuffer → List ℕ → MsgBuffer
written b src = record b {
  buffer = take b.writer_index b.buffer ++ (src ++ drop (b.writer_index + length src) b.buffer);
  writer_index = b.writer_index + length src;
}

pub written_lem :
    {b : MsgBuffer} (src : List ℕ)
    → IsValid b
    → b.writer_index + length src ≤ length b.buffer
    → IsValid (written b src) × (contents (written b src) ≡ contents b ++ src)
unfolding contents
written_lem {b} src v room = (
  omega (arith, length-copied b.buffer b.writer_index src room),
  ap (drop b.reader_index) (take-copied b.buffer b.writer_index src room)
      ∙ drop-append_le b.reader_index (take b.writer_index b.buffer) src
          (omega (arith, length-take b.writer_index b.buffer)),
)

append_when-Roomy :
    {b b' : MsgBuffer} (src : List ℕ)
    → ensure_writable_bytes b (length src) ≡ some b'
    → Roomy b (length src) b'
    → append b src ≡ some (written b' src)
unfolding append
append_when-Roomy {b} {b'} src made ok =
    ground (arith, made, ok.room, ok.valid, length-copied b'.buffer b'.writer_index src ok.room)

-- The writer index advances by no more than the length, whether or not the bytes are moved.
pub append-advance :
    {b : MsgBuffer} (src : List ℕ)
    → IsValid b
    → b.writer_index + length src ≤ max_size
    → (b' : MsgBuffer) × (append b src ≡ some b')
      × IsValid b'
      × (contents b' ≡ contents b ++ src)
      × (b'.writer_index ≤ b.writer_index + length src)
append-advance {b} src v fits =
    let (b', made, ok) = ensure_writable_bytes_lem v (length src) fits in
    let (valid, whole) = written_lem src ok.valid ok.room in
    (
      written b' src,
      append_when-Roomy src made ok,
      valid,
      whole ∙ ap (λ xs. xs ++ src) ok.same,
      omega (arith, ok.advance),
    )

-- On a valid buffer, unless the writer index plus the length exceeds the limit of a vector, append
-- succeeds, puts the data behind the contents and leaves a valid buffer.
pub append_lem :
    {b : MsgBuffer} (src : List ℕ)
    → IsValid b
    → b.writer_index + length src ≤ max_size
    → Yields (append b src) (contents b ++ src)
append_lem src v fits =
    let (b', made, valid, whole, advance) = append-advance src v fits in (b', made, valid, whole)
