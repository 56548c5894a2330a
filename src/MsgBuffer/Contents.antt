-- ===== src/MsgBuffer/Contents.antt =====
-- The readable bytes of a buffer as a list, the invariant of its indices, and the operations that
-- take bytes out: network/base/MsgBuffer.h, lines 63 to 80, 123 to 180 and 213 to 223.
use wl_tmm.Prelude.{
  ℕ, ◌+◌, ◌-◌, ◌≤◌, ◌<◌, ◌≡◌, sym, ◌∙◌, Option, none, some, List, [], ◌++◌, length, take, drop,
  length-take, length-drop, take-append_eq, drop-drop, drop_all, append_assoc, arith, ltb, ltb→lt,
  length-append, Bool-cases, inl, inr,
}
use wl_tmm.MsgBuffer.{
  MsgBuffer, max_size, cheap_prepend, readable_bytes, writable_bytes, retrieve, retrieve_all,
  copy_to,
}

-- What the reader has not consumed.
unfoldable pub contents : MsgBuffer → List ℕ
contents b = drop b.reader_index (take b.writer_index b.buffer)

pub record IsValid (b : MsgBuffer) : Type 0 where
  pub ordered : b.reader_index ≤ b.writer_index
  pub within : b.writer_index ≤ length b.buffer
  pub headroom : cheap_prepend ≤ length b.buffer
  pub bounded : length b.buffer ≤ max_size

module _ {b : MsgBuffer} (v : IsValid b) where
  pub readable_bytes-eq : readable_bytes b ≡ b.writer_index - b.reader_index
  unfolding readable_bytes
  readable_bytes-eq = omega arith

  pub writable_bytes-eq : writable_bytes b ≡ length b.buffer - b.writer_index
  unfolding writable_bytes
  writable_bytes-eq = omega arith

  -- `readableBytes` counts the contents.
  pub length-contents : length (contents b) ≡ readable_bytes b
  unfolding contents
  length-contents = omega (
    arith,
    readable_bytes-eq,
    length-drop b.reader_index (take b.writer_index b.buffer),
    length-take b.writer_index b.buffer,
  )

  pub retrieve_all-IsValid : IsValid (retrieve_all b)
  unfolding retrieve_all
  retrieve_all-IsValid = omega arith

  pub contents-retrieve_all : contents (retrieve_all b) ≡ []
  unfolding retrieve_all contents
  contents-retrieve_all = drop_all 8 (take 8 b.buffer) (omega (arith, length-take 8 b.buffer))

-- Copying `src` behind the writer index, within the vector.
pub copy_to-fits :
    (buf : List ℕ) (at : ℕ) (src : List ℕ)
    → at + length src ≤ length buf
    → copy_to buf at src ≡ some (take at buf ++ (src ++ drop (at + length src) buf))
copy_to-fits buf at src h = ground arith

pub length-copied :
    (buf : List ℕ) (at : ℕ) (src : List ℕ)
    → at + length src ≤ length buf
    → length (take at buf ++ (src ++ drop (at + length src) buf)) ≡ length buf
length-copied buf at src h = omega (
  arith,
  length-append (take at buf) (src ++ drop (at + length src) buf),
  length-append src (drop (at + length src) buf),
  length-take at buf,
  length-drop (at + length src) buf,
)

pub take-copied :
    (buf : List ℕ) (at : ℕ) (src : List ℕ)
    → at + length src ≤ length buf
    → take (at + length src) (take at buf ++ (src ++ drop (at + length src) buf))
      ≡ take at buf ++ src
take-copied buf at src h = rw (← append_assoc (take at buf) src (drop (at + length src) buf)) (
    take-append_eq (at + length src) (take at buf ++ src) _
      (omega (arith, length-append (take at buf) src, length-take at buf)))

-- An operation succeeds, on a valid buffer that holds `xs`.
abbrev pub Yields : Option MsgBuffer → List ℕ → Type 0
Yields r xs = (b : MsgBuffer) × (r ≡ some b) × IsValid b × (contents b ≡ xs)

module _ {b : MsgBuffer} (v : IsValid b) where
  -- On a valid buffer, consuming at most the readable bytes succeeds, drops them from the front of
  -- the contents, and leaves a valid buffer.
  pub retrieve_lem :
      (len : ℕ) → len ≤ readable_bytes b → Yields (retrieve b len) (drop len (contents b))
  unfolding retrieve contents
  retrieve_lem len h = elim (Bool-cases (ltb len (readable_bytes b))) [
    | inl part ↦ (
      record b { reader_index = b.reader_index + len },
      ground (arith, readable_bytes-eq v),
      omega (arith, readable_bytes-eq v, ltb→lt len (readable_bytes b) part),
      sym (drop-drop len b.reader_index (take b.writer_index b.buffer)),
    )
    | inr all ↦ (
      retrieve_all b,
      ground arith,
      retrieve_all-IsValid v,
      contents-retrieve_all v ∙ sym (drop_all len (contents b) (ground (arith, length-contents v))),
    )
  ]

  -- Consuming more fails the assertion.
  pub retrieve-eq-none : (len : ℕ) → readable_bytes b < len → retrieve b len ≡ none
  unfolding retrieve
  retrieve-eq-none len h = ground arith
