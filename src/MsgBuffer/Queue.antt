-- ===== src/MsgBuffer/Queue.antt =====
-- A buffer as a queue of bytes, over any sequence of operations: network/base/MsgBuffer.h, lines 123 to
-- 192.
use mathlib.Core.Option
use wl_tmm.Prelude.{
  ℕ, ◌+◌, ◌≤◌, ◌≡◌, refl, ap, ◌∙◌, Option, none, some, List, [], ◌∷◌, ◌++◌, true, false, leb,
  length, drop, arith, if◌then◌else◌, ◌>>=◌, inl, inr, Bool-cases, leb→le,
}
use wl_tmm.MsgBuffer.{
  MsgBuffer, max_size, cheap_prepend, append, retrieve, retrieve_all, readable_bytes,
}
use wl_tmm.MsgBuffer.Contents.{
  contents, IsValid, retrieve_lem, retrieve_all-IsValid, contents-retrieve_all, retrieve-eq-none,
  length-contents,
}
use wl_tmm.MsgBuffer.Append.{append-advance}

pub data Op : Type 0 where
  put : List ℕ → Op
  skip : ℕ → Op
  skip_all : Op

-- The operations in turn; `none` is a failed assertion.
unfoldable pub run : List Op → MsgBuffer → Option MsgBuffer
run [] b = some b
run (put src ∷ ops) b = append b src >>= run ops
run (skip n ∷ ops) b = retrieve b n >>= run ops
run (skip_all ∷ ops) b = run ops (retrieve_all b)

-- The specification: a list of bytes, which cannot give more than it has.
unfoldable pub replay : List Op → List ℕ → Option (List ℕ)
replay [] xs = some xs
replay (put src ∷ ops) xs = replay ops (xs ++ src)
replay (skip n ∷ ops) xs = if leb n (length xs) then replay ops (drop n xs) else none
replay (skip_all ∷ ops) xs = replay ops []

-- The bytes that the operations put in.
abbrev pub total : List Op → ℕ
total [] = 0
total (put src ∷ ops) = length src + total ops
total (_ ∷ ops) = total ops

retrieve_all-writer :
    (b : MsgBuffer) (w : ℕ) → cheap_prepend ≤ w → (retrieve_all b).writer_index ≤ w
unfolding retrieve_all
retrieve_all-writer b w eight = eight

retrieve-writer :
    (b b' : MsgBuffer) (n w : ℕ)
    → retrieve b n ≡ some b'
    → b.writer_index ≤ w
    → cheap_prepend ≤ w
    → b'.writer_index ≤ w
unfolding retrieve retrieve_all
retrieve-writer b b' n w e low eight = ground (arith, e)

-- Skipping bytes, for what follows on the buffer that is left.
run-skip :
    {b : MsgBuffer} (n w : ℕ) (ops : List Op)
    → IsValid b
    → b.writer_index ≤ w
    → cheap_prepend ≤ w
    → ((b' : MsgBuffer)
        → IsValid b'
        → b'.writer_index ≤ w
        → Option.map contents (run ops b') ≡ replay ops (contents b'))
    → Option.map contents (run (skip n ∷ ops) b) ≡ replay (skip n ∷ ops) (contents b)
unfolding run replay
run-skip {b} n w ops v low eight next = elim (Bool-cases (leb n (readable_bytes b))) [
  | inl enough ↦
      let (b', made, valid, whole) = retrieve_lem v n (leb→le n (readable_bytes b) enough) in
      let fits : leb n (length (contents b)) ≡ true = ground (arith, enough, length-contents v) in
      ap (λ m. Option.map contents (m >>= run ops)) made
      ∙ next b' valid (retrieve-writer b b' n w made low eight)
      ∙ ap (replay ops) whole
      ∙ ground (arith, fits)
  | inr short ↦
      let less : leb n (length (contents b)) ≡ false = ground (arith, short, length-contents v) in
      let failed = retrieve-eq-none v n (ground (arith, short)) in
      ap (λ m. Option.map contents (m >>= run ops)) failed ∙ ground (arith, less)
]

run-replay_below :
    (ops : List Op) (b : MsgBuffer) (w : ℕ)
    → IsValid b
    → b.writer_index ≤ w
    → cheap_prepend ≤ w
    → w + total ops ≤ max_size
    → Option.map contents (run ops b) ≡ replay ops (contents b)
unfolding run replay
run-replay_below [] b w v low eight fits = refl
run-replay_below (put src ∷ ops) b w v low eight fits =
    let (b', made, valid, whole, advance) = append-advance src v (omega (arith, low, fits)) in
    ap (λ m. Option.map contents (m >>= run ops)) made
    ∙ run-replay_below ops b' (w + length src) valid (omega (arith, advance, low))
        (omega (arith, eight)) (omega (arith, fits))
    ∙ ap (replay ops) whole
run-replay_below (skip n ∷ ops) b w v low eight fits =
    run-skip n w ops v low eight (λ b' v' low'. run-replay_below ops b' w v' low' eight fits)
run-replay_below (skip_all ∷ ops) b w v low eight fits =
    run-replay_below ops (retrieve_all b) w (retrieve_all-IsValid v) (retrieve_all-writer b w eight)
      eight fits
    ∙ ap (replay ops) (contents-retrieve_all v)

-- Any sequence of append, retrieve and retrieveAll on a valid buffer gives the bytes that a queue
-- of bytes gives, and fails an assertion exactly where that has fewer bytes than are retrieved,
-- while the writer index, the headroom and the appended bytes together are within the limit of a
-- vector.
pub run-replay :
    (ops : List Op) (b : MsgBuffer)
    → IsValid b
    → b.writer_index + cheap_prepend + total ops ≤ max_size
    → Option.map contents (run ops b) ≡ replay ops (contents b)
run-replay ops b v fits =
    run-replay_below ops b (b.writer_index + cheap_prepend) v (omega arith) (omega arith) fits
