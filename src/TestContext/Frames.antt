-- ===== src/TestContext/Frames.antt =====
-- Whole messages: network/TestContext.cc, lines 10 to 47.
use wl_tmm.Prelude.{
  ℕ, zero, suc, ◌*◌, ◌^◌, ◌≤◌, ◌<◌, ◌≡◌, refl, ap, sym, ◌∙◌, List, [], ◌∷◌, ◌++◌, true, length,
  take, drop, length-append, take-append_eq, drop-append_eq, arith, append_assoc, append-nil,
}
use wl_tmm.MsgBuffer.{MsgBuffer, readable_bytes}
use wl_tmm.MsgBuffer.Ints.{peek_bytes}
use wl_tmm.MsgBuffer.Contents.{contents, IsValid, length-contents, retrieve_lem}
use wl_tmm.MsgBuffer.NetworkOrder.{
  network_bytes, length-network_bytes, read_int32_lem, peek_bytes_lem,
}
use wl_tmm.TestContext.{
  TestContext, header, body, again, read_header, read_body, deliver, round, returned, parse_message,
}

-- A message as it travels: its length in four bytes, and its bytes.
abbrev pub frame : List ℕ → List ℕ
frame m = network_bytes 4 (length m) ++ m

abbrev pub frames : List (List ℕ) → List ℕ
frames [] = []
frames (m ∷ ms) = frame m ++ frames ms

-- No message is empty, and every length is an int32_t.
abbrev pub AllSendable : List (List ℕ) → Type 0
AllSendable [] = Unit {0}
AllSendable (m ∷ ms) = (0 < length m) × (length m < 2 ^ 31) × AllSendable ms

-- A parser between two messages, with a callback.
pub record IsReady (c : TestContext) : Type 0 where
  pub at_header : c.state ≡ header
  pub listening : c.has_callback ≡ true
  pub no_body : c.message_body ≡ []

module _ {b : MsgBuffer} (v : IsValid b) (m rest : List ℕ) where
  -- A header's round.
  header_round :
      (c : TestContext)
      → c.state ≡ header
      → length m < 2 ^ 31
      → contents b ≡ frame m ++ rest
      → (b' : MsgBuffer) × (round c b
          ≡ again (record c { message_length = length m; state = body }) b')
        × IsValid b'
        × (contents b' ≡ m ++ rest)
  unfolding round read_header
  header_round c s small e =
      let whole = e ∙ append_assoc (network_bytes 4 (length m)) m rest in
      let (b', done, valid, left) = read_int32_lem v (length m) (m ++ rest) (omega arith) whole in
      let enough : 4 ≤ readable_bytes b = omega (
        arith,
        length-contents v,
        ap length whole,
        length-append (network_bytes 4 (length m)) (m ++ rest),
        length-network_bytes 4 (length m),
      ) in
      (b', ground (arith, s, done, enough), valid, left)

  -- A body's round.
  body_round :
      (c : TestContext)
      → c.state ≡ body
      → c.message_length ≡ length m
      → length m < 2 ^ 31
      → contents b ≡ m ++ rest
      → (b' : MsgBuffer) × (round c b ≡ again (deliver c m) b') × IsValid b' × (contents b' ≡ rest)
  unfolding round read_body peek_bytes
  body_round c s len small e =
      let enough : length m ≤ readable_bytes b =
        omega (arith, length-contents v, ap length e, length-append m rest) in
      let (b', done, valid, left) = retrieve_lem v (length m) enough in
      let seen = peek_bytes_lem (length m) v enough in
      (
        b',
        ground (
          arith,
          s,
          len,
          done,
          enough,
          seen,
          ap (take (length m)) e,
          take-append_eq (length m) m rest refl,
        ),
        valid,
        left ∙ ap (drop (length m)) e ∙ drop-append_eq (length m) m rest refl,
      )

parse_message-again :
    (c c' : TestContext) (b b' : MsgBuffer) (fuel : ℕ)
    → 0 < readable_bytes b
    → round c b ≡ again c' b'
    → parse_message (suc fuel) c b ≡ parse_message fuel c' b'
unfolding parse_message
parse_message-again c c' b b' fuel some_left e = ground (arith, some_left, e)

parse_message-empty :
    (c : TestContext) (b : MsgBuffer) (fuel : ℕ)
    → IsValid b
    → contents b ≡ []
    → parse_message (suc fuel) c b ≡ returned 0 c b
unfolding parse_message
parse_message-empty c b fuel v e = ground (arith, length-contents v, ap length e)

deliver-IsReady :
    (c : TestContext) (n : ℕ) (m : List ℕ)
    → IsReady c
    → let c' = deliver (record c { message_length = n; state = body }) m in
      IsReady c' × (c'.delivered ≡ c.delivered ++ m ∷ [])
unfolding deliver
deliver-IsReady c n m r = ground (arith, r)

-- A call on a valid buffer that holds whole non-empty messages, each below 2^31 bytes, ends within
-- two rounds for a message and one more, empties the buffer and gives the callback these messages
-- in their order; the parser is between messages, with a callback and no body, before and after.
pub parse_message-frames :
    (ms : List (List ℕ)) (fuel : ℕ) (c : TestContext) (b : MsgBuffer)
    → IsReady c
    → IsValid b
    → AllSendable ms
    → contents b ≡ frames ms
    → 2 * length ms < fuel
    → (c' : TestContext) × (b' : MsgBuffer) × (parse_message fuel c b ≡ returned 0 c' b')
      × (c'.delivered ≡ c.delivered ++ ms)
      × IsReady c'
      × IsValid b'
      × (contents b' ≡ [])
parse_message-frames [] zero c b r v s e h = absurd (omega arith)
parse_message-frames [] (suc fuel) c b r v s e h =
    (c, b, parse_message-empty c b fuel v e, sym (append-nil c.delivered), r, v, e)
parse_message-frames (m ∷ ms) zero c b r v s e h = absurd (omega arith)
parse_message-frames (m ∷ ms) (suc zero) c b r v s e h = absurd (omega arith)
parse_message-frames (m ∷ ms) (suc (suc fuel)) c b r v s e h =
    let (b1, first, v1, e1) = header_round v m (frames ms) c r.at_header s.1 e in
    let c1 : TestContext = record c { message_length = length m; state = body } in
    let (b2, second, v2, e2) = body_round v1 m (frames ms) c1 refl refl s.1 e1 in
    let (r2, d2) = deliver-IsReady c (length m) m r in
    let (c', b', run, d, r', v', e') =
      parse_message-frames ms fuel (deliver c1 m) b2 r2 v2 s.2 e2 (omega arith) in
    let left : 0 < readable_bytes b = omega (
      arith,
      length-contents v,
      ap length e,
      length-append (frame m) (frames ms),
      length-append (network_bytes 4 (length m)) m,
      s.0,
    ) in
    let left1 : 0 < readable_bytes b1 =
      omega (arith, length-contents v1, ap length e1, length-append m (frames ms), s.0) in
    (
      c',
      b',
      parse_message-again c c1 b b1 (suc fuel) left first
          ∙ parse_message-again c1 (deliver c1 m) b1 b2 fuel left1 second
          ∙ run,
      d ∙ ap (λ xs. xs ++ ms) d2 ∙ append_assoc c.delivered (m ∷ []) ms,
      r',
      v',
      e',
    )
