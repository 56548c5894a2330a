-- ===== src/TestContext.antt =====
-- network/TestContext.cc: the parser of length-prefixed messages. The loop takes fuel. The
-- callback is an entry of `delivered`; `std::cout` is left out.
pub mod Frames
pub mod Stall
mod Tests
use wl_tmm.Prelude.{
  ℕ, zero, suc, ◌+◌, ◌-◌, ◌^◌, Option, none, some, List, [], ◌∷◌, ◌++◌, Bool, true, false, leb, ltb,
  if◌then◌else◌,
}
use wl_tmm.MsgBuffer.{MsgBuffer, readable_bytes, peek, read_range, retrieve}
use wl_tmm.MsgBuffer.Ints.{read_int32}

-- `state_`: kTestContextHeader or kTestContextBody.
pub data State : Type 0 where
  header body : State

-- `message_length` is the bit pattern of an int32_t; `has_callback` says whether `cb_` is set.
pub record TestContext : Type 0 where
  pub state : State
  pub message_length : ℕ
  pub message_body : List ℕ
  pub has_callback : Bool
  pub delivered : List (List ℕ)

-- An int32_t converted to size_t.
abbrev pub int32_to_size : ℕ → ℕ
int32_to_size n = if ltb n (2 ^ 31) then n else 2 ^ 64 - 2 ^ 32 + n

-- A round of the loop: it goes on, the function returns, or an assertion fails.
pub data Round : Type 0 where
  again : TestContext → MsgBuffer → Round
  return : ℕ → Round
  aborted : Round

unfoldable pub read_header : TestContext → MsgBuffer → Round
read_header c b =
    if leb 4 (readable_bytes b)
    then elim (read_int32 b) [
      | none ↦ aborted
      | some (n, b') ↦ again (record c { message_length = n; state = body }) b'
    ]
    else return 1

-- The body has arrived: `tmp` is its bytes.
unfoldable pub deliver : TestContext → List ℕ → TestContext
deliver c tmp =
    if c.has_callback
    then record c {
      delivered = c.delivered ++ (c.message_body ++ tmp) ∷ [];
      message_body = [];
      message_length = 0;
      state = header;
    }
    else record c { message_body = c.message_body ++ tmp; message_length = 0; state = header }

unfoldable pub read_body : TestContext → MsgBuffer → Round
read_body c b =
    let size = int32_to_size c.message_length in
    if leb size (readable_bytes b)
    then elim (read_range b.buffer (peek b) (peek b + size)) [
      | none ↦ aborted
      | some tmp ↦ elim (retrieve b size) [ none ↦ aborted | some b' ↦ again (deliver c tmp) b' ]
    ]
    else again c b

unfoldable pub round : TestContext → MsgBuffer → Round
round c b = elim c.state [ header ↦ read_header c b | body ↦ read_body c b ]

-- What a call does: it returns its value with the new state, aborts, or has not ended within the
-- fuel.
pub data Outcome : Type 0 where
  returned : ℕ → TestContext → MsgBuffer → Outcome
  crashed : Outcome
  running : Outcome

unfoldable pub parse_message : ℕ → TestContext → MsgBuffer → Outcome
parse_message zero c b = running
parse_message (suc fuel) c b = elim (ltb 0 (readable_bytes b)) [
  | false ↦ returned 0 c b
  | true ↦ elim (round c b) [
    | again c' b' ↦ parse_message fuel c' b'
    | return n ↦ returned n c b
    | aborted ↦ crashed
  ]
]

unfoldable pub set_test_message_callback : TestContext → Bool → TestContext
set_test_message_callback c cb = record c { has_callback = cb }

unfoldable pub new_context : TestContext
new_context = record {
  state = header;
  message_length = 0;
  message_body = [];
  has_callback = false;
  delivered = [];
}
