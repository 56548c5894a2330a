-- ===== src/TestContext/Stall.antt =====
-- Incomplete messages: network/TestContext.cc, lines 12 to 45. A short header ends the call; a short
-- body does not.
use wl_tmm.Prelude.{ℕ, zero, suc, ◌<◌, ◌≡◌, refl, arith}
use wl_tmm.MsgBuffer.{MsgBuffer, readable_bytes}
use wl_tmm.TestContext.{
  TestContext, header, body, int32_to_size, read_header, read_body, round, returned, running,
  parse_message,
}

-- A call that starts between messages with fewer than the four bytes of a header returns 1 and
-- leaves the parser and the buffer as they are.
pub parse_message-short_header :
    (c : TestContext) (b : MsgBuffer) (fuel : ℕ)
    → c.state ≡ header
    → 0 < readable_bytes b
    → readable_bytes b < 4
    → parse_message (suc fuel) c b ≡ returned 1 c b
unfolding parse_message round read_header
parse_message-short_header c b fuel s some_left short = ground (arith, s)

-- In the body state, with some bytes but fewer than the length of the message, a call never ends:
-- it is still running whatever the fuel.
pub parse_message-short_body :
    (c : TestContext) (b : MsgBuffer) (fuel : ℕ)
    → c.state ≡ body
    → 0 < readable_bytes b
    → readable_bytes b < int32_to_size c.message_length
    → parse_message fuel c b ≡ running
unfolding parse_message round read_body
parse_message-short_body c b zero s some_left short = refl
parse_message-short_body c b (suc fuel) s some_left short =
    ground (arith, s, some_left, short, parse_message-short_body c b fuel s some_left short)
