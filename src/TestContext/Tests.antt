-- ===== src/TestContext/Tests.antt =====
-- The theorems at concrete buffers: network/TestContext.cc.
use wl_tmm.Prelude.{ℕ, ◌≡◌, refl, List, [], ◌∷◌, ◌++◌, arith, replicate, true}
use wl_tmm.Endian.{bytes_le}
use wl_tmm.MsgBuffer.{MsgBuffer, readable_bytes}
use wl_tmm.MsgBuffer.Contents.{IsValid, contents}
use wl_tmm.TestContext.{
  TestContext, body, returned, running, parse_message, new_context, set_test_message_callback,
}
use wl_tmm.TestContext.Frames.{IsReady, parse_message-frames}
use wl_tmm.TestContext.Stall.{parse_message-short_body}

-- The messages "a" and "bc".
messages : List (List ℕ)
messages = (97 ∷ []) ∷ (98 ∷ 99 ∷ []) ∷ []

stream : MsgBuffer
stream = record {
  buffer = replicate 8 0 ++ 0 ∷ 0 ∷ 0 ∷ 1 ∷ 97 ∷ 0 ∷ 0 ∷ 0 ∷ 2 ∷ 98 ∷ 99 ∷ [];
  reader_index = 8;
  writer_index = 19;
}

listening : TestContext
unfolding new_context set_test_message_callback
listening = set_test_message_callback new_context true

parse_message-frames_example :
    (c : TestContext) × (b : MsgBuffer) × (parse_message 5 listening stream ≡ returned 0 c b)
    × (c.delivered ≡ listening.delivered ++ messages)
    × IsReady c
    × IsValid b
    × (contents b ≡ [])
unfolding listening stream messages bytes_le contents
parse_message-frames_example =
    parse_message-frames messages 5 listening stream
      (record { at_header = refl; listening = refl; no_body = refl }) (omega arith) (omega arith)
      refl (omega arith)

-- A message of three bytes of which the stream's start has come.
waiting : TestContext
unfolding listening
waiting = record listening { state = body; message_length = 30 }

parse_message-short_body_example : parse_message 1000 waiting stream ≡ running
unfolding waiting stream readable_bytes
parse_message-short_body_example =
    parse_message-short_body waiting stream 1000 refl (omega arith) (omega arith)
