-- ===== src/MsgBuffer/Ints.antt =====
-- Integers in network order: network/base/MsgBuffer.h, lines 143 to 161, 225 to 337. An integer is
-- its bit pattern.
use wl_tmm.Prelude.{ℕ, ◌+◌, Option, some, List, get_elem?, leb, ◌>>=◌, ◌>>◌, assert}
use wl_tmm.Endian.{
  bytes_le, from_le, host_to_network64, host_to_network32, host_to_network16, network_to_host64,
  network_to_host32, network_to_host16,
}
use wl_tmm.MsgBuffer.{MsgBuffer, readable_bytes, read_range, peek, retrieve, append, prepend}

unfoldable pub retrieve_int64 : MsgBuffer → Option MsgBuffer
retrieve_int64 b = retrieve b 8

unfoldable pub retrieve_int32 : MsgBuffer → Option MsgBuffer
retrieve_int32 b = retrieve b 4

unfoldable pub retrieve_int16 : MsgBuffer → Option MsgBuffer
retrieve_int16 b = retrieve b 2

unfoldable pub retrieve_int8 : MsgBuffer → Option MsgBuffer
retrieve_int8 b = retrieve b 1

unfoldable pub append_int8 : MsgBuffer → ℕ → Option MsgBuffer
unfolding bytes_le
append_int8 b x = append b (bytes_le 1 x)

-- The assertion and the `memcpy` of the four peeks.
unfoldable pub peek_bytes : MsgBuffer → ℕ → Option (List ℕ)
unfolding readable_bytes peek
peek_bytes b size = do
  assert (leb size (readable_bytes b))
  read_range b.buffer (peek b) (peek b + size)

unfoldable pub peek_int64 : MsgBuffer → Option ℕ
peek_int64 b = do be64 ← peek_bytes b 8; some (network_to_host64 (from_le be64))

unfoldable pub peek_int32 : MsgBuffer → Option ℕ
peek_int32 b = do be32 ← peek_bytes b 4; some (network_to_host32 (from_le be32))

unfoldable pub peek_int16 : MsgBuffer → Option ℕ
peek_int16 b = do be16 ← peek_bytes b 2; some (network_to_host16 (from_le be16))

unfoldable pub peek_int8 : MsgBuffer → Option ℕ
unfolding readable_bytes peek
peek_int8 b = do assert (leb 1 (readable_bytes b)); get_elem? b.buffer (peek b)

unfoldable pub read_int64 : MsgBuffer → Option (ℕ × MsgBuffer)
unfolding peek_int64 retrieve_int64
read_int64 b = do result ← peek_int64 b; b' ← retrieve_int64 b; some (result, b')

unfoldable pub read_int32 : MsgBuffer → Option (ℕ × MsgBuffer)
unfolding peek_int32 retrieve_int32
read_int32 b = do result ← peek_int32 b; b' ← retrieve_int32 b; some (result, b')

unfoldable pub read_int16 : MsgBuffer → Option (ℕ × MsgBuffer)
unfolding peek_int16 retrieve_int16
read_int16 b = do result ← peek_int16 b; b' ← retrieve_int16 b; some (result, b')

unfoldable pub read_int8 : MsgBuffer → Option (ℕ × MsgBuffer)
unfolding peek_int8 retrieve_int8
read_int8 b = do result ← peek_int8 b; b' ← retrieve_int8 b; some (result, b')

unfoldable pub prepend_int64 : MsgBuffer → ℕ → Option MsgBuffer
prepend_int64 b x = let be64 = host_to_network64 x in prepend b (bytes_le 8 be64)

unfoldable pub prepend_int32 : MsgBuffer → ℕ → Option MsgBuffer
prepend_int32 b x = let be32 = host_to_network32 x in prepend b (bytes_le 4 be32)

unfoldable pub prepend_int16 : MsgBuffer → ℕ → Option MsgBuffer
prepend_int16 b x = let be16 = host_to_network16 x in prepend b (bytes_le 2 be16)

unfoldable pub prepend_int8 : MsgBuffer → ℕ → Option MsgBuffer
prepend_int8 b x = prepend b (bytes_le 1 x)
