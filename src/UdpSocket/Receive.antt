-- ===== src/UdpSocket/Receive.antt =====
-- Receiving datagrams: network/net/UdpSocket.cc, lines 25 to 83.
use wl_tmm.Prelude.{
  ℕ, ◌+◌, ◌<◌, ◌≤◌, ◌≡◌, refl, ap, ◌∙◌, some, List, [], ◌∷◌, ◌++◌, map, false, length, arith,
  drop_all, length-take, take,
}
use mathlib.Core.Path.{ap₂}
use wl_tmm.MsgBuffer.{MsgBuffer, retrieve_all, has_written}
use wl_tmm.MsgBuffer.Contents.{IsValid, contents, length-copied}
use wl_tmm.MsgBuffer.Append.{written, written_lem}
use wl_tmm.MsgBuffer.ReadFd
use wl_tmm.MsgBuffer.ReadFd.{Received, received}
use wl_tmm.TcpConnection.{eagain}
use wl_tmm.UdpSocket.{message_buffer_size, receive, ended, read_loop}

-- The buffer of a socket between datagrams.
pub record IsFresh (b : MsgBuffer) : Type 0 where
  pub reader : b.reader_index ≡ 8
  pub writer : b.writer_index ≡ 8
  pub size : length b.buffer ≡ 65543

IsFresh-IsValid : {b : MsgBuffer} → IsFresh b → IsValid b
IsFresh-IsValid f = omega (arith, f)

contents-IsFresh : {b : MsgBuffer} → IsFresh b → contents b ≡ []
unfolding contents
contents-IsFresh {b} f =
    drop_all b.reader_index (take b.writer_index b.buffer)
      (omega (arith, length-take b.writer_index b.buffer, f))

-- A datagram that is not empty and fits is all that the buffer holds.
receive-IsFresh :
    (b : MsgBuffer) (bytes : List ℕ)
    → IsFresh b
    → length bytes ≤ message_buffer_size
    → (receive b bytes ≡ some (written b bytes))
      × (contents (written b bytes) ≡ bytes)
      × IsFresh (retrieve_all (written b bytes))
unfolding receive has_written retrieve_all
receive-IsFresh b bytes f h =
    let room : b.writer_index + length bytes ≤ length b.buffer = omega (arith, f, h) in
    let copied = length-copied b.buffer b.writer_index bytes room in
    let (valid, whole) = written_lem bytes (IsFresh-IsValid f) room in
    (
      ground (arith, h, room, copied, f.writer, f.size),
      whole ∙ ap (λ xs. xs ++ bytes) (contents-IsFresh f),
      record { reader = refl; writer = refl; size = copied ∙ f.size },
    )

abbrev pub AllDatagrams : List (List ℕ) → Type 0
AllDatagrams [] = Unit {0}
AllDatagrams (d ∷ ds) = (0 < length d) × (length d ≤ message_buffer_size) × AllDatagrams ds

-- From the buffer of a socket between datagrams, datagrams of 1 to 65535 bytes come alone and
-- whole to the message callback, in the order of their arrival; the buffer is then as before, and
-- the socket is not closed when no more is there.
pub read_loop-datagrams :
    (ds : List (List ℕ)) (b : MsgBuffer)
    → IsFresh b
    → AllDatagrams ds
    → (bs : List MsgBuffer) × (b' : MsgBuffer) × (read_loop
          (map received ds ++ ReadFd.failed eagain ∷ [])
          b
        ≡ ended bs b' false)
      × (map contents bs ≡ ds)
      × IsFresh b'
unfolding read_loop
read_loop-datagrams [] b f all = ([], b, refl, refl, f)
read_loop-datagrams ([] ∷ ds) b f (low, high, all) = absurd (omega arith)
read_loop-datagrams ((x ∷ xs) ∷ ds) b f (low, high, all) =
    let (got, whole, f') = receive-IsFresh b (x ∷ xs) f high in
    let (bs, b', loop, each, last) =
      read_loop-datagrams ds (retrieve_all (written b (x ∷ xs))) f' all in
    (written b (x ∷ xs) ∷ bs, b', ground (arith, got, loop), ap₂ ◌∷◌ whole each, last)
