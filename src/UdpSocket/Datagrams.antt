-- ===== src/UdpSocket/Datagrams.antt =====
-- What a socket sends and receives: network/net/UdpSocket.cc, lines 25 to 136 and 202 to 227.
use wl_tmm.Prelude.{
  zero, suc, ◌≡◌, sym, ap, ◌∙◌, List, [], ◌∷◌, ◌++◌, map, false, append_assoc, arith, Bool-cases,
  inl, inr, List-cases,
}
use wl_tmm.EventLoop.{EventLoop}
use wl_tmm.TcpConnection.{Wrote, wrote, failed, is_transient}
use wl_tmm.UdpSocket.{
  UdpSocket, UdpBufferNode, Sendto, on_close, on_error, queued_call, complete, returned, write_loop,
  on_write,
}

-- OnClose never closes an open socket, nor does an error: it stays as it is.
pub on_close-never : (u : UdpSocket) → u.closed ≡ false → (on_close u ≡ u) × (on_error u ≡ u)
unfolding on_close on_error
on_close-never u live = (ground (arith, live), ground (arith, live))

-- The calls that succeeded, and those that are still to be made.
abbrev pub stream : UdpSocket → List Sendto
stream u = u.sent ++ map queued_call u.buffer_list

pub returned-injective : {x y : EventLoop × UdpSocket} → returned x ≡ returned y → x ≡ y
returned-injective h = cc

ended-stream :
    (l : EventLoop) (u : UdpSocket) (x : EventLoop × UdpSocket)
    → returned (l, complete u) ≡ returned x
    → stream x.1 ≡ stream u
ended-stream l u x h =
    ap (λ y. stream y.1) {x = x} {y = (l, complete u)} (sym (returned-injective h))

-- The state behind a datagram that was sent.
abbrev popped : UdpBufferNode → List UdpBufferNode → UdpSocket → UdpSocket
popped n ns u = record u { buffer_list = ns; sent = u.sent ++ queued_call n ∷ [] }

write_loop-stream :
    (answers : List Wrote) (l : EventLoop) (u : UdpSocket) (x : EventLoop × UdpSocket)
    → u.closed ≡ false
    → write_loop answers (l, u) ≡ returned x
    → stream x.1 ≡ stream u
unfolding write_loop
write_loop-stream [] l u x live h = elim (List-cases u.buffer_list) [
  | inl e ↦ ended-stream l u x (ground (arith, e, h))
  | inr (n, ns, e) ↦ absurd (ground (arith, e, h))
]
write_loop-stream (wrote zero ∷ answers) l u x live h = elim (List-cases u.buffer_list) [
  | inl e ↦ ended-stream l u x (ground (arith, e, h))
  | inr (n, ns, e) ↦ write_loop-stream answers l u x live (ground (arith, e, h))
]
write_loop-stream (wrote (suc k) ∷ answers) l u x live h = elim (List-cases u.buffer_list) [
  | inl e ↦ ended-stream l u x (ground (arith, e, h))
  | inr (n, ns, e) ↦
      write_loop-stream answers l (popped n ns u) x live (ground (arith, e, h))
      ∙ append_assoc u.sent (queued_call n ∷ []) (map queued_call ns)
      ∙ ap (λ q. u.sent ++ map queued_call q) (sym e)
]
write_loop-stream (failed errno ∷ answers) l u x live h = elim (List-cases u.buffer_list) [
  | inl e ↦ ended-stream l u x (ground (arith, e, h))
  | inr (n, ns, e) ↦
      let same : returned (l, u) ≡ returned x =
        ground (arith, e, h, (on_close-never u live).0, Bool-cases (is_transient errno)) in
      ap (λ y. stream y.1) {x = x} {y = (l, u)} (sym (returned-injective same))
]

pub on_write-stream :
    (answers : List Wrote) (l : EventLoop) (u : UdpSocket) (x : EventLoop × UdpSocket)
    → u.closed ≡ false
    → on_write answers (l, u) ≡ returned x
    → stream x.1 ≡ stream u
unfolding on_write
on_write-stream answers l u x live h =
    write_loop-stream answers l u x live (ground (arith, live, h))
