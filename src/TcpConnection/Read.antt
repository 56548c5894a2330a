-- ===== src/TcpConnection/Read.antt =====
-- Reading, errors and timeouts: network/net/TcpConnection.cc, lines 11 to 24, 49 to 89 and 242 to 248.
-- The answers of readv are a list; a call that has used them up is still running. The message
-- callback is an argument, and may change the loop and the connection.
use wl_tmm.Prelude.{ℕ, ◌≡◌, none, some, List, [], ◌∷◌, ◌++◌, true, false, if◌then◌else◌, arith}
use wl_tmm.MsgBuffer.{MsgBuffer}
use wl_tmm.MsgBuffer.ReadFd.{Received, received, failed, read_fd}
use wl_tmm.EventLoop.{EventLoop}
use wl_tmm.TcpConnection.{
  TcpConnection, Iovec, message, notify, on_close, is_transient, Wrote, send_in_loop,
  send_nodes_in_loop,
}
use wl_tmm.TcpConnection.Write.{Outcome, returned, undefined, running, on_write}

-- `OnError` and `OnTimeout` close the connection.
unfoldable pub on_error : TcpConnection → TcpConnection
on_error c = on_close c

unfoldable pub on_timeout : TcpConnection → TcpConnection
on_timeout c = on_close c

pub on_close-closed : (c : TcpConnection) → (on_close c).closed ≡ true
unfolding on_close
on_close-closed c = ground arith

on_close-again : (c : TcpConnection) → c.closed ≡ true → on_close c ≡ c
unfolding on_close
on_close-again c shut = ground (arith, shut)

module _ (on_message : EventLoop × TcpConnection → EventLoop × TcpConnection) where
  -- The message callback, if it is set.
  unfoldable pub hand_over : EventLoop × TcpConnection → EventLoop × TcpConnection
  hand_over (l, c) = if c.has_message_cb then on_message (l, notify true message c) else (l, c)

  unfoldable pub read_loop : List Received → EventLoop × TcpConnection → Outcome
  read_loop [] x = running
  read_loop (answer ∷ answers) (l, c) = elim (read_fd c.message_buffer (λ lengths. answer)) [
    | none ↦ undefined
    | some (received [], b) ↦ returned (l, on_close (record c { message_buffer = b }))
    | some (received (x ∷ xs), b) ↦
        read_loop answers (hand_over (l, record c { message_buffer = b }))
    | some (failed errno, b) ↦
        if is_transient errno
        then returned (l, record c { message_buffer = b })
        else returned (l, on_close (record c { message_buffer = b }))
  ]

  unfoldable pub on_read : List Received → EventLoop × TcpConnection → Outcome
  on_read answers (l, c) = if c.closed then returned (l, c) else read_loop answers (l, c)

  -- What the message callback, if there is one, makes of a connection with the buffer `buf`.
  abbrev pub informed : MsgBuffer → EventLoop × TcpConnection → EventLoop × TcpConnection
  informed buf (l, c) = elim c.has_message_cb [
    | true ↦ on_message (l, record c { message_buffer = buf; notices = c.notices ++ message ∷ [] })
    | false ↦ (l, record c { message_buffer = buf })
  ]

  -- A connection that was closed is closed, and stays as it is whatever is called: closing,
  -- errors, timeouts, sending, and the events of the loop.
  pub on_close-silent :
      (c : TcpConnection) (l : EventLoop) (nodes : List Iovec) (buf size : ℕ) (answer : Wrote)
      (writes : List Wrote) (reads : List Received)
      → let c' = on_close c in
        (c'.closed ≡ true)
        × (on_close c' ≡ c')
        × (on_error c' ≡ c')
        × (on_timeout c' ≡ c')
        × (send_nodes_in_loop nodes (l, c') ≡ (l, c'))
        × (send_in_loop buf size answer (l, c') ≡ (l, c'))
        × (on_write writes (l, c') ≡ returned (l, c'))
        × (on_read reads (l, c') ≡ returned (l, c'))
  unfolding on_error on_timeout send_nodes_in_loop send_in_loop on_write on_read
  on_close-silent c l nodes buf size answer writes reads =
      let shut = on_close-closed c in
      (
        shut,
        on_close-again (on_close c) shut,
        on_close-again (on_close c) shut,
        on_close-again (on_close c) shut,
        ground (arith, shut),
        ground (arith, shut),
        ground (arith, shut),
        ground (arith, shut),
      )
