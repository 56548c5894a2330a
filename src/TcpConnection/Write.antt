-- ===== src/TcpConnection/Write.antt =====
-- Writing what is queued: network/net/TcpConnection.cc, lines 91 to 151. The answers of writev are a
-- list; a call that has used them up is still running.
use wl_tmm.Prelude.{
  ℕ, zero, suc, ◌+◌, ◌-◌, Option, none, some, List, [], ◌∷◌, ◌++◌, true, false, ltb, if◌then◌else◌,
  take,
}
use wl_tmm.EventLoop.{EventLoop}
use wl_tmm.TcpConnection.{
  TcpConnection, Iovec, Wrote, wrote, failed, write_complete, notify, on_close, is_transient,
  addresses, enable_writing,
}

-- The written bytes leave the queue; `front()` of an empty queue is undefined.
unfoldable pub consume : ℕ → List Iovec → Option (List Iovec)
consume zero vs = some vs
consume (suc n) [] = none
consume (suc n) (v ∷ vs) = elim (ltb (suc n) v.iov_len) [
  | true ↦ some (record { iov_base = v.iov_base + suc n; iov_len = v.iov_len - suc n } ∷ vs)
  | false ↦ consume (suc n - v.iov_len) vs
]

-- What a call does: it returns, accesses an empty queue, or has not ended with the given answers.
pub data Outcome : Type 0 where
  returned : EventLoop × TcpConnection → Outcome
  undefined : Outcome
  running : Outcome

-- Nothing is left to write.
unfoldable pub complete : EventLoop × TcpConnection → EventLoop × TcpConnection
complete x =
    let (l, c) = enable_writing false x in (l, notify c.has_write_complete_cb write_complete c)

unfoldable pub write_loop : List Wrote → EventLoop × TcpConnection → Outcome
write_loop [] x = running
write_loop (failed errno ∷ answers) (l, c) =
    if is_transient errno then returned (l, c) else returned (l, on_close c)
write_loop (wrote n ∷ answers) (l, c) = elim (consume n c.io_vec_li) [
  | none ↦ undefined
  | some [] ↦
      returned
        (complete (l, record c { io_vec_li = []; sent = c.sent ++ take n (addresses c.io_vec_li) }))
  | some (v ∷ vs) ↦
      write_loop answers
        (l, record c { io_vec_li = v ∷ vs; sent = c.sent ++ take n (addresses c.io_vec_li) })
]

unfoldable pub on_write : List Wrote → EventLoop × TcpConnection → Outcome
on_write answers (l, c) =
    if c.closed
    then returned (l, c)
    else elim c.io_vec_li [ [] ↦ returned (complete (l, c)) | v ∷ vs ↦ write_loop answers (l, c) ]
