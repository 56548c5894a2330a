-- ===== src/TcpConnection/Stream.antt =====
-- What a connection sends, and in which order: network/net/TcpConnection.cc, lines 91 to 228. The
-- addresses that the kernel took and those that are queued are one stream.
use wl_tmm.Prelude.{
  ℕ, zero, suc, ◌+◌, ◌-◌, ◌≤◌, ◌≡◌, refl, sym, ap, ◌∙◌, some, List, [], ◌∷◌, ◌++◌, ltb, take,
  length, append_assoc, arith, Bool-cases, Option-cases, List-cases, inl, inr, ltb→lt,
  take-append_eq, take-append_ge,
}
use wl_tmm.EventLoop.{EventLoop}
use wl_tmm.TcpConnection.{
  TcpConnection, Iovec, Wrote, wrote, failed, on_close, is_transient, addresses, range,
  enable_writing,
}
use wl_tmm.TcpConnection.Write.{consume, returned, complete, write_loop, on_write}

abbrev pub stream : TcpConnection → List ℕ
stream c = c.sent ++ addresses c.io_vec_li

pub length-range : (b n : ℕ) → length (range b n) ≡ n
length-range b zero = refl
length-range b (suc n) = ap suc (length-range (suc b) n)

pub range-append : (b m k : ℕ) → range b (m + k) ≡ range b m ++ range (b + m) k
range-append b zero k = ground arith
range-append b (suc m) k =
    ap (range b) {x = suc m + k} {y = suc (m + k)} (omega arith)
    ∙ ap (λ xs. b ∷ xs)
        (range-append (suc b) m k
          ∙ ap (λ x. range (suc b) m ++ range x k) {x = suc b + m} {y = b + suc m} (omega arith))

-- A range is its first addresses and the rest.
pub range-split : (b n len : ℕ) → n ≤ len → range b len ≡ range b n ++ range (b + n) (len - n)
range-split b n len h = ap (range b) (omega arith) ∙ range-append b n (len - n)

pub addresses-append : (vs ws : List Iovec) → addresses (vs ++ ws) ≡ addresses vs ++ addresses ws
addresses-append [] ws = refl
addresses-append (v ∷ vs) ws =
    ap (λ xs. range v.iov_base v.iov_len ++ xs) (addresses-append vs ws)
    ∙ sym (append_assoc (range v.iov_base v.iov_len) (addresses vs) (addresses ws))

take_head : (n b len : ℕ) (ys : List ℕ) → n ≤ len → take n (range b len ++ ys) ≡ range b n
take_head n b len ys h =
    ap (λ xs. take n (xs ++ ys)) (range-split b n len h)
    ∙ ap (take n) (append_assoc (range b n) (range (b + n) (len - n)) ys)
    ∙ take-append_eq n (range b n) _ (sym (length-range b n))

-- What leaves the queue is what the kernel took.
pub addresses-consume :
    (n : ℕ) (vs vs' : List Iovec)
    → consume n vs ≡ some vs'
    → take n (addresses vs) ++ addresses vs' ≡ addresses vs
unfolding consume
addresses-consume zero vs vs' h = ap addresses {x = vs'} {y = vs} (ground (arith, h))
addresses-consume (suc n) [] vs' h = absurd (ground (arith, h))
addresses-consume (suc n) (v ∷ vs) vs' h = elim (Bool-cases (ltb (suc n) v.iov_len)) [
  | inl part ↦
      let left : List Iovec =
        record { iov_base = v.iov_base + suc n; iov_len = v.iov_len - suc n } ∷ vs in
      let e : vs' ≡ left = ground (arith, part, h) in
      let few : suc n ≤ v.iov_len = omega (arith, ltb→lt (suc n) v.iov_len part) in
      let rest : List ℕ = range (v.iov_base + suc n) (v.iov_len - suc n) in
      ap (λ xs. take (suc n) (addresses (v ∷ vs)) ++ addresses xs) e
      ∙ ap (λ xs. xs ++ addresses left) (take_head (suc n) v.iov_base v.iov_len (addresses vs) few)
      ∙ sym (append_assoc (range v.iov_base (suc n)) rest (addresses vs))
      ∙ ap (λ xs. xs ++ addresses vs) (sym (range-split v.iov_base (suc n) v.iov_len few))
  | inr whole ↦
      let e : consume (suc n - v.iov_len) vs ≡ some vs' = ground (arith, whole, h) in
      let all : length (range v.iov_base v.iov_len) ≤ suc n =
        ground (arith, whole, length-range v.iov_base v.iov_len) in
      let m : ℕ = suc n - v.iov_len in
      let rest : suc n - length (range v.iov_base v.iov_len) ≡ m =
        ap (λ k. suc n - k) (length-range v.iov_base v.iov_len) in
      ap (λ xs. xs ++ addresses vs')
        (take-append_ge (suc n) (range v.iov_base v.iov_len) (addresses vs) all)
      ∙ append_assoc (range v.iov_base v.iov_len) _ (addresses vs')
      ∙ ap (λ k. range v.iov_base v.iov_len ++ (take k (addresses vs) ++ addresses vs')) rest
      ∙ ap (λ xs. range v.iov_base v.iov_len ++ xs) (addresses-consume m vs vs' e)
]

pub on_close-stream : (c : TcpConnection) → stream (on_close c) ≡ stream c
unfolding on_close
on_close-stream c = elim (Bool-cases c.closed) [
  | inl shut ↦ rw (shut, on_close) refl
  | inr live ↦ rw (live, on_close) refl
]

complete-stream : (x : EventLoop × TcpConnection) → stream (complete x).1 ≡ stream x.1
unfolding complete enable_writing
complete-stream (l, c) = refl

pub returned-injective : {x y : EventLoop × TcpConnection} → returned x ≡ returned y → x ≡ y
returned-injective h = cc

-- The state after an answer of writev.
abbrev pub after : ℕ → List Iovec → TcpConnection → TcpConnection
after n vs c = record c { io_vec_li = vs; sent = c.sent ++ take n (addresses c.io_vec_li) }

after-stream :
    (n : ℕ) (vs : List Iovec) (c : TcpConnection)
    → consume n c.io_vec_li ≡ some vs
    → stream (after n vs c) ≡ stream c
after-stream n vs c h =
    append_assoc c.sent (take n (addresses c.io_vec_li)) (addresses vs)
    ∙ ap (λ xs. c.sent ++ xs) (addresses-consume n c.io_vec_li vs h)

write_loop-stream :
    (answers : List Wrote) (l l' : EventLoop) (c c' : TcpConnection)
    → write_loop answers (l, c) ≡ returned (l', c')
    → stream c' ≡ stream c
unfolding write_loop
write_loop-stream [] l l' c c' h = absurd (ground (arith, h))
write_loop-stream (failed errno ∷ answers) l l' c c' h = elim (Bool-cases (is_transient errno)) [
  | inl later ↦ ground (arith, later, h)
  | inr broken ↦ ground (arith, broken, h, on_close-stream c)
]
write_loop-stream (wrote n ∷ answers) l l' c c' h = elim (Option-cases (consume n c.io_vec_li)) [
  | inl bad ↦ absurd (ground (arith, bad, h))
  | inr ([], good) ↦
      let e : returned (complete (l, after n [] c)) ≡ returned (l', c') = ground (arith, good, h) in
      ap (λ x. stream x.1) (sym (returned-injective e))
      ∙ complete-stream (l, after n [] c)
      ∙ after-stream n [] c good
  | inr (v ∷ vs, good) ↦
      let e : write_loop answers (l, after n (v ∷ vs) c) ≡ returned (l', c') =
        ground (arith, good, h) in
      write_loop-stream answers l l' (after n (v ∷ vs) c) c' e ∙ after-stream n (v ∷ vs) c good
]

-- A write keeps the stream: what the kernel takes comes from the front of the queue.
pub on_write-stream :
    (answers : List Wrote) (l l' : EventLoop) (c c' : TcpConnection)
    → on_write answers (l, c) ≡ returned (l', c')
    → stream c' ≡ stream c
unfolding on_write
on_write-stream answers l l' c c' h = elim (Bool-cases c.closed) [
  | inl shut ↦ ground (arith, shut, h)
  | inr live ↦ elim (List-cases c.io_vec_li) [
    | inl empty ↦
        let e : returned (complete (l, c)) ≡ returned (l', c') = ground (arith, live, empty, h) in
        ap (λ x. stream x.1) (sym (returned-injective e)) ∙ complete-stream (l, c)
    | inr (v, vs, queued) ↦ write_loop-stream answers l l' c c' (ground (arith, live, queued, h))
  ]
]
