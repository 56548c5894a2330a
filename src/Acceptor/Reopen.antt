-- ===== src/Acceptor/Reopen.antt =====
-- Accepting and opening again: network/net/Acceptor.cc, lines 25 to 99.
use mathlib.Core.Option.{some-injective}
use mathlib.Core.Path.{subst}
use wl_tmm.Prelude.{
  Bool, true, false, Bool-cases, inl, inr, ◌⊎◌, ◌≡◌, refl, sym, ap, ◌∙◌, none, some, List, [], ◌∷◌,
  ◌++◌, map, append_assoc, append-nil, arith, if◌then◌else◌,
}
use wl_tmm.Prelude.Int.{ℤ, pos, ltb_ℤ}
use wl_tmm.Prelude.Maps.{int_eq, int_beq, int_beq_iff, lookup}
use wl_tmm.EventLoop.{EventLoop, Event, close_event, add_event, del_event}
use wl_tmm.EventLoop.Interest.{InStep, add_event-InStep, del_event-InStep}
use wl_tmm.EventLoop.Registered.{del_event-lookup, add_event-lookup}
use wl_tmm.TcpConnection.{eagain, shut_with}
use wl_tmm.Acceptor.{Acceptor, open_socket, stop, on_close, accepted_as, failed, returned, on_read}

-- The accept callback gets every pending connection, in their order, and the call ends when no more
-- is there, without a change of the loop.
pub on_read-accepted :
    (sock : ℤ) (socks : List ℤ) (l : EventLoop) (a : Acceptor)
    → on_read sock (map accepted_as socks ++ failed eagain ∷ []) (l, a)
      ≡ returned (l, record a { accepted = a.accepted ++ socks })
unfolding on_read
on_read-accepted sock [] l a =
    ap (λ xs. returned (l, record a { accepted = xs })) (sym (append-nil a.accepted))
on_read-accepted sock (s ∷ socks) l a =
    on_read-accepted sock socks l (record a { accepted = a.accepted ++ s ∷ [] })
    ∙ ap (λ xs. returned (l, record a { accepted = xs })) (append_assoc a.accepted (s ∷ []) socks)

-- What on_close makes of a loop and an acceptor, with the socket `sock`.
pub record Reopened (takes : ℤ → Bool) (sock : ℤ) (l l' : EventLoop) (a a' : Acceptor)
    : Type 0 where
  pub registered :
      (fd : ℤ)
      → lookup fd l'.events ≡ (
          if int_beq sock fd
          then some a.event.id
          else if int_beq a.event.fd fd
          then none
          else lookup fd l.events)
  pub in_step : InStep takes l → InStep takes l'
  pub socket : a'.event.fd ≡ sock
  pub closed : a'.shut ≡ a.shut ++ a.event.fd ∷ []
  pub accepted : a'.accepted ≡ a.accepted

add_event-fd : (l : EventLoop) (e : Event) → (add_event l e).1.fd ≡ e.fd
unfolding add_event
add_event-fd l e = ground arith

module _ (takes : ℤ → Bool) (sock : ℤ) (l : EventLoop) (a : Acceptor) where
  -- The object with the new socket, before it is registered.
  abbrev with_socket : Event
  with_socket = record (close_event a.event).0 { fd = sock }

  abbrev opened_again : EventLoop × Acceptor
  opened_again =
      let (l1, e) = add_event (del_event l a.event) with_socket in
      (l1, record a { event = e; shut = shut_with (close_event a.event).1 a.shut })

  on_close-good : ltb_ℤ sock (pos 0) ≡ false → on_close sock (l, a) ≡ some opened_again
  unfolding on_close open_socket stop
  on_close-good good = ground (arith, good)

  with_socket-id : with_socket.id ≡ a.event.id
  unfolding close_event
  with_socket-id = ground arith

  opened_again-shut :
      ltb_ℤ (pos 0) a.event.fd ≡ true → opened_again.1.shut ≡ a.shut ++ a.event.fd ∷ []
  unfolding close_event
  opened_again-shut positive = ground (arith, positive)

  opened_again-Reopened :
      ltb_ℤ (pos 0) a.event.fd ≡ true
      → (sock ≡ a.event.fd) ⊎ (lookup sock l.events ≡ none)
      → Reopened takes sock l opened_again.0 a opened_again.1
  opened_again-Reopened positive new =
      let l1 : EventLoop = del_event l a.event in
      let fresh : lookup sock l1.events ≡ none =
        ground (arith, new, del_event-lookup l a.event sock, int_beq_iff a.event.fd sock) in
      record {
        registered = λ fd. ground (
          arith,
          add_event-lookup l1 with_socket fd fresh,
          del_event-lookup l a.event fd,
          with_socket-id,
        );
        in_step = λ h. add_event-InStep takes l1 with_socket (del_event-InStep takes l a.event h);
        socket = add_event-fd l1 with_socket;
        closed = opened_again-shut positive;
        accepted = refl;
      }

-- When OnClose opens an acceptor again, the old socket is closed once and the new one registered
-- in its place, the other registered descriptors are as before, the kernel watches exactly the
-- registered ones that it takes, if it did before, and the accepted sockets are as before. The old
-- descriptor is positive, and the new one is the same number or not registered.
pub on_close-Reopened :
    (takes : ℤ → Bool) (sock : ℤ) (l l' : EventLoop) (a a' : Acceptor)
    → ltb_ℤ (pos 0) a.event.fd ≡ true
    → (sock ≡ a.event.fd) ⊎ (lookup sock l.events ≡ none)
    → on_close sock (l, a) ≡ some (l', a')
    → Reopened takes sock l l' a a'
unfolding on_close open_socket stop
on_close-Reopened takes sock l l' a a' positive new done = elim (Bool-cases (ltb_ℤ sock (pos 0))) [
  | inl bad ↦ absurd (ground (arith, bad, done))
  | inr good ↦
      let same : some (opened_again takes sock l a) ≡ some (l', a') =
        sym (on_close-good takes sock l a good) ∙ done in
      subst (λ (r : EventLoop × Acceptor). Reopened takes sock l r.0 a r.1)
        (some-injective _ _ same) (opened_again-Reopened takes sock l a positive new)
]
