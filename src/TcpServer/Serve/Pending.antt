-- ===== src/TcpServer/Serve/Pending.antt =====
-- What a read of the listening socket makes of a server: network/net/Acceptor.cc, lines 67 to 87, and
-- network/TcpServer.cc, lines 28 to 52.
use wl_tmm.Prelude.{
  ℕ, ◌+◌, ◌≡◌, refl, sym, ap, ◌∙◌, some, List, [], ◌∷◌, ◌++◌, map, Bool, true, false, ◌||◌, ◌&&◌,
  leb, ltb, ◌==◌, if◌then◌else◌, length, append_assoc, append-nil, arith, ==_iff, Bool-cases,
  Option-cases, inl, inr,
}
use wl_tmm.Prelude.Int.{ℤ}
use wl_tmm.Prelude.Maps.{int_eq, int_beq, int_beq_iff, lookup, lookup-insert}
use wl_tmm.EventLoop.{EventLoop, Event, no_flags, add_event}
use wl_tmm.EventLoop.Interest.{InStep, is_some, add_event-InStep}
use wl_tmm.TimingWheel.{TimingWheel, held, stored, insert_entry}
use wl_tmm.TimingWheel.Sound.{IsValid, insert_second}
use wl_tmm.TcpConnection.{eagain}
use wl_tmm.Acceptor.{accepted_as, failed}
use wl_tmm.TcpServer.{
  Notice, new_connection, noticed, has_connection, insert_connection, idle_time, on_accept,
}
use wl_tmm.TcpServer.Serve.{Serving, accept_one, returned, serve}

abbrev pub is_one_of : ℤ → List ℤ → Bool
is_one_of fd [] = false
is_one_of fd (s ∷ socks) = int_beq s fd || is_one_of fd socks

-- The numbers from `next` on, one for each socket.
abbrev pub notices_from : Bool → ℕ → List ℤ → List Notice
notices_from set next [] = []
notices_from set next (s ∷ socks) =
    if set then new_connection next ∷ notices_from set (next + 1) socks else []

-- What accepting some sockets makes of a server.
pub record Served (socks : List ℤ) (x x' : Serving) : Type 0 where
  pub next : x'.next ≡ x.next + length socks
  pub accepted : x'.acceptor.accepted ≡ x.acceptor.accepted ++ socks
  pub callback : x'.server.has_new_connection_cb ≡ x.server.has_new_connection_cb
  pub notices :
      x'.server.notices
      ≡ x.server.notices ++ notices_from x.server.has_new_connection_cb x.next socks
  pub connections :
      (i : ℕ)
      → has_connection i x'.server.connections
        ≡ (has_connection i x.server.connections || leb x.next i && ltb i (x.next + length socks))
  pub registered :
      (fd : ℤ)
      → is_some (lookup fd x'.loop.events)
        ≡ (is_some (lookup fd x.loop.events) || is_one_of fd socks)
  pub in_step : (takes : ℤ → Bool) → InStep takes x.loop → InStep takes x'.loop
  pub wheels : IsValid x'.wheel

has_connection-insert :
    (i id : ℕ) (is : List ℕ)
    → has_connection i (insert_connection id is) ≡ (has_connection i is || id == i)
unfolding insert_connection has_connection
has_connection-insert i id is = elim (Bool-cases (has_connection id is)) [
  | inl there ↦ elim (Bool-cases (id == i)) [
    | inl same ↦
        let at_i : has_connection i is ≡ true =
          ap (λ j. has_connection j is) (sym ((==_iff id i).0 same)) ∙ there in
        ground (arith, there, same, at_i)
    | inr other ↦ ground (arith, there, other)
  ]
  | inr fresh ↦ ground (arith, fresh)
]

is_some-add_event :
    (e : Event) (l : EventLoop) (fd : ℤ)
    → is_some (lookup fd (add_event l e).0.events)
      ≡ (is_some (lookup fd l.events) || int_beq e.fd fd)
unfolding add_event
is_some-add_event e l fd = elim (Option-cases (lookup e.fd l.events)) [
  | inl free ↦ ground (arith, free, lookup-insert e.fd fd e.id l.events, int_beq_iff e.fd fd)
  | inr (other, there) ↦ ground (arith, there, int_beq_iff e.fd fd)
]

module _ (fd : ℤ) (x : Serving) (w : TimingWheel) where
  -- The server with the new connection, the wheels being `w` then.
  abbrev with_one : Serving
  with_one =
      let e : Event = record { id = x.next; fd = fd; event = no_flags } in
      record {
        loop = (add_event x.loop e).0;
        wheel = w;
        acceptor = record x.acceptor { accepted = x.acceptor.accepted ++ fd ∷ [] };
        server = record x.server {
          connections = insert_connection x.next x.server.connections;
          notices = noticed x.server.has_new_connection_cb (new_connection x.next) x.server.notices;
        };
        next = x.next + 1;
      }

  accept_one-stored :
      insert_entry x.wheel idle_time (held x.next) ≡ stored w → accept_one fd x ≡ some with_one
  unfolding accept_one on_accept
  accept_one-stored h = ground (arith, h)

  notices-one :
      (set : Bool) (ns : List Notice)
      → noticed set (new_connection x.next) ns ≡ ns ++ notices_from set x.next (fd ∷ [])
  notices-one true ns = refl
  notices-one false ns = sym (append-nil ns)

  with_one-Served : IsValid w → Served (fd ∷ []) x with_one
  with_one-Served v =
      let e : Event = record { id = x.next; fd = fd; event = no_flags } in
      record {
        next = refl;
        accepted = refl;
        callback = refl;
        notices = notices-one x.server.has_new_connection_cb x.server.notices;
        connections = λ i. ground (arith, has_connection-insert i x.next x.server.connections);
        registered = λ j. ground (arith, is_some-add_event e x.loop j);
        in_step = λ takes. add_event-InStep takes x.loop e;
        wheels = v;
      }

accept_one-Served :
    (fd : ℤ) (x : Serving)
    → IsValid x.wheel
    → (x' : Serving) × (accept_one fd x ≡ some x') × Served (fd ∷ []) x x'
accept_one-Served fd x v =
    let (w, found, v') =
      insert_second x.wheel idle_time (held x.next) v (omega arith) (omega arith) tt in
    (with_one fd x w, accept_one-stored fd x w found, with_one-Served fd x w v')

notices_from-cons :
    (set : Bool) (next : ℕ) (fd : ℤ) (socks : List ℤ)
    → notices_from set next (fd ∷ []) ++ notices_from set (next + 1) socks
      ≡ notices_from set next (fd ∷ socks)
notices_from-cons true next fd socks = refl
notices_from-cons false next fd [] = refl
notices_from-cons false next fd (s ∷ socks) = refl

Served-cons :
    (fd : ℤ) (socks : List ℤ) (x x1 x2 : Serving)
    → Served (fd ∷ []) x x1
    → Served socks x1 x2
    → Served (fd ∷ socks) x x2
Served-cons fd socks x x1 x2 a b = record {
  next = omega (arith, a.next, b.next);
  accepted =
      b.accepted
      ∙ ap (λ xs. xs ++ socks) a.accepted
      ∙ append_assoc x.acceptor.accepted (fd ∷ []) socks;
  callback = b.callback ∙ a.callback;
  notices =
      b.notices
      ∙ cc (
        a.notices,
        a.callback,
        a.next,
        append_assoc x.server.notices (notices_from x.server.has_new_connection_cb x.next (fd ∷ []))
            (notices_from x.server.has_new_connection_cb (x.next + 1) socks),
        notices_from-cons x.server.has_new_connection_cb x.next fd socks,
      );
  connections = λ i. ground (arith, a.connections i, b.connections i, a.next);
  registered = λ j. ground (arith, a.registered j, b.registered j);
  in_step = λ takes h. b.in_step takes (a.in_step takes h);
  wheels = b.wheels;
}

Served-none : (x : Serving) → IsValid x.wheel → Served [] x x
Served-none x v = record {
  next = omega arith;
  accepted = sym (append-nil x.acceptor.accepted);
  callback = refl;
  notices = sym (append-nil x.server.notices);
  connections = λ i. ground arith;
  registered = λ j. ground arith;
  in_step = λ takes h. h;
  wheels = v;
}

-- A read of the listening socket with some pending connections, on valid wheels, returns. The
-- connections of the server are then the old ones and one for each socket, of new numbers; the
-- registered descriptors are the old ones and these sockets, and the kernel watches those of them
-- that it takes, if it did before; the callback, if it is set, got the new connections in their
-- order; the wheels are valid.
pub serve-accepted :
    (sock : ℤ) (socks : List ℤ) (x : Serving)
    → IsValid x.wheel
    → (x' : Serving) × (serve sock (map accepted_as socks ++ failed eagain ∷ []) x ≡ returned x')
      × Served socks x x'
unfolding serve
serve-accepted sock [] x v = (x, refl, Served-none x v)
serve-accepted sock (s ∷ socks) x v =
    let (x1, found, one) = accept_one-Served s x v in
    let (x2, rest, others) = serve-accepted sock socks x1 one.wheels in
    (x2, ground (arith, found, rest), Served-cons s socks x x1 x2 one others)
