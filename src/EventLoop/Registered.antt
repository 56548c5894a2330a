-- ===== src/EventLoop/Registered.antt =====
-- Which descriptors are registered after AddEvent and DelEvent: network/net/EventLoop.cc, lines 93 to
-- 134.
use wl_tmm.Prelude.{◌≡◌, sym, ap, ◌∙◌, none, some, arith, Option-cases, if◌then◌else◌, inl, inr}
use wl_tmm.Prelude.Int.{ℤ}
use wl_tmm.Prelude.Maps.{int_eq, int_beq, int_beq_iff, lookup, lookup-insert, lookup-erase}
use wl_tmm.EventLoop.{EventLoop, Event, add_event, del_event}

pub del_event-lookup :
    (l : EventLoop) (e : Event) (fd : ℤ)
    → lookup fd (del_event l e).events ≡ (if int_beq e.fd fd then none else lookup fd l.events)
unfolding del_event
del_event-lookup l e fd = elim (Option-cases (lookup e.fd l.events)) [
  | inl fresh ↦ ground (
    arith,
    fresh,
    int_beq_iff e.fd fd,
    λ (same : e.fd ≡ fd). ap (λ k. lookup k l.events) (sym same) ∙ fresh,
  )
  | inr (other, there) ↦ ground (arith, there, int_beq_iff e.fd fd, lookup-erase e.fd fd l.events)
]

pub add_event-lookup :
    (l : EventLoop) (e : Event) (fd : ℤ)
    → lookup e.fd l.events ≡ none
    → lookup fd (add_event l e).0.events
      ≡ (if int_beq e.fd fd then some e.id else lookup fd l.events)
unfolding add_event
add_event-lookup l e fd fresh =
    ground (arith, fresh, int_beq_iff e.fd fd, lookup-insert e.fd fd e.id l.events)
