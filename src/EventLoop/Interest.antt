-- ===== src/EventLoop/Interest.antt =====
-- What the kernel watches: the calls of epoll_ctl in network/net/EventLoop.cc, lines 93 to 173 and 228
-- to 237.
use mathlib.Core.Path.{subst}
use wl_tmm.Prelude.{
  ◌≡◌, refl, ap, ◌∙◌, Option, none, some, List, [], ◌∷◌, ◌++◌, Bool, true, false, arith,
  Option-cases, if◌then◌else◌, ◌&&◌, inl, inr,
}
use wl_tmm.Prelude.Int.{ℤ}
use wl_tmm.Prelude.Maps.{
  int_eq, int_beq, int_beq_iff, lookup, insert, erase, lookup-insert, lookup-erase,
}
use wl_tmm.EventLoop.{
  EventLoop, Event, Mask, Ctl, ctl_add, ctl_mod, ctl_del, event_read, event_write, mask_or,
  mask_without, new_loop, add_event, del_event, enable_event_writing, enable_event_reading, wake_up,
}

abbrev pub is_some {ℓ} : {A : Type ℓ} → Option A → Bool
is_some none = false
is_some (some a) = true

-- epoll_ctl for some descriptors that the kernel takes; it refuses the others, as those that are not
-- open. An ADD of a watched descriptor and a MOD of an unwatched one fail too.
unfoldable pub apply_ctl : (ℤ → Bool) → List (ℤ × Mask) → Ctl → List (ℤ × Mask)
apply_ctl takes k (ctl_add fd m) = elim (lookup fd k) [
  | none ↦ if takes fd then insert fd m k else k
  | some old ↦ k
]
apply_ctl takes k (ctl_mod fd m) = elim (lookup fd k) [ none ↦ k | some old ↦ insert fd m k ]
apply_ctl takes k (ctl_del fd) = erase fd k

unfoldable pub apply_all : (ℤ → Bool) → List (ℤ × Mask) → List Ctl → List (ℤ × Mask)
apply_all takes k [] = k
apply_all takes k (c ∷ cs) = apply_all takes (apply_ctl takes k c) cs

-- What the kernel watches, by the calls so far.
unfoldable pub interest : (ℤ → Bool) → EventLoop → List (ℤ × Mask)
interest takes l = apply_all takes [] l.calls

apply_all-append :
    (takes : ℤ → Bool) (k : List (ℤ × Mask)) (cs : List Ctl) (c : Ctl)
    → apply_all takes k (cs ++ c ∷ []) ≡ apply_ctl takes (apply_all takes k cs) c
unfolding apply_all
apply_all-append takes k [] c = refl
apply_all-append takes k (d ∷ cs) c = apply_all-append takes (apply_ctl takes k d) cs c

-- The kernel watches exactly the registered descriptors that it takes.
abbrev pub InStep : (ℤ → Bool) → EventLoop → Type 0
InStep takes l =
    (fd : ℤ) → is_some (lookup fd (interest takes l)) ≡ (takes fd && is_some (lookup fd l.events))

module _ (takes : ℤ → Bool) (l : EventLoop) (e : Event) (h : InStep takes l) where
  same_taken : (fd : ℤ) → int_beq e.fd fd ≡ true → takes e.fd ≡ takes fd
  same_taken fd same = ap takes ((int_beq_iff e.fd fd).0 same)

  -- A descriptor that is added is watched with the read flags.
  pub add_event-InStep : InStep takes (add_event l e).0
  unfolding add_event interest apply_ctl
  add_event-InStep fd = elim (Option-cases (lookup e.fd l.events)) [
    | inl fresh ↦ ground (
      arith,
      fresh,
      h fd,
      h e.fd,
      int_beq_iff e.fd fd,
      same_taken fd,
      apply_all-append takes [] l.calls (ctl_add e.fd (mask_or e.event event_read)),
      lookup-insert e.fd fd e.id l.events,
      lookup-insert e.fd fd (mask_or e.event event_read) (apply_all takes [] l.calls),
    )
    | inr (other, there) ↦ ground (arith, there, h fd)
  ]

  pub del_event-InStep : InStep takes (del_event l e)
  unfolding del_event interest apply_ctl
  del_event-InStep fd = elim (Option-cases (lookup e.fd l.events)) [
    | inl fresh ↦ ground (arith, fresh, h fd)
    | inr (other, there) ↦ ground (
      arith,
      there,
      h fd,
      int_beq_iff e.fd fd,
      same_taken fd,
      apply_all-append takes [] l.calls (ctl_del e.fd),
      lookup-erase e.fd fd l.events,
      lookup-erase e.fd fd (apply_all takes [] l.calls),
    )
  ]

  modified :
      (mask : Mask) (fd : ℤ)
      → is_some (lookup fd (apply_all takes [] (l.calls ++ ctl_mod e.fd mask ∷ [])))
        ≡ is_some (lookup fd (interest takes l))
  unfolding interest apply_ctl
  modified mask fd = ground (
    arith,
    int_beq_iff e.fd fd,
    same_taken fd,
    apply_all-append takes [] l.calls (ctl_mod e.fd mask),
    lookup-insert e.fd fd mask (apply_all takes [] l.calls),
  )

  pub enable_event_writing-InStep :
      (enable : Bool) → InStep takes (enable_event_writing l e enable).0
  unfolding enable_event_writing interest
  enable_event_writing-InStep enable fd = elim (Option-cases (lookup e.fd l.events)) [
    | inl fresh ↦ ground (arith, fresh, h fd)
    | inr (other, there) ↦ rw (there, enable_event_writing) (modified _ fd ∙ h fd)
  ]

  pub enable_event_reading-InStep :
      (enable : Bool) → InStep takes (enable_event_reading l e enable).0
  unfolding enable_event_reading interest
  enable_event_reading-InStep enable fd = elim (Option-cases (lookup e.fd l.events)) [
    | inl fresh ↦ ground (arith, fresh, h fd)
    | inr (other, there) ↦ rw (there, enable_event_reading) (modified _ fd ∙ h fd)
  ]

  -- After a change of the mask of a descriptor that it takes the kernel watches with the mask of the object.
  pub enable_event_writing-mask :
      takes e.fd ≡ true
      → (enable : Bool) → is_some (lookup e.fd l.events) ≡ true
      → let (l', e', ok) = enable_event_writing l e enable in
        (ok ≡ true) × (lookup e.fd (interest takes l') ≡ some e'.event)
  unfolding enable_event_writing interest apply_ctl
  enable_event_writing-mask taken enable there = elim (Option-cases (lookup e.fd l.events)) [
    | inl fresh ↦ absurd (ground (arith, fresh))
    | inr (other, found) ↦
        let mask : Mask =
          if enable then mask_or e.event event_write else mask_without e.event event_write in
        rw (found, enable_event_writing)
          (ground (
            arith,
            found,
            h e.fd,
            int_beq_iff e.fd e.fd,
            apply_all-append takes [] l.calls (ctl_mod e.fd mask),
            lookup-insert e.fd e.fd mask (apply_all takes [] l.calls),
          ))
  ]

pub wake_up-InStep :
    (takes : ℤ → Bool) (l : EventLoop) (made : Event)
    → InStep takes l
    → InStep takes (wake_up l made)
unfolding wake_up interest
wake_up-InStep takes l made h = elim (Option-cases l.pipe_event) [
  | inl fresh ↦
      rw (fresh, wake_up)
        (λ fd. add_event-InStep takes (record l { pipe_event = some made }) made h fd)
  | inr (old, there) ↦ rw (there, wake_up) h
]

-- A call on the loop that may reach the kernel.
pub data Op : Type 0 where
  add : Event → Op
  del : Event → Op
  writing : Event → Bool → Op
  reading : Event → Bool → Op
  wake : Event → Op

abbrev pub step : EventLoop → Op → EventLoop
step l (add e) = (add_event l e).0
step l (del e) = del_event l e
step l (writing e enable) = (enable_event_writing l e enable).0
step l (reading e enable) = (enable_event_reading l e enable).0
step l (wake made) = wake_up l made

abbrev pub steps : EventLoop → List Op → EventLoop
steps l [] = l
steps l (o ∷ os) = steps (step l o) os

step-InStep : (takes : ℤ → Bool) (l : EventLoop) (o : Op) → InStep takes l → InStep takes (step l o)
step-InStep takes l (add e) h = add_event-InStep takes l e h
step-InStep takes l (del e) h = del_event-InStep takes l e h
step-InStep takes l (writing e enable) h = enable_event_writing-InStep takes l e h enable
step-InStep takes l (reading e enable) h = enable_event_reading-InStep takes l e h enable
step-InStep takes l (wake made) h = wake_up-InStep takes l made h

-- After any sequence of AddEvent, DelEvent, EnableEventWriting, EnableEventReading and WakeUp the
-- kernel watches exactly the registered descriptors that it takes, if it did before.
pub steps-InStep :
    (takes : ℤ → Bool) (os : List Op) (l : EventLoop) → InStep takes l → InStep takes (steps l os)
steps-InStep takes [] l h = h
steps-InStep takes (o ∷ os) l h = steps-InStep takes os (step l o) (step-InStep takes l o h)

pub new_loop-InStep : (takes : ℤ → Bool) → InStep takes new_loop
unfolding new_loop interest apply_all lookup
new_loop-InStep takes fd = ground arith

abbrev pub written : EventLoop → Event → Bool → EventLoop × Event
written l e enable =
    let mask = if enable then mask_or e.event event_write else mask_without e.event event_write in
    (record l { calls = l.calls ++ ctl_mod e.fd mask ∷ [] }, record e { event = mask })

enable_event_writing-found :
    (l : EventLoop) (e : Event) (enable : Bool)
    → is_some (lookup e.fd l.events) ≡ true
    → enable_event_writing l e enable ≡ ((written l e enable).0, (written l e enable).1, true)
unfolding enable_event_writing
enable_event_writing-found l e enable there = elim (Option-cases (lookup e.fd l.events)) [
  | inl fresh ↦ absurd (ground (arith, fresh))
  | inr (other, found) ↦ rw (found, enable_event_writing) refl
]

-- For a registered event with the read flags and a descriptor that the kernel takes, in a loop in step with the kernel, writing switched
-- on and off again takes the edge-triggered flag off the object and off what the kernel watches.
pub enable_event_writing-edge :
    (takes : ℤ → Bool) (l : EventLoop) (e : Event)
    → takes e.fd ≡ true
    → InStep takes l
    → is_some (lookup e.fd l.events) ≡ true
    → e.event ≡ event_read
    → let (l1, e1, ok1) = enable_event_writing l e true in
      let (l2, e2, ok2) = enable_event_writing l1 e1 false in
      (e2.event ≡ record event_read { edge = false })
      × (lookup e.fd (interest takes l2) ≡ some (record event_read { edge = false }))
enable_event_writing-edge takes l e taken h there mask =
    let (l1, e1) = written l e true in
    let (l2, e2) = written l1 e1 false in
    let first : InStep takes (enable_event_writing l e true).0 =
      enable_event_writing-InStep takes l e h true in
    let after : InStep takes l1 =
      subst (λ r. InStep takes r.0) (enable_event_writing-found l e true there) first in
    let (ok, kernel) = enable_event_writing-mask takes l1 e1 after taken false there in
    rw (enable_event_writing-found l e true there, enable_event_writing-found l1 e1 false there)
      (
        ap (λ m. mask_without (mask_or m event_write) event_write) mask,
        subst (λ r. lookup e.fd (interest takes r.0) ≡ some r.1.event)
              (enable_event_writing-found l1 e1 false there) kernel
            ∙ ap (λ m. some (mask_without (mask_or m event_write) event_write)) mask,
      )
