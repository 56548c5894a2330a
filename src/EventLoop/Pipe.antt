-- ===== src/EventLoop/Pipe.antt =====
-- The pipe that wakes a loop: network/net/PipeEvent.cc. A pipe holds up to `capacity` bytes; a write of
-- a word fails when there is no room for it, and its result is not used.
use wl_tmm.Prelude.{
  ℕ, zero, suc, ◌+◌, ◌-◌, ◌*◌, ◌≤◌, ◌≡◌, ap, ◌∙◌, Option, none, some, List, [], ◌∷◌, true, leb,
  arith, if◌then◌else◌,
}
use wl_tmm.Prelude.Int.{ℤ, pos, negsuc, ltb_ℤ}
use wl_tmm.EventLoop.{Event}

-- `pending` is the number of bytes in the pipe, `shut` the descriptors that were closed.
pub record PipeEvent : Type 0 where
  pub event : Event
  pub write_fd : ℤ
  pub pending : ℕ
  pub shut : List ℤ

-- The constructor, for what pipe2 gives; otherwise the process ends.
unfoldable pub new_pipe_event : Event → Option (ℤ × ℤ) → Option PipeEvent
new_pipe_event e none = none
new_pipe_event e (some (read_end, write_end)) =
    some
      (record { event = record e { fd = read_end }; write_fd = write_end; pending = 0; shut = [] })

abbrev pub word : ℕ
word = 8

-- `OnRead`: one word, when there is one.
unfoldable pub on_read : PipeEvent → PipeEvent
on_read p = record p { pending = p.pending - word }

-- `OnClose`, and the destructor.
unfoldable pub on_close : PipeEvent → PipeEvent
on_close p =
    if ltb_ℤ (pos 0) p.write_fd
    then record p { write_fd = negsuc 0; shut = p.write_fd ∷ p.shut }
    else p

-- `Write`, of a word.
unfoldable pub write : ℕ → PipeEvent → PipeEvent
write capacity p =
    if leb (p.pending + word) capacity then record p { pending = p.pending + word } else p

unfoldable pub write_times : ℕ → ℕ → PipeEvent → PipeEvent
write_times capacity zero p = p
write_times capacity (suc n) p = write_times capacity n (write capacity p)

-- Turns of the loop, each behind a number of wake-ups.
unfoldable pub turns : ℕ → ℕ → ℕ → PipeEvent → PipeEvent
turns capacity wakes zero p = p
turns capacity wakes (suc n) p = turns capacity wakes n (on_read (write_times capacity wakes p))

write_times-pending :
    (capacity n : ℕ) (p : PipeEvent)
    → p.pending + n * word ≤ capacity
    → (write_times capacity n p).pending ≡ p.pending + n * word
unfolding write_times write
write_times-pending capacity zero p room = omega arith
write_times-pending capacity (suc n) p room =
    let fits : leb (p.pending + word) capacity ≡ true = ground (arith, room) in
    let wrote : write capacity p ≡ record p { pending = p.pending + word } = ground (arith, fits) in
    ap (λ q. (write_times capacity n q).pending) wrote
    ∙ write_times-pending capacity n (record p { pending = p.pending + word }) (omega (arith, room))
    ∙ omega arith

-- While there is room, a word stays in the pipe for each wake-up of a turn but one.
pub turns-pending :
    (capacity wakes n : ℕ) (p : PipeEvent)
    → p.pending + n * wakes * word + word ≤ capacity
    → (turns capacity (suc wakes) n p).pending ≡ p.pending + n * wakes * word
unfolding turns on_read
turns-pending capacity wakes zero p room = omega arith
turns-pending capacity wakes (suc n) p room =
    let more : suc n * wakes ≡ wakes + n * wakes = omega arith in
    let wrote = write_times-pending capacity (suc wakes) p (omega (arith, room, more)) in
    let after : PipeEvent = on_read (write_times capacity (suc wakes) p) in
    turns-pending capacity wakes n after (omega (arith, room, more, wrote))
    ∙ omega (arith, more, wrote)
