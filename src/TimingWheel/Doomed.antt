-- ===== src/TimingWheel/Doomed.antt =====
-- A delay of whole minutes: network/net/TimingWheel.cc, lines 18 to 25 and 43 to 52. The minute wheel
-- hands the entry on with no second left, and the second wheel is then read in front of its start.
use wl_tmm.Prelude.{
  ℕ, zero, suc, ◌+◌, ◌-◌, ◌*◌, ◌/◌, ◌%◌, ◌^◌, ◌≤◌, ◌<◌, ◌≡◌, ◌≢◌, refl, sym, ap, ◌∙◌, List, [], ◌∷◌,
  arith, inl, inr, length, length-append, if◌then◌else◌, ◌==◌,
}
use native.Mathlib.Decide.{ℕ_discrete}
use wl_tmm.TimingWheel.{
  Entry, once, every, held, cascade, Slot, Wheel, TimingWheel, Event, done, invalid, insert_entry,
  insert_second_entry, before, add_entry,
}
use wl_tmm.TimingWheel.Sums.{sum_slot, sum_at, emplace_gains, emplace-none}
use wl_tmm.TimingWheel.Insert.{insert_entry-minute, insert_minute_entry-stored, insert_entry-Grows}
use wl_tmm.TimingWheel.Destroy.{and_then-done, destroy-Grows, release-Grows}
use wl_tmm.TimingWheel.Ticks.{
  Ticked, advance-Ticked, pop_up_seconds-done, pop_up_minutes-done, carry_lem,
}
use wl_tmm.TimingWheel.Due.{run}
use wl_tmm.TimingWheel.Schedule.{run_after-stored}
use wl_tmm.TimingWheel.Turn.{
  advance, run_after, release, destroy, pop_up_seconds, pop_up_minutes, carry,
}

-- Whether an entry will be handed on with no second left.
abbrev pub no_time_left : Entry → ℕ
no_time_left (once c) = 0
no_time_left (every interval c) = 0
no_time_left (held id) = 0
no_time_left (cascade second e) = if second == 0 then 1 else 0

-- A delay of 0 reaches an index outside of the second wheel.
pub insert_entry-zero :
    (w : TimingWheel) (e : Entry) → length w.seconds ≡ 60 → insert_entry w 0 e ≡ invalid
unfolding insert_entry insert_second_entry
insert_entry-zero w e h = ground (arith, emplace-none w.seconds (before 0) e (omega arith))

release-no_time_left :
    (e : Entry) (w w' : TimingWheel) (rest : Slot) (ev : List Event)
    → length w.seconds ≡ 60
    → 0 < no_time_left e
    → release w e rest ≢ done w' ev
unfolding release
release-no_time_left (once c) w w' rest ev size h ended = absurd (omega arith)
release-no_time_left (every n c) w w' rest ev size h ended = absurd (omega arith)
release-no_time_left (held id) w w' rest ev size h ended = absurd (omega arith)
release-no_time_left (cascade zero e) w w' rest ev size h ended =
    ground (arith, insert_entry-zero w e size)
release-no_time_left (cascade (suc n) e) w w' rest ev size h ended = absurd (ground arith)

destroy-no_time_left :
    (s : Slot) (w w' : TimingWheel) (ev : List Event)
    → length w.seconds ≡ 60
    → 0 < sum_slot no_time_left s
    → destroy w s ≢ done w' ev
unfolding destroy
destroy-no_time_left [] w w' ev size h ended = absurd (omega arith)
destroy-no_time_left (e ∷ rest) w w' ev size h ended =
    let (w1, ev1, ev2, first, second, all) =
      and_then-done (release w e rest) (λ w2. destroy w2 rest) w' ev ended in
    elim (ℕ_discrete (no_time_left e) 0) [
      | yes later ↦
          destroy-no_time_left rest w1 w' ev2
            (omega (arith, (release-Grows e w w1 rest ev1 first).second_slots)) (omega arith) second
      | no here ↦ release-no_time_left e w w1 rest ev1 size (omega arith) first
    ]

-- The tick that ends the minute of such an entry does not end.
advance-no_time_left :
    (w w' : TimingWheel) (ev : List Event)
    → length w.seconds ≡ 60
    → (w.tick + 1) % 2 ^ 64 % 60 ≡ 0
    → 0 < sum_at no_time_left w.minutes 0
    → advance w ≢ done w' ev
unfolding advance
advance-no_time_left w w' ev size whole h ended =
    let w0 : TimingWheel = record w { tick = (w.tick + 1) % 2 ^ 64 } in
    let (w1, ev1, ev2, first, second, all) = and_then-done (pop_up_seconds w0) carry w' ev ended in
    let (s, rest, e, run) = pop_up_seconds-done w0 w1 ev1 first in
    let g = destroy-Grows s _ w1 ev1 run in
    let minute : carry w1 ≡ pop_up_minutes w1 = elim (carry_lem w1) [
      | inl (_, same) ↦ same
      | inr (part, _) ↦ absurd (part (ap (λ n. n % 60) g.same_tick ∙ whole))
    ] in
    let (s', rest', e', run') = pop_up_minutes-done w1 w' ev2 (sym minute ∙ second) in
    destroy-no_time_left s' _ w' ev2
      (omega (arith, g.second_slots, ap (length {A = Slot}) e, length-append rest ([] ∷ [])))
      (omega (arith, g.minutes no_time_left 0, ap (λ (u : Wheel). sum_at no_time_left u 0) e')) run'

-- `n` ticks from here such an entry comes to the front.
record Doomed (w : TimingWheel) (n : ℕ) : Type 0 where
  place : ℕ
  size : length w.seconds ≡ 60
  count : n ≡ 60 * (place + 1) - w.tick % 60
  waits : 0 < sum_at no_time_left w.minutes place

module _ (w w' : TimingWheel) (ev : List Event) (step : advance w ≡ done w' ev) where
  Doomed-last : w.tick + 1 < 2 ^ 64 → ¬ Doomed w 1
  Doomed-last room d =
      advance-no_time_left w w' ev d.size (omega (arith, d.count))
        (omega (arith, d.waits, ap (sum_at no_time_left w.minutes) front)) step
    where
      front : d.place ≡ 0
      front = omega (arith, d.count)

  Doomed-next : (n : ℕ) → w.tick + 1 < 2 ^ 64 → Doomed w (suc (suc n)) → Doomed w' (suc n)
  Doomed-next n room d = elim (ℕ_discrete ((w.tick + 1) % 60) 0) [
    | yes whole ↦ turn d.place (d.count) d.waits whole
    | no part ↦ record {
      place = d.place;
      size = omega (arith, t.second_slots, d.size);
      count = omega (arith, t.clock, d.count);
      waits = omega (arith, t.minutes (omega arith) no_time_left d.place, d.waits);
    }
  ]
    where
      t : Ticked w w' ev
      t = advance-Ticked w w' ev step

      turn :
          (j : ℕ)
          → suc (suc n) ≡ 60 * (j + 1) - w.tick % 60
          → 0 < sum_at no_time_left w.minutes j
          → (w.tick + 1) % 60 ≡ 0
          → Doomed w' (suc n)
      turn zero e h whole = absurd (omega arith)
      turn (suc j) e h whole = record {
        place = j;
        size = omega (arith, t.second_slots, d.size);
        count = omega (arith, t.clock);
        waits = omega (arith, t.whole_minute (omega arith) no_time_left j);
      }

run-Doomed :
    (n : ℕ) (w w' : TimingWheel) (ev : List Event)
    → Doomed w (suc n)
    → w.tick + suc n < 2 ^ 64
    → run (suc n) w ≢ done w' ev
unfolding run
run-Doomed zero w w' ev d room ended =
    let (w1, ev1, ev2, first, second, _) = and_then-done (advance w) (run 0) w' ev ended in
    Doomed-last w w1 ev1 first (omega arith) d
run-Doomed (suc n) w w' ev d room ended =
    let (w1, ev1, ev2, first, second, _) = and_then-done (advance w) (run (suc n)) w' ev ended in
    run-Doomed n w1 w' ev2 (Doomed-next w w1 ev1 first n (omega arith) d)
      (omega (arith, (advance-Ticked w w1 ev1 first).clock)) second

add_cascade :
    (n : ℕ) (e : Entry) (s : Slot)
    → sum_slot no_time_left (add_entry (cascade n e) s)
      ≡ no_time_left (cascade n e) + sum_slot no_time_left s
unfolding add_entry
add_cascade n e s = refl

-- A RunAfter timer of 1 to 59 whole minutes makes the ticks up to the one at which the minute
-- wheel hands it on not end, for a second wheel of 60 slots and a tick counter that does not
-- overflow.
pub run_after-whole_minutes :
    (w w0 w' : TimingWheel) (delay cb : ℕ) (ev0 ev : List Event)
    → length w.seconds ≡ 60
    → 60 ≤ delay
    → delay < 3600
    → delay % 60 ≡ 0
    → run_after w delay cb ≡ done w0 ev0
    → w.tick + delay < 2 ^ 64
    → run (delay - w.tick % 60) w0 ≢ done w' ev
run_after-whole_minutes w w0 w' delay cb ev0 ev size low high whole h room =
    let found = run_after-stored w w0 delay cb ev0 (omega arith) h in
    let (wheel, stored_at, same) =
      insert_minute_entry-stored w w0 delay (once cb)
        (sym (insert_entry-minute w delay (once cb) low high) ∙ found) in
    let g = insert_entry-Grows w w0 delay (once cb) found in
    let place : before (delay / 60) ≡ delay / 60 - 1 = omega arith in
    let gain =
      (emplace_gains w.minutes wheel (before (delay / 60)) (cascade (delay % 60) (once cb))
        no_time_left (add_cascade (delay % 60) (once cb)) stored_at).0 in
    let count : delay - w.tick % 60 ≡ suc (delay - w.tick % 60 - 1) = omega arith in
    rw count (
      run-Doomed (delay - w.tick % 60 - 1) w0 w' ev
        (record {
          place = delay / 60 - 1;
          size = omega (arith, g.second_slots);
          count = omega (arith, g.same_tick);
          waits = ground (
            arith,
            gain,
            place,
            whole,
            ap (λ (u : TimingWheel). sum_at no_time_left u.minutes (delay / 60 - 1)) same,
            ap (sum_at no_time_left wheel) place,
          );
        })
        (omega (arith, g.same_tick)))
