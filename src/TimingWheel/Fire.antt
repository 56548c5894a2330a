-- ===== src/TimingWheel/Fire.antt =====
-- The first slot of the second wheel runs, and that of the minute wheel moves to the second wheel:
-- network/net/TimingWheel.cc, lines 14 to 26 and 83 to 111.
use wl_tmm.Prelude.{
  ℕ, ◌+◌, ◌-◌, ◌%◌, ◌^◌, ◌≤◌, ◌<◌, ◌≡◌, ◌≢◌, refl, sym, ap, ◌∙◌, List, [], ◌∷◌, arith, inl, inr,
  ◌==◌, if◌then◌else◌, Bool-cases, ==_iff,
}
use wl_tmm.TimingWheel.{
  Entry, once, every, held, cascade, Slot, Wheel, TimingWheel, Event, done, add_entry, stored,
  refused, insert_entry, before, insert_second_entry, emplace,
}
use wl_tmm.TimingWheel.Sums.{sum_slot, sum_at, emplace_gains}
use wl_tmm.TimingWheel.Insert.{insert_entry-second, insert_second_entry-stored}
use wl_tmm.TimingWheel.Destroy.{and_then-done, release-Grows, destroy-Grows, Inserted-cases}
use wl_tmm.TimingWheel.Conserve.{calls, calls-append}
use wl_tmm.TimingWheel.Ticks.{pop_up_seconds-done, pop_up_minutes-done, carry_lem}
use wl_tmm.TimingWheel.Turn.{release, destroy, pop_up_seconds, pop_up_minutes, carry, advance}

-- Whether an entry is the one-shot timer `cb` itself, and not one on its way to a smaller wheel.
abbrev pub direct : ℕ → Entry → ℕ
direct cb (once c) = if c == cb then 1 else 0
direct cb (every interval c) = 0
direct cb (held id) = 0
direct cb (cascade second e) = 0

-- Whether an entry will put the timer `cb` back with `k` seconds left.
abbrev pub pending : ℕ → ℕ → Entry → ℕ
pending k cb (once c) = 0
pending k cb (every interval c) = 0
pending k cb (held id) = 0
pending k cb (cascade second e) = if second == k then direct cb e else 0

release-calls :
    (cb : ℕ) (e : Entry) (w w' : TimingWheel) (rest : Slot) (ev : List Event)
    → release w e rest ≡ done w' ev
    → direct cb e ≤ calls cb ev
unfolding release
release-calls cb (once c) w w' rest ev h = ground arith
release-calls cb (every n c) w w' rest ev h = omega arith
release-calls cb (held id) w w' rest ev h = omega arith
release-calls cb (cascade n e) w w' rest ev h = omega arith

-- Dropping a slot runs the one-shot timers in it.
pub destroy-calls :
    (cb : ℕ) (s : Slot) (w w' : TimingWheel) (ev : List Event)
    → destroy w s ≡ done w' ev
    → sum_slot (direct cb) s ≤ calls cb ev
unfolding destroy
destroy-calls cb [] w w' ev h = omega arith
destroy-calls cb (e ∷ rest) w w' ev h =
    let (w1, ev1, ev2, first, second, all) =
      and_then-done (release w e rest) (λ w2. destroy w2 rest) w' ev h in
    omega (
      arith,
      release-calls cb e w w1 rest ev1 first,
      destroy-calls cb rest w1 w' ev2 second,
      ap (calls cb) all,
      calls-append cb ev1 ev2,
    )

add_entry-direct :
    (cb : ℕ) (e : Entry) (s : Slot)
    → sum_slot (direct cb) (add_entry e s) ≡ direct cb e + sum_slot (direct cb) s
unfolding add_entry
add_entry-direct cb (once c) s = refl
add_entry-direct cb (every n c) s = refl
add_entry-direct cb (held id) s = ground arith
add_entry-direct cb (cascade n e) s = refl

-- An entry of at most 59 seconds is put in the slot before that number.
pub insert_entry-direct :
    (cb k : ℕ) (e : Entry) (w w' : TimingWheel)
    → 0 < k
    → k < 60
    → insert_entry w k e ≡ stored w'
    → sum_at (direct cb) w'.seconds (k - 1) ≡ direct cb e + sum_at (direct cb) w.seconds (k - 1)
insert_entry-direct cb k e w w' low high h =
    let (wheel, found, same) =
      insert_second_entry-stored w w' k e (sym (insert_entry-second w k e high) ∙ h) in
    let place : before k ≡ k - 1 = omega arith in
    rw same
      (emplace_gains w.seconds wheel (k - 1) e (direct cb) (add_entry-direct cb e)
        (ap (λ i. emplace w.seconds i e) (sym place) ∙ found)).0

insert_entry-not_refused :
    (k : ℕ) (e : Entry) (w : TimingWheel) → k < 60 → insert_entry w k e ≢ refused
unfolding insert_entry insert_second_entry
insert_entry-not_refused k e w h = ground arith

release_cascade-stored :
    (k : ℕ) (e : Entry) (w w' : TimingWheel) (rest : Slot) (ev : List Event)
    → k < 60
    → release w (cascade k e) rest ≡ done w' ev
    → insert_entry w k e ≡ stored w'
unfolding release
release_cascade-stored k e w w' rest ev high h = elim (Inserted-cases (insert_entry w k e)) [
  | inl (w1, found) ↦ found ∙ ap stored (let same : w1 ≡ w' = ground (arith, found) in same)
  | inr (inl no_room) ↦ absurd (insert_entry-not_refused k e w high no_room)
  | inr (inr outside) ↦ absurd (ground (arith, outside))
]

release-pending :
    (cb k : ℕ) (e : Entry) (w w' : TimingWheel) (rest : Slot) (ev : List Event)
    → 0 < k
    → k < 60
    → release w e rest ≡ done w' ev
    → pending k cb e + sum_at (direct cb) w.seconds (k - 1) ≤ sum_at (direct cb) w'.seconds (k - 1)
release-pending cb k (once c) w w' rest ev low high h =
    omega (arith, (release-Grows (once c) w w' rest ev h).seconds (direct cb) (k - 1))
release-pending cb k (every n c) w w' rest ev low high h =
    omega (arith, (release-Grows (every n c) w w' rest ev h).seconds (direct cb) (k - 1))
release-pending cb k (held id) w w' rest ev low high h =
    omega (arith, (release-Grows (held id) w w' rest ev h).seconds (direct cb) (k - 1))
release-pending cb k (cascade n e) w w' rest ev low high h = elim (Bool-cases (n == k)) [
  | inl hit ↦ rw hit (omega (arith, released ((==_iff n k).0 hit)))
  | inr miss ↦
      rw miss
        (omega (arith, (release-Grows (cascade n e) w w' rest ev h).seconds (direct cb) (k - 1)))
]
  where
    released :
        n ≡ k
        → sum_at (direct cb) w'.seconds (k - 1) ≡ direct cb e + sum_at (direct cb) w.seconds (k - 1)
    released same = insert_entry-direct cb k e w w' low high (
        release_cascade-stored k e w w' rest ev high
          (ap (λ m. release w (cascade m e) rest) (sym same) ∙ h))

-- Dropping a slot puts the timers that wait in it for `k` seconds into the slot for these.
pub destroy-pending :
    (cb k : ℕ) (s : Slot) (w w' : TimingWheel) (ev : List Event)
    → 0 < k
    → k < 60
    → destroy w s ≡ done w' ev
    → sum_slot (pending k cb) s + sum_at (direct cb) w.seconds (k - 1)
      ≤ sum_at (direct cb) w'.seconds (k - 1)
unfolding destroy
destroy-pending cb k [] w w' ev low high h =
    omega (arith, ap (λ (u : TimingWheel). sum_at (direct cb) u.seconds (k - 1)) (same h))
  where
    same : done w [] ≡ done w' ev → w ≡ w'
    same e = cc
destroy-pending cb k (e ∷ rest) w w' ev low high h =
    let (w1, ev1, ev2, first, second, all) =
      and_then-done (release w e rest) (λ w2. destroy w2 rest) w' ev h in
    omega (
      arith,
      release-pending cb k e w w1 rest ev1 low high first,
      destroy-pending cb k rest w1 w' ev2 low high second,
    )

-- A tick runs the one-shot timers in the first slot of the second wheel.
pub advance-calls :
    (cb : ℕ) (w w' : TimingWheel) (ev : List Event)
    → advance w ≡ done w' ev
    → sum_at (direct cb) w.seconds 0 ≤ calls cb ev
unfolding advance
advance-calls cb w w' ev h =
    let w0 : TimingWheel = record w { tick = (w.tick + 1) % 2 ^ 64 } in
    let (w1, ev1, ev2, first, second, all) = and_then-done (pop_up_seconds w0) carry w' ev h in
    let (s, rest, e, run) = pop_up_seconds-done w0 w1 ev1 first in
    omega (
      arith,
      ap (λ (u : Wheel). sum_at (direct cb) u 0) e,
      destroy-calls cb s _ w1 ev1 run,
      ap (calls cb) all,
      calls-append cb ev1 ev2,
    )

-- A tick that ends a minute puts the timers in the first slot of the minute wheel into the second
-- wheel, for the seconds that they have left.
pub advance-pending :
    (cb k : ℕ) (w w' : TimingWheel) (ev : List Event)
    → 0 < k
    → k < 60
    → (w.tick + 1) % 2 ^ 64 % 60 ≡ 0
    → advance w ≡ done w' ev
    → sum_at (pending k cb) w.minutes 0 ≤ sum_at (direct cb) w'.seconds (k - 1)
unfolding advance
advance-pending cb k w w' ev low high whole h =
    let w0 : TimingWheel = record w { tick = (w.tick + 1) % 2 ^ 64 } in
    let (w1, ev1, ev2, first, second, all) = and_then-done (pop_up_seconds w0) carry w' ev h in
    let (s, rest, e, run) = pop_up_seconds-done w0 w1 ev1 first in
    let g = destroy-Grows s _ w1 ev1 run in
    let minute : carry w1 ≡ pop_up_minutes w1 = elim (carry_lem w1) [
      | inl (_, same) ↦ same
      | inr (part, _) ↦ absurd (part (ap (λ n. n % 60) g.same_tick ∙ whole))
    ] in
    let (s', rest', e', run') = pop_up_minutes-done w1 w' ev2 (sym minute ∙ second) in
    omega (
      arith,
      g.minutes (pending k cb) 0,
      ap (λ (u : Wheel). sum_at (pending k cb) u 0) e',
      destroy-pending cb k s' _ w' ev2 low high run',
    )
