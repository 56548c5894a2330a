-- ===== src/TimingWheel/Conserve.antt =====
-- One-shot timers are counted: none is lost and none runs twice. network/net/TimingWheel.cc.
use wl_tmm.Prelude.{
  ℕ, ◌+◌, ◌%◌, ◌≡◌, refl, some, List, [], ◌∷◌, ◌++◌, arith, inl, inr, ◌==◌, if◌then◌else◌,
}
use wl_tmm.TimingWheel.{
  Entry, once, every, held, cascade, Slot, Wheel, TimingWheel, Event, called, repeated, expired,
  done, stored, insert_entry, add_entry, before, timing_hour, timing_day, emplace,
}
use wl_tmm.TimingWheel.Sums.{sum_slot, sum_wheel, sum_all, emplace_gains}
use wl_tmm.TimingWheel.Insert.{
  insert_entry-wheel, insert_second_entry-stored, insert_minute_entry-stored,
  insert_hour_entry-stored, insert_day_entry-stored,
}
use wl_tmm.TimingWheel.Destroy.{Inserted-cases, and_then-done, add_events-done}
use wl_tmm.TimingWheel.Turn.{run_every, release, destroy}

-- How often an entry stands for the one-shot timer `cb`.
abbrev pub timers : ℕ → Entry → ℕ
timers cb (once c) = if c == cb then 1 else 0
timers cb (every interval c) = 0
timers cb (held id) = 0
timers cb (cascade second e) = timers cb e

-- How often it ran.
abbrev pub calls : ℕ → List Event → ℕ
calls cb [] = 0
calls cb (called c ∷ ev) = (if c == cb then 1 else 0) + calls cb ev
calls cb (repeated c ∷ ev) = calls cb ev
calls cb (expired id ∷ ev) = calls cb ev

pub calls-append :
    (cb : ℕ) (ev ev' : List Event) → calls cb (ev ++ ev') ≡ calls cb ev + calls cb ev'
calls-append cb [] ev' = omega arith
calls-append cb (called c ∷ ev) ev' = omega (arith, calls-append cb ev ev')
calls-append cb (repeated c ∷ ev) ev' = calls-append cb ev ev'
calls-append cb (expired id ∷ ev) ev' = calls-append cb ev ev'

pub add_entry-timers :
    (cb : ℕ) (e : Entry) (s : Slot)
    → sum_slot (timers cb) (add_entry e s) ≡ timers cb e + sum_slot (timers cb) s
unfolding add_entry
add_entry-timers cb (once c) s = refl
add_entry-timers cb (every n c) s = refl
add_entry-timers cb (held id) s = ground arith
add_entry-timers cb (cascade n e) s = refl

-- Storing an entry adds it to what the wheels hold.
pub insert_entry-timers :
    (cb : ℕ) (w w' : TimingWheel) (delay : ℕ) (e : Entry)
    → insert_entry w delay e ≡ stored w'
    → sum_all (timers cb) w' ≡ timers cb e + sum_all (timers cb) w
insert_entry-timers cb w w' delay e h = elim (insert_entry-wheel w w' delay e h) [
  | inl second ↦
      let (wheel, found, same) = insert_second_entry-stored w w' delay e second in
      rw same (omega (arith, gains w.seconds wheel (before delay) e found))
  | inr (inl minute) ↦
      let (wheel, found, same) = insert_minute_entry-stored w w' delay e minute in
      rw same (omega (arith, gains w.minutes wheel _ (cascade (delay % 60) e) found))
  | inr (inr (inl hour)) ↦
      let (wheel, found, same) = insert_hour_entry-stored w w' delay e hour in
      rw same (omega (arith, gains w.hours wheel _ (cascade (delay % timing_hour) e) found))
  | inr (inr (inr day)) ↦
      let (wheel, found, same) = insert_day_entry-stored w w' delay e day in
      rw same (omega (arith, gains w.days wheel _ (cascade (delay % timing_day) e) found))
]
  where
    gains :
        (u v : Wheel) (i : ℕ) (a : Entry)
        → emplace u i a ≡ some v
        → sum_wheel (timers cb) v ≡ timers cb a + sum_wheel (timers cb) u
    gains u v i a found = (emplace_gains u v i a (timers cb) (add_entry-timers cb a) found).1

run_every-timers :
    (cb : ℕ) (w w' : TimingWheel) (interval c : ℕ) (ev : List Event)
    → run_every w interval c ≡ done w' ev
    → sum_all (timers cb) w' + calls cb ev ≡ sum_all (timers cb) w
unfolding run_every
run_every-timers cb w w' interval c ev h =
    elim (Inserted-cases (insert_entry w interval (every interval c))) [
      | inl (w1, found) ↦
          let same : w1 ≡ w' = ground (arith, found) in
          let quiet : [] ≡ ev = ground (arith, found) in
          rw (← same, ← quiet)
            (omega (arith, insert_entry-timers cb w w1 interval (every interval c) found))
      | inr (inl no_room) ↦ absurd (ground (arith, no_room))
      | inr (inr outside) ↦ absurd (ground (arith, outside))
    ]

pub release-timers :
    (cb : ℕ) (e : Entry) (w w' : TimingWheel) (rest : Slot) (ev : List Event)
    → release w e rest ≡ done w' ev
    → sum_all (timers cb) w' + calls cb ev ≡ timers cb e + sum_all (timers cb) w
unfolding release
release-timers cb (once c) w w' rest ev h =
    let same : w ≡ w' = ground arith in
    let ran : called c ∷ [] ≡ ev = ground arith in rw (← same, ← ran) (omega arith)
release-timers cb (every interval c) w w' rest ev h =
    let (ev2, ran, all) = add_events-done (repeated c ∷ []) (run_every w interval c) w' ev h in
    rw all (omega (arith, run_every-timers cb w w' interval c ev2 ran))
release-timers cb (held id) w w' rest ev h = ground arith
release-timers cb (cascade second e) w w' rest ev h =
    elim (Inserted-cases (insert_entry w second e)) [
      | inl (w1, found) ↦
          let same : w1 ≡ w' = ground (arith, found) in
          let quiet : [] ≡ ev = ground (arith, found) in
          rw (← same, ← quiet) (omega (arith, insert_entry-timers cb w w1 second e found))
      | inr (inl no_room) ↦ release-timers cb e w w' rest ev (ground (arith, no_room, h))
      | inr (inr outside) ↦ absurd (ground (arith, outside))
    ]

-- Dropping a slot: each one-shot timer in it has run or is in a wheel.
pub destroy-timers :
    (cb : ℕ) (s : Slot) (w w' : TimingWheel) (ev : List Event)
    → destroy w s ≡ done w' ev
    → sum_all (timers cb) w' + calls cb ev ≡ sum_slot (timers cb) s + sum_all (timers cb) w
unfolding destroy
destroy-timers cb [] w w' ev h =
    let same : w ≡ w' = ground arith in
    let quiet : [] ≡ ev = ground arith in rw (← same, ← quiet) (omega arith)
destroy-timers cb (e ∷ rest) w w' ev h =
    let (w1, ev1, ev2, first, second, all) =
      and_then-done (release w e rest) (λ w2. destroy w2 rest) w' ev h in
    rw all (
      omega (
        arith,
        release-timers cb e w w1 rest ev1 first,
        destroy-timers cb rest w1 w' ev2 second,
        calls-append cb ev1 ev2,
      ))
