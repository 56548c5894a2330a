-- ===== src/TimingWheel/Expire.antt =====
-- An object that the second wheel alone holds expires once, when its slot is dropped:
-- network/net/TimingWheel.cc, lines 14 to 17, 43 to 47 and 83 to 105.
use wl_tmm.Prelude.{
  ℕ, zero, suc, ◌+◌, ◌%◌, ◌≤◌, ◌<◌, ◌≡◌, some, List, [], ◌∷◌, ◌++◌, true, ◌==◌, if◌then◌else◌,
  arith, inl, inr, Option-cases,
}
use wl_tmm.TimingWheel.{
  Entry, once, every, held, cascade, Slot, Wheel, TimingWheel, Event, called, repeated, expired,
  done, stored, insert_entry, add_entry, timing_hour, timing_day, emplace,
}
use wl_tmm.TimingWheel.Sums.{sum_slot, sum_wheel, sum_all}
use wl_tmm.TimingWheel.Insert.{
  insert_entry-wheel, insert_second_entry-stored, insert_minute_entry-stored,
  insert_hour_entry-stored, insert_day_entry-stored,
}
use wl_tmm.TimingWheel.Destroy.{Inserted-cases, add_events-done}
use wl_tmm.TimingWheel.Turn.{refers, slot_refers, wheel_refers, is_referenced, run_every, release}

-- How often an entry refers to an object.
abbrev pub refs : ℕ → Entry → ℕ
refs id (once c) = 0
refs id (every interval c) = 0
refs id (held i) = if i == id then 1 else 0
refs id (cascade second e) = refs id e

-- Whether it is the object itself, and not on its way to a smaller wheel.
abbrev pub holds : ℕ → Entry → ℕ
holds id (once c) = 0
holds id (every interval c) = 0
holds id (held i) = if i == id then 1 else 0
holds id (cascade second e) = 0

-- How often the object expired.
abbrev pub expiries : ℕ → List Event → ℕ
expiries id [] = 0
expiries id (called c ∷ ev) = expiries id ev
expiries id (repeated c ∷ ev) = expiries id ev
expiries id (expired i ∷ ev) = (if i == id then 1 else 0) + expiries id ev

pub expiries-append :
    (id : ℕ) (ev ev' : List Event) → expiries id (ev ++ ev') ≡ expiries id ev + expiries id ev'
expiries-append id [] ev' = omega arith
expiries-append id (called c ∷ ev) ev' = expiries-append id ev ev'
expiries-append id (repeated c ∷ ev) ev' = expiries-append id ev ev'
expiries-append id (expired i ∷ ev) ev' = omega (arith, expiries-append id ev ev')

-- What refers to an object is counted.
refers-refs : (id : ℕ) (e : Entry) → refers id e ≡ true → 0 < refs id e
unfolding refers
refers-refs id (once c) h = absurd (ground (arith, h))
refers-refs id (every n c) h = absurd (ground (arith, h))
refers-refs id (held i) h = ground (arith, h)
refers-refs id (cascade n e) h = refers-refs id e h

pub slot_refers-refs : (id : ℕ) (s : Slot) → slot_refers id s ≡ true → 0 < sum_slot (refs id) s
unfolding slot_refers
slot_refers-refs id [] h = absurd (ground (arith, h))
slot_refers-refs id (e ∷ s) h = ground (arith, h, refers-refs id e, slot_refers-refs id s)

wheel_refers-refs : (id : ℕ) (w : Wheel) → wheel_refers id w ≡ true → 0 < sum_wheel (refs id) w
unfolding wheel_refers
wheel_refers-refs id [] h = absurd (ground (arith, h))
wheel_refers-refs id (s ∷ w) h = ground (arith, h, slot_refers-refs id s, wheel_refers-refs id w)

pub is_referenced-refs :
    (id : ℕ) (w : TimingWheel) → is_referenced id w ≡ true → 0 < sum_all (refs id) w
unfolding is_referenced
is_referenced-refs id w h = ground (
  arith,
  h,
  wheel_refers-refs id w.seconds,
  wheel_refers-refs id w.minutes,
  wheel_refers-refs id w.hours,
  wheel_refers-refs id w.days,
)

pub add_entry-refs :
    (id : ℕ) (e : Entry) (s : Slot)
    → sum_slot (refs id) (add_entry e s) ≤ refs id e + sum_slot (refs id) s
unfolding add_entry
add_entry-refs id (once c) s = omega arith
add_entry-refs id (every n c) s = omega arith
add_entry-refs id (held i) s = ground arith
add_entry-refs id (cascade n e) s = omega arith

emplace-refs :
    (id : ℕ) (w w' : Wheel) (i : ℕ) (e : Entry)
    → emplace w i e ≡ some w'
    → sum_wheel (refs id) w' ≤ refs id e + sum_wheel (refs id) w
unfolding emplace
emplace-refs id [] w' i e h = cc
emplace-refs id (s ∷ w) w' zero e h = ground (arith, add_entry-refs id e s)
emplace-refs id (s ∷ w) w' (suc i) e h = elim (Option-cases (emplace w i e)) [
  | inl no_slot ↦ absurd (ground (arith, no_slot))
  | inr (w'', found) ↦ ground (arith, found, emplace-refs id w w'' i e found)
]

-- Storing an entry adds no more references than it has.
pub insert_entry-refs :
    (id : ℕ) (w w' : TimingWheel) (delay : ℕ) (e : Entry)
    → insert_entry w delay e ≡ stored w'
    → sum_all (refs id) w' ≤ refs id e + sum_all (refs id) w
insert_entry-refs id w w' delay e h = elim (insert_entry-wheel w w' delay e h) [
  | inl second ↦
      let (wheel, found, same) = insert_second_entry-stored w w' delay e second in
      rw same (omega (arith, emplace-refs id w.seconds wheel _ e found))
  | inr (inl minute) ↦
      let (wheel, found, same) = insert_minute_entry-stored w w' delay e minute in
      rw same (omega (arith, emplace-refs id w.minutes wheel _ (cascade (delay % 60) e) found))
  | inr (inr (inl hour)) ↦
      let (wheel, found, same) = insert_hour_entry-stored w w' delay e hour in
      rw same
        (omega (arith, emplace-refs id w.hours wheel _ (cascade (delay % timing_hour) e) found))
  | inr (inr (inr day)) ↦
      let (wheel, found, same) = insert_day_entry-stored w w' delay e day in
      rw same (omega (arith, emplace-refs id w.days wheel _ (cascade (delay % timing_day) e) found))
]

run_every-refs :
    (id : ℕ) (w w' : TimingWheel) (interval c : ℕ) (ev : List Event)
    → run_every w interval c ≡ done w' ev
    → sum_all (refs id) w' + expiries id ev ≤ sum_all (refs id) w
unfolding run_every
run_every-refs id w w' interval c ev h =
    elim (Inserted-cases (insert_entry w interval (every interval c))) [
      | inl (w1, found) ↦
          let same : w1 ≡ w' = ground (arith, found) in
          let quiet : [] ≡ ev = ground (arith, found) in
          rw (← same, ← quiet)
            (omega (arith, insert_entry-refs id w w1 interval (every interval c) found))
      | inr (inl no_room) ↦ absurd (ground (arith, no_room))
      | inr (inr outside) ↦ absurd (ground (arith, outside))
    ]

-- Dropping a reference makes no new one, and no expiry but for it.
pub release-refs :
    (id : ℕ) (e : Entry) (w w' : TimingWheel) (rest : Slot) (ev : List Event)
    → release w e rest ≡ done w' ev
    → sum_all (refs id) w' + expiries id ev ≤ refs id e + sum_all (refs id) w
unfolding release
release-refs id (once c) w w' rest ev h =
    let same : w ≡ w' = ground arith in
    let ran : called c ∷ [] ≡ ev = ground arith in rw (← same, ← ran) (omega arith)
release-refs id (every interval c) w w' rest ev h =
    let (ev2, ran, all) = add_events-done (repeated c ∷ []) (run_every w interval c) w' ev h in
    rw all (omega (arith, run_every-refs id w w' interval c ev2 ran))
release-refs id (held i) w w' rest ev h = ground arith
release-refs id (cascade second e) w w' rest ev h =
    elim (Inserted-cases (insert_entry w second e)) [
      | inl (w1, found) ↦
          let same : w1 ≡ w' = ground (arith, found) in
          let quiet : [] ≡ ev = ground (arith, found) in
          rw (← same, ← quiet) (omega (arith, insert_entry-refs id w w1 second e found))
      | inr (inl no_room) ↦ release-refs id e w w' rest ev (ground (arith, no_room, h))
      | inr (inr outside) ↦ absurd (ground (arith, outside))
    ]
