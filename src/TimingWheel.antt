-- ===== src/TimingWheel.antt =====
-- network/net/TimingWheel.h and TimingWheel.cc: four wheels of slots, turned once a second.
-- `std::shared_ptr` counts references, and a timer runs when the last reference to its entry goes:
-- dropping a slot releases its entries in one order (that of an `unordered_set` is not specified).
-- What a callback does to the wheel in its turn is a later call.
pub mod Turn
pub mod Sums
pub mod Insert
pub mod Destroy
pub mod Conserve
pub mod Ticks
pub mod Fire
pub mod Due
pub mod Expire
pub mod Schedule
pub mod Hours
pub mod Dropped
pub mod Idle
pub mod Alive
pub mod Doomed
pub mod Sound
pub mod Total
pub mod Clock
mod Tests
use wl_tmm.Prelude.{
  ℕ, zero, suc, ◌+◌, ◌-◌, ◌*◌, ◌/◌, ◌%◌, ◌^◌, Option, none, some, List, [], ◌∷◌, ◌++◌, Bool, true,
  false, ◌||◌, leb, ltb, ◌==◌, if◌then◌else◌, replicate, length,
}
use wl_tmm.Prelude.Int.{ℤ, pos, ◌-ℤ◌}
use mathlib.Core.Option

-- What an `EntryPtr` points to: the entries of RunAfter and RunEvery with the number of their
-- callback, an object that the caller owns in part, such as a TimeoutEntry, or the CallBackEntry
-- that puts an entry back with the seconds that are left.
pub data Entry : Type 0 where
  once : ℕ → Entry
  every : ℕ → ℕ → Entry
  held : ℕ → Entry
  cascade : ℕ → Entry → Entry

abbrev pub Slot : Type 0
Slot = List Entry

abbrev pub Wheel : Type 0
Wheel = List Slot

pub record TimingWheel : Type 0 where
  pub seconds : Wheel
  pub minutes : Wheel
  pub hours : Wheel
  pub days : Wheel
  pub last_ts : ℤ
  pub tick : ℕ

abbrev pub timing_minute : ℕ
timing_minute = 60

abbrev pub timing_hour : ℕ
timing_hour = 60 * 60

abbrev pub timing_day : ℕ
timing_day = 60 * 60 * 24

-- A callback of RunAfter or of RunEvery that ran, or a held object whose last reference went.
pub data Event : Type 0 where
  called : ℕ → Event
  repeated : ℕ → Event
  expired : ℕ → Event

-- A call's end: the new state and what ran, an access out of a wheel, or a RunEvery that calls
-- itself for ever.
pub data Effect : Type 0 where
  done : TimingWheel → List Event → Effect
  undefined : Effect
  runaway : Effect

abbrev pub add_events : List Event → Effect → Effect
add_events ev (done w ev') = done w (ev ++ ev')
add_events ev undefined = undefined
add_events ev runaway = runaway

abbrev pub and_then : Effect → (TimingWheel → Effect) → Effect
and_then (done w ev) f = add_events ev (f w)
and_then undefined f = undefined
and_then runaway f = runaway

unfoldable pub new_wheel : TimingWheel
new_wheel = record {
  seconds = replicate 60 [];
  minutes = replicate 60 [];
  hours = replicate 24 [];
  days = replicate 30 [];
  last_ts = pos 0;
  tick = 0;
}

-- The same pointer is in a set once; only held objects have several references.
unfoldable pub is_held : ℕ → Entry → Bool
is_held id (held i) = i == id
is_held id _ = false

unfoldable pub contains_held : ℕ → Slot → Bool
contains_held id [] = false
contains_held id (e ∷ es) = is_held id e || contains_held id es

unfoldable pub add_entry : Entry → Slot → Slot
add_entry (held id) s = if contains_held id s then s else held id ∷ s
add_entry e s = e ∷ s

-- `wheel[i].emplace(entry)`.
unfoldable pub emplace : Wheel → ℕ → Entry → Option Wheel
emplace [] i e = none
emplace (s ∷ w) zero e = some (add_entry e s ∷ w)
emplace (s ∷ w) (suc i) e = Option.map (λ w'. s ∷ w') (emplace w i e)

-- `n - 1` of a uint32_t.
abbrev pub before : ℕ → ℕ
before n = (n + 2 ^ 32 - 1) % 2 ^ 32

-- An insertion: stored, refused for a delay of more than 30 days, or an access out of a wheel.
pub data Inserted : Type 0 where
  stored : TimingWheel → Inserted
  refused : Inserted
  invalid : Inserted

unfoldable pub insert_second_entry : TimingWheel → ℕ → Entry → Inserted
insert_second_entry w delay e = elim (emplace w.seconds (before delay) e) [
  | none ↦ invalid
  | some wheel ↦ stored (record w { seconds = wheel })
]

unfoldable pub insert_minute_entry : TimingWheel → ℕ → Entry → Inserted
insert_minute_entry w delay e =
    let minute = delay / 60 in
    let second = delay % 60 in
    elim (emplace w.minutes (before minute) (cascade second e)) [
      | none ↦ invalid
      | some wheel ↦ stored (record w { minutes = wheel })
    ]

unfoldable pub insert_hour_entry : TimingWheel → ℕ → Entry → Inserted
insert_hour_entry w delay e =
    let hour = delay / timing_hour in
    let second = delay % timing_hour in
    elim (emplace w.hours (before hour) (cascade second e)) [
      | none ↦ invalid
      | some wheel ↦ stored (record w { hours = wheel })
    ]

unfoldable pub insert_day_entry : TimingWheel → ℕ → Entry → Inserted
insert_day_entry w delay e =
    let day = delay / timing_day in
    let second = delay % timing_day in
    elim (emplace w.days (before day) (cascade second e)) [
      | none ↦ invalid
      | some wheel ↦ stored (record w { days = wheel })
    ]

-- A delay of 0 only resets the local pointer and goes on.
unfoldable pub insert_entry : TimingWheel → ℕ → Entry → Inserted
insert_entry w delay e =
    if ltb delay timing_minute
    then insert_second_entry w delay e
    else if ltb delay timing_hour
    then insert_minute_entry w delay e
    else if ltb delay timing_day
    then insert_hour_entry w delay e
    else if ltb 30 (delay / timing_day)
    then refused
    else insert_day_entry w delay e
