-- ===== src/TimingWheel/Sound.antt =====
-- Delays that can be handed on, and wheels that hold only these: network/net/TimingWheel.cc, lines 14 to 134. Each timer's delay is one that the
-- wheels can hand on.
use wl_tmm.Prelude.{
  ℕ, zero, suc, some, ◌/◌, ◌%◌, ◌≤◌, ◌<◌, ◌≡◌, ◌∙◌, [], ◌∷◌, arith, inl, inr, length, Option-cases,
  ◌==◌, Bool-cases, Bool, true, ◌&&◌, ltb, leb, not,
}
use native.Mathlib.Decide.{dec_lt}
use wl_tmm.TimingWheel.{
  Entry, once, every, held, cascade, Slot, Wheel, TimingWheel, contains_held, stored, insert_entry,
  insert_second_entry, insert_minute_entry, insert_hour_entry, insert_day_entry, emplace, before,
  add_entry, timing_hour, timing_day,
}
use wl_tmm.TimingWheel.Sums.{emplace-some, length-emplace}
use wl_tmm.TimingWheel.Insert.{
  insert_entry-second, insert_entry-minute, insert_entry-hour, insert_entry-day,
}
use wl_tmm.TimingWheel.Ticks.{turned}

-- A delay of 1 second to 30 days that is no whole number of minutes below an hour.
abbrev pub is_sound : ℕ → Bool
is_sound delay =
    ltb 0 delay && ltb delay 2678400 && not (leb 60 delay && ltb delay 3600 && delay % 60 == 0)

-- Entries that may stand in the second wheel.
abbrev pub IsSound : Entry → Type 0
IsSound (once c) = Unit {0}
IsSound (every interval c) = is_sound interval ≡ true
IsSound (held id) = Unit {0}
IsSound (cascade second e) = ⊥

-- Entries that may stand in the minute wheel.
abbrev pub IsHandedOn : Entry → Type 0
IsHandedOn (once c) = ⊥
IsHandedOn (every interval c) = ⊥
IsHandedOn (held id) = ⊥
IsHandedOn (cascade second e) = (0 < second) × (second < 60) × IsSound e

abbrev pub AllSlot : (Entry → Type 0) → Slot → Type 0
AllSlot P [] = Unit {0}
AllSlot P (e ∷ s) = P e × AllSlot P s

abbrev pub AllWheel : (Entry → Type 0) → Wheel → Type 0
AllWheel P [] = Unit {0}
AllWheel P (s ∷ w) = AllSlot P s × AllWheel P w

pub record IsValid (w : TimingWheel) : Type 0 where
  pub seconds : AllWheel IsSound w.seconds
  pub minutes : AllWheel IsHandedOn w.minutes
  pub second_slots : length w.seconds ≡ 60
  pub minute_slots : length w.minutes ≡ 60
  pub hour_slots : length w.hours ≡ 24
  pub day_slots : length w.days ≡ 30

pub add_entry-AllSlot :
    (P : Entry → Type 0) (e : Entry) (s : Slot) → P e → AllSlot P s → AllSlot P (add_entry e s)
unfolding add_entry
add_entry-AllSlot P (once c) s p a = (p, a)
add_entry-AllSlot P (every n c) s p a = (p, a)
add_entry-AllSlot P (held id) s p a = elim (Bool-cases (contains_held id s)) [
  | inl there ↦ rw there a
  | inr fresh ↦ rw fresh (p, a)
]
add_entry-AllSlot P (cascade n e) s p a = (p, a)

pub emplace-AllWheel :
    (P : Entry → Type 0) (w w' : Wheel) (i : ℕ) (e : Entry)
    → P e
    → AllWheel P w
    → emplace w i e ≡ some w'
    → AllWheel P w'
unfolding emplace
emplace-AllWheel P [] w' i e p a h = cc
emplace-AllWheel P (s ∷ w) w' zero e p a h =
    rw (← let same : add_entry e s ∷ w ≡ w' = cc in same) (add_entry-AllSlot P e s p a.0, a.1)
emplace-AllWheel P (s ∷ w) w' (suc i) e p a h = elim (Option-cases (emplace w i e)) [
  | inl no_slot ↦ absurd (ground (arith, no_slot))
  | inr (w2, found) ↦
      rw (← let same : s ∷ w2 ≡ w' = ground (arith, found) in same)
        (a.0, emplace-AllWheel P w w2 i e p a.1 found)
]

pub turned-AllWheel : (P : Entry → Type 0) (w : Wheel) → AllWheel P w → AllWheel P (turned w)
turned-AllWheel P [] a = (tt, tt)
turned-AllWheel P (s ∷ w) a = (a.0, turned-AllWheel P w a.1)

-- Inserting a sound entry succeeds and keeps the wheels valid.
module _ (w : TimingWheel) (delay : ℕ) (e : Entry) (v : IsValid w) where
  pub insert_second :
      0 < delay
      → delay < 60
      → IsSound e
      → (w' : TimingWheel) × (insert_entry w delay e ≡ stored w') × IsValid w'
  unfolding insert_second_entry
  insert_second low high sound =
      let (wheel, found) = emplace-some w.seconds (before delay) e (omega arith) in
      (
        record w { seconds = wheel },
        insert_entry-second w delay e high ∙ ground (arith, found),
        record {
          seconds = emplace-AllWheel IsSound w.seconds wheel (before delay) e sound v.seconds found;
          minutes = v.minutes;
          second_slots = length-emplace w.seconds wheel (before delay) e found ∙ v.second_slots;
          minute_slots = v.minute_slots;
          hour_slots = v.hour_slots;
          day_slots = v.day_slots;
        },
      )

  insert_minute :
      60 ≤ delay
      → delay < 3600
      → 0 < delay % 60
      → IsSound e
      → (w' : TimingWheel) × (insert_entry w delay e ≡ stored w') × IsValid w'
  unfolding insert_minute_entry
  insert_minute low high rest sound =
      let i : ℕ = before (delay / 60) in
      let later : Entry = cascade (delay % 60) e in
      let (wheel, found) = emplace-some w.minutes i later (omega arith) in
      (
        record w { minutes = wheel },
        insert_entry-minute w delay e low high ∙ ground (arith, found),
        record {
          seconds = v.seconds;
          minutes =
              emplace-AllWheel IsHandedOn w.minutes wheel i later (rest, omega arith, sound)
                v.minutes found;
          second_slots = v.second_slots;
          minute_slots = length-emplace w.minutes wheel i later found ∙ v.minute_slots;
          hour_slots = v.hour_slots;
          day_slots = v.day_slots;
        },
      )

  insert_hour :
      3600 ≤ delay
      → delay < 86400
      → (w' : TimingWheel) × (insert_entry w delay e ≡ stored w') × IsValid w'
  unfolding insert_hour_entry
  insert_hour low high =
      let i : ℕ = before (delay / timing_hour) in
      let later : Entry = cascade (delay % timing_hour) e in
      let (wheel, found) = emplace-some w.hours i later (omega arith) in
      (
        record w { hours = wheel },
        insert_entry-hour w delay e low high ∙ ground (arith, found),
        record {
          seconds = v.seconds;
          minutes = v.minutes;
          second_slots = v.second_slots;
          minute_slots = v.minute_slots;
          hour_slots = length-emplace w.hours wheel i later found ∙ v.hour_slots;
          day_slots = v.day_slots;
        },
      )

  insert_day :
      86400 ≤ delay
      → delay < 2678400
      → (w' : TimingWheel) × (insert_entry w delay e ≡ stored w') × IsValid w'
  unfolding insert_day_entry
  insert_day low high =
      let i : ℕ = before (delay / timing_day) in
      let later : Entry = cascade (delay % timing_day) e in
      let (wheel, found) = emplace-some w.days i later (omega arith) in
      (
        record w { days = wheel },
        insert_entry-day w delay e low high ∙ ground (arith, found),
        record {
          seconds = v.seconds;
          minutes = v.minutes;
          second_slots = v.second_slots;
          minute_slots = v.minute_slots;
          hour_slots = v.hour_slots;
          day_slots = length-emplace w.days wheel i later found ∙ v.day_slots;
        },
      )

  pub insert_entry-IsValid :
      IsSound e
      → is_sound delay ≡ true
      → (w' : TimingWheel) × (insert_entry w delay e ≡ stored w') × IsValid w'
  insert_entry-IsValid sound ok = elim (dec_lt delay 60) [
    | yes second ↦ insert_second (ground arith) second sound
    | no long ↦ elim (dec_lt delay 3600) [
      | yes minute ↦ insert_minute (omega arith) minute (ground arith) sound
      | no longer ↦ elim (dec_lt delay 86400) [
        | yes hour ↦ insert_hour (omega arith) hour
        | no day ↦ insert_day (omega arith) (ground arith)
      ]
    ]
  ]
