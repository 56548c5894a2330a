-- ===== src/TimingWheel/Insert.antt =====
-- What an insertion changes: network/net/TimingWheel.cc, lines 14 to 71.
use wl_tmm.Prelude.{ℕ, ◌/◌, ◌%◌, ◌≤◌, ◌<◌, ◌≡◌, refl, some, arith, Option-cases, inl, inr, ◌⊎◌, ◌≢◌}
use wl_tmm.TimingWheel.{
  Entry, cascade, Wheel, TimingWheel, stored, refused, emplace, before, insert_entry,
  insert_second_entry, insert_minute_entry, insert_hour_entry, insert_day_entry, timing_hour,
  timing_day,
}
use wl_tmm.TimingWheel.Sums.{WheelGrows, Grows, emplace-sum_at, length-emplace}

module _ (w w' : TimingWheel) (delay : ℕ) (e : Entry) where
  pub insert_second_entry-stored :
      insert_second_entry w delay e ≡ stored w'
      → (wheel : Wheel) × (emplace w.seconds (before delay) e ≡ some wheel)
        × (w' ≡ record w { seconds = wheel })
  unfolding insert_second_entry
  insert_second_entry-stored h = elim (Option-cases (emplace w.seconds (before delay) e)) [
    | inl no_slot ↦ absurd (ground (arith, no_slot))
    | inr (wheel, found) ↦ (wheel, found, ground (arith, found))
  ]

  pub insert_minute_entry-stored :
      insert_minute_entry w delay e ≡ stored w'
      → (wheel : Wheel) × (emplace w.minutes (before (delay / 60)) (cascade (delay % 60) e)
          ≡ some wheel)
        × (w' ≡ record w { minutes = wheel })
  unfolding insert_minute_entry
  insert_minute_entry-stored h =
      elim (Option-cases (emplace w.minutes (before (delay / 60)) (cascade (delay % 60) e))) [
        | inl no_slot ↦ absurd (ground (arith, no_slot))
        | inr (wheel, found) ↦ (wheel, found, ground (arith, found))
      ]

  pub insert_hour_entry-stored :
      insert_hour_entry w delay e ≡ stored w'
      → (wheel : Wheel) × (emplace w.hours
            (before (delay / timing_hour))
            (cascade (delay % timing_hour) e)
          ≡ some wheel)
        × (w' ≡ record w { hours = wheel })
  unfolding insert_hour_entry
  insert_hour_entry-stored h =
      elim (Option-cases
        (emplace w.hours (before (delay / timing_hour)) (cascade (delay % timing_hour) e))) [
          | inl no_slot ↦ absurd (ground (arith, no_slot))
          | inr (wheel, found) ↦ (wheel, found, ground (arith, found))
        ]

  pub insert_day_entry-stored :
      insert_day_entry w delay e ≡ stored w'
      → (wheel : Wheel) × (emplace w.days
            (before (delay / timing_day))
            (cascade (delay % timing_day) e)
          ≡ some wheel)
        × (w' ≡ record w { days = wheel })
  unfolding insert_day_entry
  insert_day_entry-stored h =
      elim (Option-cases
        (emplace w.days (before (delay / timing_day)) (cascade (delay % timing_day) e))) [
          | inl no_slot ↦ absurd (ground (arith, no_slot))
          | inr (wheel, found) ↦ (wheel, found, ground (arith, found))
        ]

module _ (w : TimingWheel) (delay : ℕ) (e : Entry) where
  pub insert_entry-second : delay < 60 → insert_entry w delay e ≡ insert_second_entry w delay e
  unfolding insert_entry
  insert_entry-second h = ground arith

  pub insert_entry-minute :
      60 ≤ delay → delay < 3600 → insert_entry w delay e ≡ insert_minute_entry w delay e
  unfolding insert_entry
  insert_entry-minute low high = ground arith

  pub insert_entry-hour :
      3600 ≤ delay → delay < 86400 → insert_entry w delay e ≡ insert_hour_entry w delay e
  unfolding insert_entry
  insert_entry-hour low high = ground arith

  pub insert_entry-day :
      86400 ≤ delay → delay < 2678400 → insert_entry w delay e ≡ insert_day_entry w delay e
  unfolding insert_entry
  insert_entry-day low high = ground arith

  pub insert_entry-refused : 2678400 ≤ delay → insert_entry w delay e ≡ refused
  unfolding insert_entry
  insert_entry-refused low = ground arith

-- Only a delay of more than 30 days is refused.
pub insert_entry-not_refused :
    (w : TimingWheel) (delay : ℕ) (e : Entry) → delay < 2678400 → insert_entry w delay e ≢ refused
unfolding insert_entry insert_second_entry insert_minute_entry insert_hour_entry insert_day_entry
insert_entry-not_refused w delay e h = ground arith

-- An insertion that is stored came by one of the four wheels.
pub insert_entry-wheel :
    (w w' : TimingWheel) (delay : ℕ) (e : Entry)
    → insert_entry w delay e ≡ stored w'
    → (insert_second_entry w delay e ≡ stored w')
      ⊎ ((insert_minute_entry w delay e ≡ stored w')
          ⊎ ((insert_hour_entry w delay e ≡ stored w') ⊎ (insert_day_entry w delay e ≡ stored w')))
unfolding insert_entry
insert_entry-wheel w w' delay e h = ground arith

pub emplace-WheelGrows :
    (w w' : Wheel) (i : ℕ) (e : Entry) → emplace w i e ≡ some w' → WheelGrows w w'
emplace-WheelGrows w w' i e found f j = emplace-sum_at w w' i e f j found

module _ (w : TimingWheel) (wheel : Wheel) (i : ℕ) (e : Entry) where
  seconds-Grows : emplace w.seconds i e ≡ some wheel → Grows w (record w { seconds = wheel })
  seconds-Grows found = record {
    seconds = emplace-WheelGrows w.seconds wheel i e found;
    minutes = λ f j. omega arith;
    hours = λ f j. omega arith;
    days = λ f j. omega arith;
    same_tick = refl;
    second_slots = length-emplace w.seconds wheel i e found;
    minute_slots = refl;
    hour_slots = refl;
    day_slots = refl;
  }

  minutes-Grows : emplace w.minutes i e ≡ some wheel → Grows w (record w { minutes = wheel })
  minutes-Grows found = record {
    seconds = λ f j. omega arith;
    minutes = emplace-WheelGrows w.minutes wheel i e found;
    hours = λ f j. omega arith;
    days = λ f j. omega arith;
    same_tick = refl;
    second_slots = refl;
    minute_slots = length-emplace w.minutes wheel i e found;
    hour_slots = refl;
    day_slots = refl;
  }

  hours-Grows : emplace w.hours i e ≡ some wheel → Grows w (record w { hours = wheel })
  hours-Grows found = record {
    seconds = λ f j. omega arith;
    minutes = λ f j. omega arith;
    hours = emplace-WheelGrows w.hours wheel i e found;
    days = λ f j. omega arith;
    same_tick = refl;
    second_slots = refl;
    minute_slots = refl;
    hour_slots = length-emplace w.hours wheel i e found;
    day_slots = refl;
  }

  days-Grows : emplace w.days i e ≡ some wheel → Grows w (record w { days = wheel })
  days-Grows found = record {
    seconds = λ f j. omega arith;
    minutes = λ f j. omega arith;
    hours = λ f j. omega arith;
    days = emplace-WheelGrows w.days wheel i e found;
    same_tick = refl;
    second_slots = refl;
    minute_slots = refl;
    hour_slots = refl;
    day_slots = length-emplace w.days wheel i e found;
  }

-- An insertion leaves what the slots hold, and the clock.
pub insert_entry-Grows :
    (w w' : TimingWheel) (delay : ℕ) (e : Entry) → insert_entry w delay e ≡ stored w' → Grows w w'
insert_entry-Grows w w' delay e h = elim (insert_entry-wheel w w' delay e h) [
  | inl second ↦
      let (wheel, found, same) = insert_second_entry-stored w w' delay e second in
      rw same (seconds-Grows w wheel (before delay) e found)
  | inr (inl minute) ↦
      let (wheel, found, same) = insert_minute_entry-stored w w' delay e minute in
      rw same (minutes-Grows w wheel (before (delay / 60)) (cascade (delay % 60) e) found)
  | inr (inr (inl hour)) ↦
      let (wheel, found, same) = insert_hour_entry-stored w w' delay e hour in
      rw same
        (hours-Grows w wheel (before (delay / timing_hour)) (cascade (delay % timing_hour) e) found)
  | inr (inr (inr day)) ↦
      let (wheel, found, same) = insert_day_entry-stored w w' delay e day in
      rw same
        (days-Grows w wheel (before (delay / timing_day)) (cascade (delay % timing_day) e) found)
]
