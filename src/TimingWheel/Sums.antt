-- ===== src/TimingWheel/Sums.antt =====
-- Measures of a wheel: a number for each entry, added up over a slot and over all wheels. What
-- releases entries only ever adds to the slots.
use wl_tmm.Prelude.{
  ℕ, zero, suc, ◌+◌, ◌≤◌, ◌<◌, ◌≡◌, refl, none, some, [], ◌∷◌, length, arith, Option-cases, inl,
  inr,
}
use wl_tmm.TimingWheel.{
  Entry, once, every, held, cascade, Slot, Wheel, TimingWheel, add_entry, emplace,
}

abbrev pub sum_slot : (Entry → ℕ) → Slot → ℕ
sum_slot f [] = 0
sum_slot f (e ∷ es) = f e + sum_slot f es

abbrev pub sum_wheel : (Entry → ℕ) → Wheel → ℕ
sum_wheel f [] = 0
sum_wheel f (s ∷ w) = sum_slot f s + sum_wheel f w

-- The measure of the slot with an index.
abbrev pub sum_at : (Entry → ℕ) → Wheel → ℕ → ℕ
sum_at f [] i = 0
sum_at f (s ∷ w) zero = sum_slot f s
sum_at f (s ∷ w) (suc i) = sum_at f w i

abbrev pub sum_all : (Entry → ℕ) → TimingWheel → ℕ
sum_all f w =
    sum_wheel f w.seconds + sum_wheel f w.minutes + sum_wheel f w.hours + sum_wheel f w.days

-- Slot by slot, and for every measure, there is no less in the second wheel.
abbrev pub WheelGrows : Wheel → Wheel → Type 0
WheelGrows w w' = (f : Entry → ℕ) (i : ℕ) → sum_at f w i ≤ sum_at f w' i

pub record Grows (w w' : TimingWheel) : Type 0 where
  pub seconds : WheelGrows w.seconds w'.seconds
  pub minutes : WheelGrows w.minutes w'.minutes
  pub hours : WheelGrows w.hours w'.hours
  pub days : WheelGrows w.days w'.days
  pub same_tick : w'.tick ≡ w.tick
  pub second_slots : length w'.seconds ≡ length w.seconds
  pub minute_slots : length w'.minutes ≡ length w.minutes
  pub hour_slots : length w'.hours ≡ length w.hours
  pub day_slots : length w'.days ≡ length w.days

pub Grows-refl : (w : TimingWheel) → Grows w w
Grows-refl w = grind arith

pub Grows-trans : {u v w : TimingWheel} → Grows u v → Grows v w → Grows u w
Grows-trans g h = record {
  seconds = λ f i. omega (arith, g.seconds f i, h.seconds f i);
  minutes = λ f i. omega (arith, g.minutes f i, h.minutes f i);
  hours = λ f i. omega (arith, g.hours f i, h.hours f i);
  days = λ f i. omega (arith, g.days f i, h.days f i);
  same_tick = omega arith;
  second_slots = omega arith;
  minute_slots = omega arith;
  hour_slots = omega arith;
  day_slots = omega arith;
}

add_entry-sum : (f : Entry → ℕ) (e : Entry) (s : Slot) → sum_slot f s ≤ sum_slot f (add_entry e s)
unfolding add_entry
add_entry-sum f (once cb) s = omega arith
add_entry-sum f (every n cb) s = omega arith
add_entry-sum f (held id) s = ground arith
add_entry-sum f (cascade n e) s = omega arith

pub emplace-sum_at :
    (w w' : Wheel) (i : ℕ) (e : Entry) (f : Entry → ℕ) (j : ℕ)
    → emplace w i e ≡ some w'
    → sum_at f w j ≤ sum_at f w' j
unfolding emplace
emplace-sum_at [] w' i e f j h = cc
emplace-sum_at (s ∷ w) w' zero e f zero h = ground (arith, add_entry-sum f e s)
emplace-sum_at (s ∷ w) w' zero e f (suc j) h = ground arith
emplace-sum_at (s ∷ w) w' (suc i) e f zero h = ground arith
emplace-sum_at (s ∷ w) w' (suc i) e f (suc j) h = elim (Option-cases (emplace w i e)) [
  | inl no_slot ↦ absurd (ground (arith, no_slot))
  | inr (w'', found) ↦ ground (arith, found, emplace-sum_at w w'' i e f j found)
]

pub length-emplace :
    (w w' : Wheel) (i : ℕ) (e : Entry) → emplace w i e ≡ some w' → length w' ≡ length w
unfolding emplace
length-emplace [] w' i e h = cc
length-emplace (s ∷ w) w' zero e h = ground arith
length-emplace (s ∷ w) w' (suc i) e h = elim (Option-cases (emplace w i e)) [
  | inl no_slot ↦ absurd (ground (arith, no_slot))
  | inr (w'', found) ↦ ground (arith, found, length-emplace w w'' i e found)
]

-- An index within the wheel finds its slot, and no other does.
pub emplace-some :
    (w : Wheel) (i : ℕ) (e : Entry) → i < length w → (w' : Wheel) × (emplace w i e ≡ some w')
unfolding emplace
emplace-some [] i e h = absurd (omega arith)
emplace-some (s ∷ w) zero e h = (add_entry e s ∷ w, refl)
emplace-some (s ∷ w) (suc i) e h =
    let (w', found) = emplace-some w i e (omega arith) in (s ∷ w', ground (arith, found))

pub emplace-none : (w : Wheel) (i : ℕ) (e : Entry) → length w ≤ i → emplace w i e ≡ none
unfolding emplace
emplace-none [] i e h = refl
emplace-none (s ∷ w) zero e h = absurd (omega arith)
emplace-none (s ∷ w) (suc i) e h = ground (arith, emplace-none w i e)

-- The slot with the index gains what a fresh entry measures.
pub emplace_gains :
    (w w' : Wheel) (i : ℕ) (e : Entry) (f : Entry → ℕ)
    → ((s : Slot) → sum_slot f (add_entry e s) ≡ f e + sum_slot f s)
    → emplace w i e ≡ some w'
    → (sum_at f w' i ≡ f e + sum_at f w i) × (sum_wheel f w' ≡ f e + sum_wheel f w)
unfolding emplace
emplace_gains [] w' i e f fresh h = cc
emplace_gains (s ∷ w) w' zero e f fresh h = ground (arith, fresh s)
emplace_gains (s ∷ w) w' (suc i) e f fresh h = elim (Option-cases (emplace w i e)) [
  | inl no_slot ↦ absurd (ground (arith, no_slot))
  | inr (w'', found) ↦ ground (arith, found, emplace_gains w w'' i e f fresh found)
]
