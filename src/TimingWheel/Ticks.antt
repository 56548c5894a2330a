-- ===== src/TimingWheel/Ticks.antt =====
-- One tick of the wheels: network/net/TimingWheel.cc, lines 83 to 105.
use wl_tmm.Prelude.{
  ℕ, zero, suc, ◌+◌, ◌%◌, ◌^◌, ◌≤◌, ◌≡◌, ◌≢◌, refl, sym, ap, ◌∙◌, List, [], ◌∷◌, ◌++◌, length,
  arith, inl, inr, ◌⊎◌, ◌==◌, List-cases, Bool-cases, append-nil, length-append,
}
use wl_tmm.TimingWheel.{Entry, Slot, Wheel, TimingWheel, Event, done}
use wl_tmm.TimingWheel.Sums.{sum_slot, sum_wheel, sum_at, sum_all}
use wl_tmm.TimingWheel.Destroy.{and_then-done, destroy-Grows}
use wl_tmm.TimingWheel.Conserve.{timers, calls, calls-append, destroy-timers}
use wl_tmm.TimingWheel.Turn.{destroy, pop_up_seconds, pop_up_minutes, carry, advance}

-- A wheel after its first slot has been taken off and an empty one put at the end.
abbrev pub turned : Wheel → Wheel
turned rest = rest ++ [] ∷ []

pub sum_at-turned :
    (f : Entry → ℕ) (rest : Wheel) (i : ℕ) → sum_at f (turned rest) i ≡ sum_at f rest i
sum_at-turned f [] zero = refl
sum_at-turned f [] (suc i) = refl
sum_at-turned f (s ∷ rest) zero = refl
sum_at-turned f (s ∷ rest) (suc i) = sum_at-turned f rest i

pub sum_wheel-turned : (f : Entry → ℕ) (rest : Wheel) → sum_wheel f (turned rest) ≡ sum_wheel f rest
sum_wheel-turned f [] = refl
sum_wheel-turned f (s ∷ rest) = ap (λ n. sum_slot f s + n) (sum_wheel-turned f rest)

-- Every slot moves one place down; its entries stay, whatever measures them.
abbrev pub Turns : Wheel → Wheel → Type 0
Turns u v = (f : Entry → ℕ) (i : ℕ) → sum_at f u (suc i) ≤ sum_at f v i

abbrev pub Keeps : Wheel → Wheel → Type 0
Keeps u v = (f : Entry → ℕ) (i : ℕ) → sum_at f u i ≤ sum_at f v i

module _ (w w' : TimingWheel) (ev : List Event) where
  pub pop_up_seconds-done :
      pop_up_seconds w ≡ done w' ev
      → (s : Slot) × (rest : Wheel) × (w.seconds ≡ s ∷ rest)
        × (destroy (record w { seconds = turned rest }) s ≡ done w' ev)
  unfolding pop_up_seconds
  pop_up_seconds-done h = elim (List-cases w.seconds) [
    | inl e ↦ absurd (ground (arith, e))
    | inr (s, rest, e) ↦ (s, rest, e, ground (arith, e, h))
  ]

  pub pop_up_minutes-done :
      pop_up_minutes w ≡ done w' ev
      → (s : Slot) × (rest : Wheel) × (w.minutes ≡ s ∷ rest)
        × (destroy (record w { minutes = turned rest }) s ≡ done w' ev)
  unfolding pop_up_minutes
  pop_up_minutes-done h = elim (List-cases w.minutes) [
    | inl e ↦ absurd (ground (arith, e))
    | inr (s, rest, e) ↦ (s, rest, e, ground (arith, e, h))
  ]

  pop_up_seconds-timers :
      (cb : ℕ)
      → pop_up_seconds w ≡ done w' ev
      → sum_all (timers cb) w' + calls cb ev ≡ sum_all (timers cb) w
  pop_up_seconds-timers cb h =
      let (s, rest, e, run) = pop_up_seconds-done h in
      omega (
        arith,
        destroy-timers cb s (record w { seconds = turned rest }) w' ev run,
        ap (sum_wheel (timers cb)) e,
        sum_wheel-turned (timers cb) rest,
      )

  pop_up_minutes-timers :
      (cb : ℕ)
      → pop_up_minutes w ≡ done w' ev
      → sum_all (timers cb) w' + calls cb ev ≡ sum_all (timers cb) w
  pop_up_minutes-timers cb h =
      let (s, rest, e, run) = pop_up_minutes-done h in
      omega (
        arith,
        destroy-timers cb s (record w { minutes = turned rest }) w' ev run,
        ap (sum_wheel (timers cb)) e,
        sum_wheel-turned (timers cb) rest,
      )

-- The larger wheels never turn: a tick that an hour divides is one that a minute divides.
pub carry_lem :
    (w : TimingWheel)
    → ((w.tick % 60 ≡ 0) × (carry w ≡ pop_up_minutes w))
      ⊎ ((w.tick % 60 ≢ 0) × (carry w ≡ done w []))
unfolding carry
carry_lem w = elim (Bool-cases (w.tick % 60 == 0)) [
  | inl whole ↦ inl (ground (arith, whole), ground (arith, whole))
  | inr part ↦ inr (ground (arith, part), ground (arith, part))
]

-- What a tick does to the wheels: the second wheel turns, the minute wheel turns once a minute, and
-- the two larger ones only keep what they hold.
pub record Ticked (w w' : TimingWheel) (ev : List Event) : Type 0 where
  pub clock : w'.tick ≡ (w.tick + 1) % 2 ^ 64
  pub seconds : Turns w.seconds w'.seconds
  pub minutes : ((w.tick + 1) % 2 ^ 64 % 60 ≢ 0) → Keeps w.minutes w'.minutes
  pub whole_minute : ((w.tick + 1) % 2 ^ 64 % 60 ≡ 0) → Turns w.minutes w'.minutes
  pub hours : Keeps w.hours w'.hours
  pub days : Keeps w.days w'.days
  pub second_slots : length w'.seconds ≡ length w.seconds
  pub timers_kept : (cb : ℕ) → sum_all (timers cb) w' + calls cb ev ≡ sum_all (timers cb) w

Turns-turned : (u v rest : Wheel) {s : Slot} → u ≡ s ∷ rest → Keeps (turned rest) v → Turns u v
Turns-turned u v rest e k f i =
    omega (arith, ap (λ (x : Wheel). sum_at f x (suc i)) e, sum_at-turned f rest i, k f i)

module _ (w w' : TimingWheel) (ev : List Event) where
  pop_up_seconds_lem :
      pop_up_seconds w ≡ done w' ev
      → (w'.tick ≡ w.tick)
        × Turns w.seconds w'.seconds
        × Keeps w.minutes w'.minutes
        × Keeps w.hours w'.hours
        × Keeps w.days w'.days
        × (length w'.seconds ≡ length w.seconds)
  pop_up_seconds_lem h =
      let (s, rest, e, run) = pop_up_seconds-done w w' ev h in
      let g = destroy-Grows s (record w { seconds = turned rest }) w' ev run in
      (
        g.same_tick,
        Turns-turned w.seconds w'.seconds rest e g.seconds,
        g.minutes,
        g.hours,
        g.days,
        omega (arith, g.second_slots, ap (length {A = Slot}) e, length-append rest ([] ∷ [])),
      )

  pop_up_minutes_lem :
      pop_up_minutes w ≡ done w' ev
      → (w'.tick ≡ w.tick)
        × Keeps w.seconds w'.seconds
        × Turns w.minutes w'.minutes
        × Keeps w.hours w'.hours
        × Keeps w.days w'.days
        × (length w'.seconds ≡ length w.seconds)
  pop_up_minutes_lem h =
      let (s, rest, e, run) = pop_up_minutes-done w w' ev h in
      let g = destroy-Grows s (record w { minutes = turned rest }) w' ev run in
      (
        g.same_tick,
        g.seconds,
        Turns-turned w.minutes w'.minutes rest e g.minutes,
        g.hours,
        g.days,
        g.second_slots,
      )

-- A tick of which neither part touches the outside of a wheel.
pub advance-Ticked :
    (w w' : TimingWheel) (ev : List Event) → advance w ≡ done w' ev → Ticked w w' ev
unfolding advance
advance-Ticked w w' ev h =
    let w0 : TimingWheel = record w { tick = (w.tick + 1) % 2 ^ 64 } in
    let (w1, ev1, ev2, first, second, all) = and_then-done (pop_up_seconds w0) carry w' ev h in
    let (t, s, m, hr, d, size) = pop_up_seconds_lem w0 w1 ev1 first in
    elim (carry_lem w1) [
      | inl (whole, same) ↦
          let minute = sym same ∙ second in
          let (t', s', m', hr', d', size') = pop_up_minutes_lem w1 w' ev2 minute in
          record {
            clock = t' ∙ t;
            seconds = λ f i. omega (arith, s f i, s' f i);
            minutes = λ no_minute. absurd (no_minute (ap (λ n. n % 60) (sym t) ∙ whole));
            whole_minute = λ _ f i. omega (arith, m f (suc i), m' f i);
            hours = λ f i. omega (arith, hr f i, hr' f i);
            days = λ f i. omega (arith, d f i, d' f i);
            second_slots = size' ∙ size;
            timers_kept = λ cb. omega (
              arith,
              pop_up_seconds-timers w0 w1 ev1 cb first,
              pop_up_minutes-timers w1 w' ev2 cb minute,
              ap (calls cb) all,
              calls-append cb ev1 ev2,
            );
          }
      | inr (part, same) ↦
          let state : w1 ≡ w' = cc (same, second) in
          let quiet : [] ≡ ev2 = cc (same, second) in
          let events : ev ≡ ev1 = all ∙ ap (◌++◌ ev1) (sym quiet) ∙ append-nil ev1 in
          rw (← state, events)
            (record {
              clock = t;
              seconds = s;
              minutes = λ _. m;
              whole_minute = λ whole. absurd (part (ap (λ n. n % 60) t ∙ whole));
              hours = hr;
              days = d;
              second_slots = size;
              timers_kept = λ cb. pop_up_seconds-timers w0 w1 ev1 cb first;
            })
    ]
