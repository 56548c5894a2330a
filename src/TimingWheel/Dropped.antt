-- ===== src/TimingWheel/Dropped.antt =====
-- What a tick does to an object that the wheels hold: network/net/TimingWheel.cc, lines 83 to 105.
use wl_tmm.Prelude.{
  ℕ, ◌+◌, ◌%◌, ◌^◌, ◌≤◌, ◌<◌, ◌≡◌, sym, ap, ◌∙◌, List, [], ◌∷◌, ltb, arith, inl, inr, Bool-cases,
  ==_iff,
}
use wl_tmm.TimingWheel.{Entry, once, every, held, cascade, Slot, Wheel, TimingWheel, Event, done}
use wl_tmm.TimingWheel.Sums.{sum_slot, sum_wheel, sum_at, sum_all}
use wl_tmm.TimingWheel.Destroy.{and_then-done}
use wl_tmm.TimingWheel.Ticks.{
  turned, sum_wheel-turned, pop_up_seconds-done, pop_up_minutes-done, carry_lem,
}
use wl_tmm.TimingWheel.Due.{done-injective}
use wl_tmm.TimingWheel.Expire.{
  refs, holds, expiries, expiries-append, is_referenced-refs, slot_refers-refs, release-refs,
}
use wl_tmm.TimingWheel.Turn.{release, destroy, pop_up_seconds, pop_up_minutes, carry, advance}

destroy-refs :
    (id : ℕ) (s : Slot) (w w' : TimingWheel) (ev : List Event)
    → destroy w s ≡ done w' ev
    → sum_all (refs id) w' + expiries id ev ≤ sum_slot (refs id) s + sum_all (refs id) w
unfolding destroy
destroy-refs id [] w w' ev h =
    let (state, quiet) = done-injective h in
    omega (arith, ap (sum_all (refs id)) state, ap (expiries id) quiet)
destroy-refs id (e ∷ rest) w w' ev h =
    let (w1, ev1, ev2, first, second, all) =
      and_then-done (release w e rest) (λ w2. destroy w2 rest) w' ev h in
    omega (
      arith,
      release-refs id e w w1 rest ev1 first,
      destroy-refs id rest w1 w' ev2 second,
      ap (expiries id) all,
      expiries-append id ev1 ev2,
    )

-- The only reference to an object is dropped.
release-expired :
    (id : ℕ) (e : Entry) (w w' : TimingWheel) (rest : Slot) (ev : List Event)
    → 0 < holds id e
    → sum_slot (refs id) rest + sum_all (refs id) w ≡ 0
    → release w e rest ≡ done w' ev
    → 0 < expiries id ev
unfolding release
release-expired id (once c) w w' rest ev this alone h = absurd (omega arith)
release-expired id (every n c) w w' rest ev this alone h = absurd (omega arith)
release-expired id (held i) w w' rest ev this alone h =
    ground (arith, h, this, alone, ==_iff i id, is_referenced-refs id w, slot_refers-refs id rest)
release-expired id (cascade n e) w w' rest ev this alone h = absurd (omega arith)

holds-le-refs : (id : ℕ) (e : Entry) → holds id e ≤ refs id e
holds-le-refs id (once c) = omega arith
holds-le-refs id (every n c) = omega arith
holds-le-refs id (held i) = omega arith
holds-le-refs id (cascade n e) = omega arith

pub slot_holds-le-refs : (id : ℕ) (s : Slot) → sum_slot (holds id) s ≤ sum_slot (refs id) s
slot_holds-le-refs id [] = omega arith
slot_holds-le-refs id (e ∷ s) = omega (arith, holds-le-refs id e, slot_holds-le-refs id s)

destroy-expired :
    (id : ℕ) (s : Slot) (w w' : TimingWheel) (ev : List Event)
    → 0 < sum_slot (holds id) s
    → sum_slot (refs id) s + sum_all (refs id) w ≤ 1
    → destroy w s ≡ done w' ev
    → 0 < expiries id ev
unfolding destroy
destroy-expired id [] w w' ev this alone h = absurd (omega arith)
destroy-expired id (e ∷ rest) w w' ev this alone h =
    let (w1, ev1, ev2, first, second, all) =
      and_then-done (release w e rest) (λ w2. destroy w2 rest) w' ev h in
    let both : expiries id ev ≡ expiries id ev1 + expiries id ev2 =
      ap (expiries id) all ∙ expiries-append id ev1 ev2 in
    elim (Bool-cases (ltb 0 (holds id e))) [
      | inl here ↦
          let one : 0 < holds id e = ground (arith, here) in
          omega (
            arith,
            both,
            release-expired id e w w1 rest ev1 one (omega (arith, one, alone, holds-le-refs id e))
                first,
          )
      | inr later ↦
          let none_here : holds id e ≡ 0 = ground (arith, later) in
          omega (
            arith,
            both,
            destroy-expired id rest w1 w' ev2 (omega (arith, this, none_here))
                (omega (arith, alone, release-refs id e w w1 rest ev1 first)) second,
          )
    ]

module _ (id : ℕ) (w w' : TimingWheel) (ev : List Event) where
  pop_up_seconds-refs :
      pop_up_seconds w ≡ done w' ev → sum_all (refs id) w' + expiries id ev ≤ sum_all (refs id) w
  pop_up_seconds-refs h =
      let (s, rest, e, gone) = pop_up_seconds-done w w' ev h in
      omega (
        arith,
        destroy-refs id s (record w { seconds = turned rest }) w' ev gone,
        ap (sum_wheel (refs id)) e,
        sum_wheel-turned (refs id) rest,
      )

  pop_up_minutes-refs :
      pop_up_minutes w ≡ done w' ev → sum_all (refs id) w' + expiries id ev ≤ sum_all (refs id) w
  pop_up_minutes-refs h =
      let (s, rest, e, gone) = pop_up_minutes-done w w' ev h in
      omega (
        arith,
        destroy-refs id s (record w { minutes = turned rest }) w' ev gone,
        ap (sum_wheel (refs id)) e,
        sum_wheel-turned (refs id) rest,
      )

  carry-refs : carry w ≡ done w' ev → sum_all (refs id) w' + expiries id ev ≤ sum_all (refs id) w
  carry-refs h = elim (carry_lem w) [
    | inl (whole, same) ↦ pop_up_minutes-refs (sym same ∙ h)
    | inr (part, same) ↦
        let (state, quiet) = done-injective (sym same ∙ h) in
        omega (arith, ap (sum_all (refs id)) state, ap (expiries id) quiet)
  ]

  pop_up_seconds-expired :
      sum_all (refs id) w ≤ 1
      → 0 < sum_at (holds id) w.seconds 0
      → pop_up_seconds w ≡ done w' ev
      → 0 < expiries id ev
  pop_up_seconds-expired alone here h =
      let (s, rest, e, gone) = pop_up_seconds-done w w' ev h in
      destroy-expired id s (record w { seconds = turned rest }) w' ev
        (omega (arith, here, ap (λ (u : Wheel). sum_at (holds id) u 0) e))
        (omega (arith, alone, ap (sum_wheel (refs id)) e, sum_wheel-turned (refs id) rest)) gone

-- A tick makes no new reference, and the last tick of an object that is alone makes it expire.
pub advance-refs :
    (id : ℕ) (w w' : TimingWheel) (ev : List Event)
    → advance w ≡ done w' ev
    → sum_all (refs id) w' + expiries id ev ≤ sum_all (refs id) w
unfolding advance
advance-refs id w w' ev h =
    let w0 : TimingWheel = record w { tick = (w.tick + 1) % 2 ^ 64 } in
    let (w1, ev1, ev2, first, second, all) = and_then-done (pop_up_seconds w0) carry w' ev h in
    omega (
      arith,
      pop_up_seconds-refs id w0 w1 ev1 first,
      carry-refs id w1 w' ev2 second,
      ap (expiries id) all,
      expiries-append id ev1 ev2,
    )

pub advance-expired :
    (id : ℕ) (w w' : TimingWheel) (ev : List Event)
    → sum_all (refs id) w ≤ 1
    → 0 < sum_at (holds id) w.seconds 0
    → advance w ≡ done w' ev
    → 0 < expiries id ev
unfolding advance
advance-expired id w w' ev alone here h =
    let w0 : TimingWheel = record w { tick = (w.tick + 1) % 2 ^ 64 } in
    let (w1, ev1, ev2, first, second, all) = and_then-done (pop_up_seconds w0) carry w' ev h in
    omega (
      arith,
      pop_up_seconds-expired id w0 w1 ev1 alone here first,
      ap (expiries id) all,
      expiries-append id ev1 ev2,
    )
