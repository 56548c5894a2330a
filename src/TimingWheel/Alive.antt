-- ===== src/TimingWheel/Alive.antt =====
-- What a slot of the second wheel holds does not expire before the slot is dropped:
-- network/net/TimingWheel.cc, lines 14 to 17 and 83 to 105.
use wl_tmm.Prelude.{
  ℕ, zero, suc, ◌+◌, ◌%◌, ◌^◌, ◌≤◌, ◌<◌, ◌-◌, ◌≡◌, refl, sym, ap, ◌∙◌, List, [], ◌∷◌, true, arith,
  inl, inr, ==_iff,
}
use wl_tmm.TimingWheel.{
  Entry, once, every, held, cascade, Slot, Wheel, TimingWheel, Event, repeated, done, stored,
  insert_entry, before, emplace,
}
use wl_tmm.TimingWheel.Sums.{sum_slot, sum_at}
use wl_tmm.TimingWheel.Insert.{insert_entry-second, insert_second_entry-stored}
use wl_tmm.TimingWheel.Destroy.{
  Inserted-cases, and_then-done, add_events-done, release-Grows, destroy-Grows,
}
use wl_tmm.TimingWheel.Ticks.{
  turned, sum_at-turned, pop_up_seconds-done, pop_up_minutes-done, carry_lem, advance-Ticked,
}
use wl_tmm.TimingWheel.Due.{run, done-injective}
use wl_tmm.TimingWheel.Expire.{holds, expiries, expiries-append}
use wl_tmm.TimingWheel.Idle.{emplace-holds}
use wl_tmm.TimingWheel.Turn.{
  refers, slot_refers, wheel_refers, is_referenced, run_every, release, destroy, pop_up_seconds,
  carry, advance,
}

holds-refers : (id : ℕ) (e : Entry) → 0 < holds id e → refers id e ≡ true
unfolding refers
holds-refers id (once c) h = absurd (omega arith)
holds-refers id (every n c) h = absurd (omega arith)
holds-refers id (held i) h = ground (arith, h)
holds-refers id (cascade n e) h = absurd (omega arith)

slot_holds-refers : (id : ℕ) (s : Slot) → 0 < sum_slot (holds id) s → slot_refers id s ≡ true
unfolding slot_refers
slot_holds-refers id [] h = absurd (omega arith)
slot_holds-refers id (e ∷ s) h = ground (arith, h, holds-refers id e, slot_holds-refers id s)

wheel_holds-refers :
    (id : ℕ) (w : Wheel) (d : ℕ) → 0 < sum_at (holds id) w d → wheel_refers id w ≡ true
unfolding wheel_refers
wheel_holds-refers id [] d h = absurd (omega arith)
wheel_holds-refers id (s ∷ w) zero h = ground (arith, slot_holds-refers id s h)
wheel_holds-refers id (s ∷ w) (suc d) h = ground (arith, wheel_holds-refers id w d h)

holds-is_referenced :
    (id d : ℕ) (w : TimingWheel) → 0 < sum_at (holds id) w.seconds d → is_referenced id w ≡ true
unfolding is_referenced
holds-is_referenced id d w h = ground (arith, wheel_holds-refers id w.seconds d h)

run_every-quiet :
    (id : ℕ) (w w' : TimingWheel) (interval c : ℕ) (ev : List Event)
    → run_every w interval c ≡ done w' ev
    → expiries id ev ≡ 0
unfolding run_every
run_every-quiet id w w' interval c ev h =
    elim (Inserted-cases (insert_entry w interval (every interval c))) [
      | inl (w1, found) ↦ let quiet : [] ≡ ev = ground (arith, found) in rw (← quiet) refl
      | inr (inl no_room) ↦ absurd (ground (arith, no_room))
      | inr (inr outside) ↦ absurd (ground (arith, outside))
    ]

-- Another reference keeps the object.
release-alive :
    (id d : ℕ) (e : Entry) (w w' : TimingWheel) (rest : Slot) (ev : List Event)
    → 0 < sum_at (holds id) w.seconds d
    → release w e rest ≡ done w' ev
    → expiries id ev ≡ 0
unfolding release
release-alive id d (once c) w w' rest ev there h =
    omega (arith, ap (expiries id) (done-injective h).1)
release-alive id d (every interval c) w w' rest ev there h =
    let (ev2, ran, all) = add_events-done (repeated c ∷ []) (run_every w interval c) w' ev h in
    omega (arith, ap (expiries id) all, run_every-quiet id w w' interval c ev2 ran)
release-alive id d (held i) w w' rest ev there h =
    ground (arith, h, ==_iff i id, holds-is_referenced id d w there)
release-alive id d (cascade second e) w w' rest ev there h =
    elim (Inserted-cases (insert_entry w second e)) [
      | inl (w1, found) ↦ let quiet : [] ≡ ev = ground (arith, found) in rw (← quiet) refl
      | inr (inl no_room) ↦ release-alive id d e w w' rest ev there (ground (arith, no_room, h))
      | inr (inr outside) ↦ absurd (ground (arith, outside))
    ]

destroy-alive :
    (id d : ℕ) (s : Slot) (w w' : TimingWheel) (ev : List Event)
    → 0 < sum_at (holds id) w.seconds d
    → destroy w s ≡ done w' ev
    → expiries id ev ≡ 0
unfolding destroy
destroy-alive id d [] w w' ev there h = omega (arith, ap (expiries id) (done-injective h).1)
destroy-alive id d (e ∷ rest) w w' ev there h =
    let (w1, ev1, ev2, first, second, all) =
      and_then-done (release w e rest) (λ w2. destroy w2 rest) w' ev h in
    let kept = (release-Grows e w w1 rest ev1 first).seconds (holds id) d in
    omega (
      arith,
      ap (expiries id) all,
      expiries-append id ev1 ev2,
      release-alive id d e w w1 rest ev1 there first,
      destroy-alive id d rest w1 w' ev2 (omega (arith, there, kept)) second,
    )

module _ (id d : ℕ) (w w' : TimingWheel) (ev : List Event) where
  pop_up_seconds-alive :
      0 < sum_at (holds id) w.seconds (suc d)
      → pop_up_seconds w ≡ done w' ev
      → (expiries id ev ≡ 0) × (0 < sum_at (holds id) w'.seconds d)
  pop_up_seconds-alive there h =
      let (s, rest, e, gone) = pop_up_seconds-done w w' ev h in
      let there' : 0 < sum_at (holds id) (turned rest) d = omega (
        arith,
        there,
        ap (λ (u : Wheel). sum_at (holds id) u (suc d)) e,
        sum_at-turned (holds id) rest d,
      ) in
      let w1 : TimingWheel = record w { seconds = turned rest } in
      let kept = (destroy-Grows s w1 w' ev gone).seconds (holds id) d in
      (destroy-alive id d s w1 w' ev there' gone, omega (arith, there', kept))

  carry-alive : 0 < sum_at (holds id) w.seconds d → carry w ≡ done w' ev → expiries id ev ≡ 0
  carry-alive there h = elim (carry_lem w) [
    | inl (whole, same) ↦
        let (s, rest, e, gone) = pop_up_minutes-done w w' ev (sym same ∙ h) in
        destroy-alive id d s (record w { minutes = turned rest }) w' ev there gone
    | inr (part, same) ↦ omega (arith, ap (expiries id) (done-injective (sym same ∙ h)).1)
  ]

advance-alive :
    (id d : ℕ) (w w' : TimingWheel) (ev : List Event)
    → 0 < sum_at (holds id) w.seconds (suc d)
    → advance w ≡ done w' ev
    → expiries id ev ≡ 0
unfolding advance
advance-alive id d w w' ev there h =
    let w0 : TimingWheel = record w { tick = (w.tick + 1) % 2 ^ 64 } in
    let (w1, ev1, ev2, first, second, all) = and_then-done (pop_up_seconds w0) carry w' ev h in
    let (quiet, there') = pop_up_seconds-alive id d w0 w1 ev1 there first in
    omega (
      arith,
      quiet,
      carry-alive id d w1 w' ev2 there' second,
      ap (expiries id) all,
      expiries-append id ev1 ev2,
    )

-- What slot `d` holds does not expire in the next `d` ticks.
run-alive :
    (id n d : ℕ) (w w' : TimingWheel) (ev : List Event)
    → n ≤ d
    → 0 < sum_at (holds id) w.seconds d
    → run n w ≡ done w' ev
    → expiries id ev ≡ 0
unfolding run
run-alive id zero d w w' ev few there h = omega (arith, ap (expiries id) (done-injective h).1)
run-alive id (suc n) zero w w' ev few there h = absurd (omega (arith, few))
run-alive id (suc n) (suc d) w w' ev few there h =
    let (w1, ev1, ev2, first, second, all) = and_then-done (advance w) (run n) w' ev h in
    let near : 0 < sum_at (holds id) w1.seconds d =
      omega (arith, there, (advance-Ticked w w1 ev1 first).seconds (holds id) d) in
    omega (
      arith,
      advance-alive id d w w1 ev1 there first,
      run-alive id n d w1 w' ev2 (omega (arith, few)) near second,
      ap (expiries id) all,
      expiries-append id ev1 ev2,
    )

-- What is put in for `k` seconds does not expire in fewer ticks.
pub insert_entry-alive :
    (id n k : ℕ) (w w0 w' : TimingWheel) (ev : List Event)
    → n < k
    → k < 60
    → insert_entry w k (held id) ≡ stored w0
    → run n w0 ≡ done w' ev
    → expiries id ev ≡ 0
insert_entry-alive id n k w w0 w' ev few high h ran =
    let (wheel, found, same) =
      insert_second_entry-stored w w0 k (held id)
        (sym (insert_entry-second w k (held id) high) ∙ h) in
    let place : before k ≡ k - 1 = omega arith in
    let there : 0 < sum_at (holds id) w0.seconds (k - 1) = rw same (
      emplace-holds id w.seconds wheel (k - 1)
        (ap (λ i. emplace w.seconds i (held id)) (sym place) ∙ found)) in
    run-alive id n (k - 1) w0 w' ev (omega (arith, few)) there ran
