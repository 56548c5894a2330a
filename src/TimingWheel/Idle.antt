-- ===== src/TimingWheel/Idle.antt =====
-- When an object that a wheel holds expires: network/net/TimingWheel.cc, lines 14 to 17, 43 to 47 and
-- 72 to 105.
use wl_tmm.Prelude.{
  ℕ, zero, suc, ◌+◌, ◌-◌, ◌≤◌, ◌<◌, ◌≡◌, sym, ap, ◌∙◌, some, List, [], ◌∷◌, true, if◌then◌else◌,
  ltb, arith, inl, inr, Option-cases, ==_iff,
}
use wl_tmm.TimingWheel.{
  once, every, held, cascade, Slot, Wheel, TimingWheel, Event, done, stored, insert_entry,
  add_entry, before, emplace, contains_held, is_held,
}
use wl_tmm.TimingWheel.Sums.{sum_slot, sum_at, sum_all}
use wl_tmm.TimingWheel.Insert.{insert_entry-second, insert_second_entry-stored}
use wl_tmm.TimingWheel.Destroy.{and_then-done}
use wl_tmm.TimingWheel.Ticks.{advance-Ticked}
use wl_tmm.TimingWheel.Due.{run, done-injective, sum_at-le-sum_wheel}
use wl_tmm.TimingWheel.Expire.{refs, holds, expiries, expiries-append, insert_entry-refs}
use wl_tmm.TimingWheel.Turn.{advance}
use wl_tmm.TimingWheel.Dropped.{slot_holds-le-refs, advance-refs, advance-expired}

run-refs :
    (id n : ℕ) (w w' : TimingWheel) (ev : List Event)
    → run n w ≡ done w' ev
    → sum_all (refs id) w' + expiries id ev ≤ sum_all (refs id) w
unfolding run
run-refs id zero w w' ev h =
    let (state, quiet) = done-injective h in
    omega (arith, ap (sum_all (refs id)) state, ap (expiries id) quiet)
run-refs id (suc n) w w' ev h =
    let (w1, ev1, ev2, first, second, all) = and_then-done (advance w) (run n) w' ev h in
    omega (
      arith,
      advance-refs id w w1 ev1 first,
      run-refs id n w1 w' ev2 second,
      ap (expiries id) all,
      expiries-append id ev1 ev2,
    )

-- An object that is alone in slot `d` expires at the tick behind `d` others.
run-expiries :
    (id n d : ℕ) (w w' : TimingWheel) (ev : List Event)
    → sum_all (refs id) w ≤ 1
    → 0 < sum_at (holds id) w.seconds d
    → run n w ≡ done w' ev
    → expiries id ev ≡ (if ltb n (suc d) then 0 else 1)
unfolding run
run-expiries id zero d w w' ev alone here h =
    let (state, quiet) = done-injective h in ground (arith, ap (expiries id) quiet)
run-expiries id (suc n) zero w w' ev alone here h =
    let (w1, ev1, ev2, first, second, all) = and_then-done (advance w) (run n) w' ev h in
    let once_only : expiries id ev ≡ 1 = omega (
      arith,
      alone,
      advance-expired id w w1 ev1 alone here first,
      advance-refs id w w1 ev1 first,
      run-refs id n w1 w' ev2 second,
      ap (expiries id) all,
      expiries-append id ev1 ev2,
    ) in
    ground (arith, once_only)
run-expiries id (suc n) (suc d) w w' ev alone here h =
    let (w1, ev1, ev2, first, second, all) = and_then-done (advance w) (run n) w' ev h in
    let near : 0 < sum_at (holds id) w1.seconds d =
      omega (arith, here, (advance-Ticked w w1 ev1 first).seconds (holds id) d) in
    let left = sum_at-le-sum_wheel (holds id) (refs id) w1.seconds d (slot_holds-le-refs id) in
    let kept = advance-refs id w w1 ev1 first in
    let later = run-expiries id n d w1 w' ev2 (omega (arith, alone, kept)) near second in
    let same : expiries id ev ≡ expiries id ev2 =
      omega (arith, alone, near, left, kept, ap (expiries id) all, expiries-append id ev1 ev2) in
    ground (arith, same, later)

contains_held-holds : (id : ℕ) (s : Slot) → contains_held id s ≡ true → 0 < sum_slot (holds id) s
unfolding contains_held is_held
contains_held-holds id [] h = absurd (ground (arith, h))
contains_held-holds id (once c ∷ s) h = omega (arith, contains_held-holds id s (ground (arith, h)))
contains_held-holds id (every n c ∷ s) h =
    omega (arith, contains_held-holds id s (ground (arith, h)))
contains_held-holds id (held i ∷ s) h = ground (arith, h, contains_held-holds id s)
contains_held-holds id (cascade n e ∷ s) h =
    omega (arith, contains_held-holds id s (ground (arith, h)))

add_entry-holds : (id : ℕ) (s : Slot) → 0 < sum_slot (holds id) (add_entry (held id) s)
unfolding add_entry
add_entry-holds id s = ground (arith, ==_iff id id, contains_held-holds id s)

pub emplace-holds :
    (id : ℕ) (w w' : Wheel) (i : ℕ) → emplace w i (held id) ≡ some w' → 0 < sum_at (holds id) w' i
unfolding emplace
emplace-holds id [] w' i h = cc
emplace-holds id (s ∷ w) w' zero h = ground (arith, add_entry-holds id s)
emplace-holds id (s ∷ w) w' (suc i) h = elim (Option-cases (emplace w i (held id))) [
  | inl no_slot ↦ absurd (ground (arith, no_slot))
  | inr (w'', found) ↦ ground (arith, found, emplace-holds id w w'' i found)
]

-- An object that no wheel holds expires `k` ticks after it is put in for `k` seconds.
pub insert_entry-expiries :
    (id n k : ℕ) (w w0 w' : TimingWheel) (ev : List Event)
    → 0 < k
    → k < 60
    → sum_all (refs id) w ≡ 0
    → insert_entry w k (held id) ≡ stored w0
    → run n w0 ≡ done w' ev
    → expiries id ev ≡ (if ltb n k then 0 else 1)
insert_entry-expiries id n k w w0 w' ev low high fresh h ran =
    let (wheel, found, same) =
      insert_second_entry-stored w w0 k (held id)
        (sym (insert_entry-second w k (held id) high) ∙ h) in
    let place : before k ≡ k - 1 = omega arith in
    let here : 0 < sum_at (holds id) w0.seconds (k - 1) = rw same (
      emplace-holds id w.seconds wheel (k - 1)
        (ap (λ i. emplace w.seconds i (held id)) (sym place) ∙ found)) in
    let one : refs id (held id) ≤ 1 = ground arith in
    let alone : sum_all (refs id) w0 ≤ 1 =
      omega (arith, insert_entry-refs id w w0 k (held id) h, one, fresh) in
    let next : suc (k - 1) ≡ k = omega arith in
    run-expiries id n (k - 1) w0 w' ev alone here ran ∙ ap (λ d. if ltb n d then 0 else 1) next
