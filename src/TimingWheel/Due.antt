-- ===== src/TimingWheel/Due.antt =====
-- When a one-shot timer is due: network/net/TimingWheel.cc, lines 14 to 26 and 72 to 117.
use wl_tmm.Prelude.{
  ℕ, zero, suc, ◌+◌, ◌-◌, ◌*◌, ◌%◌, ◌^◌, ◌≤◌, ◌<◌, ◌≡◌, ap, List, [], ◌∷◌, arith, if◌then◌else◌,
  ltb,
}
use native.Mathlib.Decide.{ℕ_discrete}
use wl_tmm.TimingWheel.{
  Entry, once, every, held, cascade, Slot, Wheel, TimingWheel, Event, Effect, done, and_then,
}
use wl_tmm.TimingWheel.Sums.{sum_slot, sum_wheel, sum_at, sum_all}
use wl_tmm.TimingWheel.Destroy.{and_then-done}
use wl_tmm.TimingWheel.Conserve.{timers, calls, calls-append}
use wl_tmm.TimingWheel.Ticks.{Ticked, advance-Ticked}
use wl_tmm.TimingWheel.Fire.{direct, pending, advance-calls, advance-pending}
use wl_tmm.TimingWheel.Turn.{advance}

-- Ticks in a row.
unfoldable pub run : ℕ → TimingWheel → Effect
run zero w = done w []
run (suc n) w = and_then (advance w) (run n)

-- A timer runs at the `n`-th tick from here: it stands in the second wheel, or in the minute wheel
-- with `k` seconds left.
pub data Due (cb : ℕ) (w : TimingWheel) : ℕ → Type 0 where
  in_seconds : {n : ℕ} (i : ℕ) → n ≡ i + 1 → 0 < sum_at (direct cb) w.seconds i → Due cb w n
  in_minutes :
      {n : ℕ} (j k : ℕ)
      → 0 < k
      → k < 60
      → n ≡ 60 * (j + 1) - w.tick % 60 + k
      → 0 < sum_at (pending k cb) w.minutes j
      → Due cb w n

direct-le-timers : (cb : ℕ) (s : Slot) → sum_slot (direct cb) s ≤ sum_slot (timers cb) s
direct-le-timers cb [] = omega arith
direct-le-timers cb (once c ∷ s) = omega (arith, direct-le-timers cb s)
direct-le-timers cb (every n c ∷ s) = omega (arith, direct-le-timers cb s)
direct-le-timers cb (held id ∷ s) = omega (arith, direct-le-timers cb s)
direct-le-timers cb (cascade n e ∷ s) = omega (arith, direct-le-timers cb s)

direct-le : (cb : ℕ) (e : Entry) → direct cb e ≤ timers cb e
direct-le cb (once c) = omega arith
direct-le cb (every n c) = omega arith
direct-le cb (held id) = omega arith
direct-le cb (cascade n e) = omega arith

pending-le-timers : (cb k : ℕ) (s : Slot) → sum_slot (pending k cb) s ≤ sum_slot (timers cb) s
pending-le-timers cb k [] = omega arith
pending-le-timers cb k (once c ∷ s) = omega (arith, pending-le-timers cb k s)
pending-le-timers cb k (every n c ∷ s) = omega (arith, pending-le-timers cb k s)
pending-le-timers cb k (held id ∷ s) = omega (arith, pending-le-timers cb k s)
pending-le-timers cb k (cascade n e ∷ s) = ground (arith, pending-le-timers cb k s, direct-le cb e)

pub sum_at-le-sum_wheel :
    (f g : Entry → ℕ) (w : Wheel) (i : ℕ)
    → ((s : Slot) → sum_slot f s ≤ sum_slot g s)
    → sum_at f w i ≤ sum_wheel g w
sum_at-le-sum_wheel f g [] i h = omega arith
sum_at-le-sum_wheel f g (s ∷ w) zero h = omega (arith, h s)
sum_at-le-sum_wheel f g (s ∷ w) (suc i) h = omega (arith, sum_at-le-sum_wheel f g w i h)

-- A due timer is in the wheels.
Due-timers : (cb n : ℕ) (w : TimingWheel) → Due cb w n → 0 < sum_all (timers cb) w
Due-timers cb n w (in_seconds i e h) =
    omega (arith, sum_at-le-sum_wheel (direct cb) (timers cb) w.seconds i (direct-le-timers cb))
Due-timers cb n w (in_minutes j k low high e h) =
    omega
      (arith, sum_at-le-sum_wheel (pending k cb) (timers cb) w.minutes j (pending-le-timers cb k))

module _ (cb : ℕ) (w w' : TimingWheel) (ev : List Event) (step : advance w ≡ done w' ev) where
  -- The last tick runs it.
  Due-last : w.tick + 1 < 2 ^ 64 → Due cb w 1 → 0 < calls cb ev
  Due-last room (in_seconds zero e h) = omega (arith, advance-calls cb w w' ev step)
  Due-last room (in_seconds (suc i) e h) = absurd (omega arith)
  Due-last room (in_minutes j k low high e h) = absurd (omega arith)

  -- Any other tick brings it one tick nearer.
  Due-next : (n : ℕ) → w.tick + 1 < 2 ^ 64 → Due cb w (suc (suc n)) → Due cb w' (suc n)
  Due-next n room (in_seconds zero e h) = absurd (omega arith)
  Due-next n room (in_seconds (suc i) e h) =
      in_seconds i (omega arith)
        (omega (arith, (advance-Ticked w w' ev step).seconds (direct cb) i))
  Due-next n room (in_minutes j k low high e h) = elim (ℕ_discrete ((w.tick + 1) % 60) 0) [
    | yes whole ↦ last_minute j e h whole
    | no part ↦
        in_minutes j k low high (omega (arith, t.clock))
          (omega (arith, t.minutes (omega arith) (pending k cb) j))
  ]
    where
      t : Ticked w w' ev
      t = advance-Ticked w w' ev step

      last_minute :
          (j : ℕ)
          → suc (suc n) ≡ 60 * (j + 1) - w.tick % 60 + k
          → 0 < sum_at (pending k cb) w.minutes j
          → (w.tick + 1) % 60 ≡ 0
          → Due cb w' (suc n)
      last_minute zero e h whole =
          in_seconds (k - 1) (omega arith)
            (omega (arith, advance-pending cb k w w' ev low high (omega arith) step))
      last_minute (suc j) e h whole =
          in_minutes j k low high (omega (arith, t.clock))
            (omega (arith, t.whole_minute (omega arith) (pending k cb) j))

pub done-injective :
    {w w' : TimingWheel} {ev ev' : List Event} → done w ev ≡ done w' ev' → (w ≡ w') × (ev ≡ ev')
done-injective h = (cc, cc)

-- Any number of ticks that all ended lose no one-shot timer and run none twice: the timers of a
-- callback left in the wheels and its runs are together as many as the timers before.
pub run-timers :
    (cb n : ℕ) (w w' : TimingWheel) (ev : List Event)
    → run n w ≡ done w' ev
    → sum_all (timers cb) w' + calls cb ev ≡ sum_all (timers cb) w
unfolding run
run-timers cb zero w w' ev h =
    let (state, quiet) = done-injective h in
    omega (arith, ap (sum_all (timers cb)) state, ap (calls cb) quiet)
run-timers cb (suc n) w w' ev h =
    let (w1, ev1, ev2, first, second, all) = and_then-done (advance w) (run n) w' ev h in
    omega (
      arith,
      (advance-Ticked w w1 ev1 first).timers_kept cb,
      run-timers cb n w1 w' ev2 second,
      ap (calls cb) all,
      calls-append cb ev1 ev2,
    )

-- A timer that is alone of its number runs at the tick at which it is due, and not before or again.
pub run-Due :
    (cb n d : ℕ) (w w' : TimingWheel) (ev : List Event)
    → sum_all (timers cb) w ≡ 1
    → Due cb w (suc d)
    → w.tick + n < 2 ^ 64
    → run n w ≡ done w' ev
    → calls cb ev ≡ (if ltb n (suc d) then 0 else 1)
unfolding run
run-Due cb zero d w w' ev one due room h =
    let (state, quiet) = done-injective h in ground (arith, ap (calls cb) quiet)
run-Due cb (suc n) zero w w' ev one due room h =
    let (w1, ev1, ev2, first, second, all) = and_then-done (advance w) (run n) w' ev h in
    let once_only : calls cb ev ≡ 1 = omega (
      arith,
      Due-last cb w w1 ev1 first (omega arith) due,
      (advance-Ticked w w1 ev1 first).timers_kept cb,
      run-timers cb n w1 w' ev2 second,
      ap (calls cb) all,
      calls-append cb ev1 ev2,
    ) in
    ground (arith, once_only)
run-Due cb (suc n) (suc d) w w' ev one due room h =
    let (w1, ev1, ev2, first, second, all) = and_then-done (advance w) (run n) w' ev h in
    let t = advance-Ticked w w1 ev1 first in
    let nearer = Due-next cb w w1 ev1 first d (omega arith) due in
    let left = Due-timers cb (suc d) w1 nearer in
    let later =
      run-Due cb n d w1 w' ev2 (omega (arith, left, t.timers_kept cb)) nearer
        (omega (arith, t.clock)) second in
    let same : calls cb ev ≡ calls cb ev2 =
      omega (arith, left, t.timers_kept cb, ap (calls cb) all, calls-append cb ev1 ev2) in
    ground (arith, same, later)
