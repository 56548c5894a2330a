-- ===== src/TimingWheel/Schedule.antt =====
-- RunAfter from the call to the callback: network/net/TimingWheel.cc, lines 43 to 117.
use mathlib.Core.Path.{subst}
use wl_tmm.Prelude.{
  ℕ, zero, suc, ◌+◌, ◌-◌, ◌/◌, ◌%◌, ◌^◌, ◌≤◌, ◌<◌, ◌≡◌, ◌≢◌, refl, sym, ap, ◌∙◌, List, arith, inl,
  inr, if◌then◌else◌, ltb,
}
use wl_tmm.TimingWheel.{
  Entry, once, cascade, Slot, TimingWheel, Event, done, stored, insert_entry, emplace, before,
  add_entry,
}
use wl_tmm.TimingWheel.Sums.{sum_slot, sum_all, emplace_gains}
use wl_tmm.TimingWheel.Insert.{
  insert_entry-minute, insert_minute_entry-stored, insert_entry-not_refused, insert_entry-Grows,
}
use wl_tmm.TimingWheel.Destroy.{Inserted-cases}
use wl_tmm.TimingWheel.Conserve.{timers, calls, insert_entry-timers}
use wl_tmm.TimingWheel.Fire.{direct, pending, insert_entry-direct}
use wl_tmm.TimingWheel.Due.{Due, in_seconds, in_minutes, run, run-Due}
use wl_tmm.TimingWheel.Turn.{run_after}

pub run_after-stored :
    (w w' : TimingWheel) (delay cb : ℕ) (ev : List Event)
    → delay < 2678400
    → run_after w delay cb ≡ done w' ev
    → insert_entry w delay (once cb) ≡ stored w'
unfolding run_after
run_after-stored w w' delay cb ev small h = elim (Inserted-cases (insert_entry w delay (once cb))) [
  | inl (w1, found) ↦ found ∙ ap stored (let same : w1 ≡ w' = ground (arith, found) in same)
  | inr (inl no_room) ↦ absurd (insert_entry-not_refused w delay (once cb) small no_room)
  | inr (inr outside) ↦ absurd (ground (arith, outside))
]

self_direct : (cb : ℕ) → direct cb (once cb) ≡ 1
self_direct cb = ground arith

-- Below a minute the timer is due after as many ticks as the delay has seconds.
run_after-seconds :
    (w w' : TimingWheel) (delay cb : ℕ)
    → 0 < delay
    → delay < 60
    → insert_entry w delay (once cb) ≡ stored w'
    → Due cb w' delay
run_after-seconds w w' delay cb low high h =
    in_seconds (delay - 1) (omega arith)
      (omega (arith, insert_entry-direct cb delay (once cb) w w' low high h, self_direct cb))

add_cascade-pending :
    (k n cb : ℕ) (e : Entry) (s : Slot)
    → sum_slot (pending k cb) (add_entry (cascade n e) s)
      ≡ pending k cb (cascade n e) + sum_slot (pending k cb) s
unfolding add_entry
add_cascade-pending k n cb e s = refl

-- Between a minute and an hour it is due earlier, by the seconds of the running minute.
run_after-minutes :
    (w w' : TimingWheel) (delay cb : ℕ)
    → 60 ≤ delay
    → delay < 3600
    → delay % 60 ≢ 0
    → insert_entry w delay (once cb) ≡ stored w'
    → Due cb w' (delay - w.tick % 60)
run_after-minutes w w' delay cb low high rest h =
    let (wheel, found, same) =
      insert_minute_entry-stored w w' delay (once cb)
        (sym (insert_entry-minute w delay (once cb) low high) ∙ h) in
    let place : before (delay / 60) ≡ delay / 60 - 1 = omega arith in
    let gain =
      emplace_gains w.minutes wheel (delay / 60 - 1) (cascade (delay % 60) (once cb))
        (pending (delay % 60) cb) (add_cascade-pending (delay % 60) (delay % 60) cb (once cb))
        (ap (λ i. emplace w.minutes i (cascade (delay % 60) (once cb))) (sym place) ∙ found) in
    rw same (
      in_minutes (delay / 60 - 1) (delay % 60) (omega arith) (omega arith) (omega arith)
        (ground (arith, gain)))

-- A timer of a fresh number is alone.
pub run_after-alone :
    (w w0 : TimingWheel) (delay cb : ℕ)
    → sum_all (timers cb) w ≡ 0
    → insert_entry w delay (once cb) ≡ stored w0
    → sum_all (timers cb) w0 ≡ 1
run_after-alone w w0 delay cb none_yet h =
    ground (arith, insert_entry-timers cb w w0 delay (once cb) h)

-- A RunAfter timer of 1 to 59 seconds has run once after n ticks if n reaches the delay, and
-- otherwise not at all, for a fresh callback number, ticks that end and a tick counter that does
-- not overflow.
pub run_after-calls_seconds :
    (w w0 w' : TimingWheel) (delay cb n : ℕ) (ev0 ev : List Event)
    → sum_all (timers cb) w ≡ 0
    → 0 < delay
    → delay < 60
    → run_after w delay cb ≡ done w0 ev0
    → w.tick + n < 2 ^ 64
    → run n w0 ≡ done w' ev
    → calls cb ev ≡ (if ltb n delay then 0 else 1)
run_after-calls_seconds w w0 w' zero cb n ev0 ev fresh low high h room ticks = absurd (omega arith)
run_after-calls_seconds w w0 w' (suc d) cb n ev0 ev fresh low high h room ticks =
    let found = run_after-stored w w0 (suc d) cb ev0 (omega arith) h in
    run-Due cb n d w0 w' ev (run_after-alone w w0 (suc d) cb fresh found)
      (run_after-seconds w w0 (suc d) cb low high found)
      (omega (arith, (insert_entry-Grows w w0 (suc d) (once cb) found).same_tick)) ticks

-- A RunAfter timer of a minute to an hour, no whole number of minutes, runs once, by as many ticks
-- too early as the running minute has seconds, for a fresh callback number, ticks that end and a
-- tick counter that does not overflow.
pub run_after-calls_minutes :
    (w w0 w' : TimingWheel) (delay cb n : ℕ) (ev0 ev : List Event)
    → sum_all (timers cb) w ≡ 0
    → 60 ≤ delay
    → delay < 3600
    → delay % 60 ≢ 0
    → run_after w delay cb ≡ done w0 ev0
    → w.tick + n < 2 ^ 64
    → run n w0 ≡ done w' ev
    → calls cb ev ≡ (if ltb n (delay - w.tick % 60) then 0 else 1)
run_after-calls_minutes w w0 w' delay cb n ev0 ev fresh low high rest h room ticks =
    let found = run_after-stored w w0 delay cb ev0 (omega arith) h in
    let due = run_after-minutes w w0 delay cb low high rest found in
    let count : delay - w.tick % 60 ≡ suc (delay - w.tick % 60 - 1) = omega arith in
    rw count (
      run-Due cb n (delay - w.tick % 60 - 1) w0 w' ev (run_after-alone w w0 delay cb fresh found)
        (subst (Due cb w0) count due)
        (omega (arith, (insert_entry-Grows w w0 delay (once cb) found).same_tick)) ticks)
