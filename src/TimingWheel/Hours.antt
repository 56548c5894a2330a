-- ===== src/TimingWheel/Hours.antt =====
-- Delays of an hour and more: network/net/TimingWheel.cc, lines 27 to 41 and 86 to 97.
use wl_tmm.Prelude.{ℕ, zero, suc, some, ◌/◌, ◌%◌, ◌≤◌, ◌<◌, ◌≡◌, sym, ap, ◌∙◌, List, arith}
use native.Mathlib.Decide.{dec_lt}
use wl_tmm.TimingWheel.{
  once, cascade, Wheel, TimingWheel, Event, done, emplace, before, timing_hour, timing_day,
}
use wl_tmm.TimingWheel.Sums.{sum_at, sum_all, emplace_gains}
use wl_tmm.TimingWheel.Insert.{
  insert_entry-hour, insert_entry-day, insert_hour_entry-stored, insert_day_entry-stored,
}
use wl_tmm.TimingWheel.Destroy.{and_then-done}
use wl_tmm.TimingWheel.Conserve.{timers, calls, add_entry-timers}
use wl_tmm.TimingWheel.Ticks.{Keeps, advance-Ticked}
use wl_tmm.TimingWheel.Due.{run, run-timers, sum_at-le-sum_wheel, done-injective}
use wl_tmm.TimingWheel.Schedule.{run_after-stored, run_after-alone}
use wl_tmm.TimingWheel.Turn.{advance, run_after}

-- However many ticks pass, the two large wheels keep in each slot what they hold.
run-Keeps :
    (n : ℕ) (w w' : TimingWheel) (ev : List Event)
    → run n w ≡ done w' ev
    → Keeps w.hours w'.hours × Keeps w.days w'.days
unfolding run
run-Keeps zero w w' ev h =
    let (state, _) = done-injective h in
    (
      λ f i. omega (arith, ap (λ (u : TimingWheel). sum_at f u.hours i) state),
      λ f i. omega (arith, ap (λ (u : TimingWheel). sum_at f u.days i) state),
    )
run-Keeps (suc n) w w' ev h =
    let (w1, ev1, ev2, first, second, _) = and_then-done (advance w) (run n) w' ev h in
    let t = advance-Ticked w w1 ev1 first in
    let (hr, d) = run-Keeps n w1 w' ev2 second in
    (λ f i. omega (arith, t.hours f i, hr f i), λ f i. omega (arith, t.days f i, d f i))

gains_timer :
    (u v : Wheel) (i n cb : ℕ)
    → emplace u i (cascade n (once cb)) ≡ some v
    → 0 < sum_at (timers cb) v i
gains_timer u v i n cb found = ground (
  arith,
  emplace_gains u v i (cascade n (once cb)) (timers cb) (add_entry-timers cb (cascade n (once cb)))
      found,
)

-- A RunAfter timer of an hour or more and less than 31 days, with a fresh callback number, never
-- runs, however many ticks pass and end.
pub run_after-calls_hours :
    (w w0 w' : TimingWheel) (delay cb n : ℕ) (ev0 ev : List Event)
    → sum_all (timers cb) w ≡ 0
    → 3600 ≤ delay
    → delay < 2678400
    → run_after w delay cb ≡ done w0 ev0
    → run n w0 ≡ done w' ev
    → calls cb ev ≡ 0
run_after-calls_hours w w0 w' delay cb n ev0 ev fresh low high h ticks =
    let found = run_after-stored w w0 delay cb ev0 high h in
    let alone = run_after-alone w w0 delay cb fresh found in
    let kept = run-Keeps n w0 w' ev ticks in
    elim (dec_lt delay 86400) [
      | yes hour ↦
          let (wheel, stored_at, same) =
            insert_hour_entry-stored w w0 delay (once cb)
              (sym (insert_entry-hour w delay (once cb) low hour) ∙ found) in
          let i : ℕ = before (delay / timing_hour) in
          let held_at = gains_timer w.hours wheel i (delay % timing_hour) cb stored_at in
          omega (
            arith,
            alone,
            run-timers cb n w0 w' ev ticks,
            kept.0 (timers cb) i,
            held_at,
            ap (λ (u : TimingWheel). sum_at (timers cb) u.hours i) same,
            sum_at-le-sum_wheel (timers cb) (timers cb) w'.hours i (λ s. omega arith),
          )
      | no day ↦
          let (wheel, stored_at, same) =
            insert_day_entry-stored w w0 delay (once cb)
              (sym (insert_entry-day w delay (once cb) (omega arith) high) ∙ found) in
          let i : ℕ = before (delay / timing_day) in
          let held_at = gains_timer w.days wheel i (delay % timing_day) cb stored_at in
          omega (
            arith,
            alone,
            run-timers cb n w0 w' ev ticks,
            kept.1 (timers cb) i,
            held_at,
            ap (λ (u : TimingWheel). sum_at (timers cb) u.days i) same,
            sum_at-le-sum_wheel (timers cb) (timers cb) w'.days i (λ s. omega arith),
          )
    ]
