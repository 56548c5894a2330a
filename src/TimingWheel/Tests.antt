-- ===== src/TimingWheel/Tests.antt =====
-- Runs of the wheels, and the theorems at concrete timers: network/net/TimingWheel.cc.
use wl_tmm.Prelude.{ℕ, ◌+◌, ◌≡◌, ◌≢◌, refl, List, [], arith}
use wl_tmm.Prelude.Int.{pos, ◌-ℤ◌}
use wl_tmm.TimingWheel.{
  TimingWheel, Effect, done, undefined, runaway, Event, new_wheel, add_entry, emplace, insert_entry,
  insert_second_entry, insert_minute_entry, insert_hour_entry, insert_day_entry,
}
use wl_tmm.TimingWheel.Turn.{
  run_after, run_every, release, destroy, pop_up_seconds, pop_up_minutes, carry, advance, on_timer,
}
use wl_tmm.TimingWheel.Conserve.{calls, timers}
use wl_tmm.TimingWheel.Sums.{sum_all}
use wl_tmm.TimingWheel.Due.{run, run-timers}
use wl_tmm.TimingWheel.Schedule.{run_after-calls_seconds, run_after-calls_minutes}
use wl_tmm.TimingWheel.Hours.{run_after-calls_hours}
use wl_tmm.TimingWheel.Doomed.{run_after-whole_minutes}
use wl_tmm.TimingWheel.Total.{new_wheel-IsValid, run-Ends, Ends}

state_or : TimingWheel → Effect → TimingWheel
state_or w (done u ev) = u
state_or w undefined = w
state_or w runaway = w

events : Effect → List Event
events (done w ev) = ev
events undefined = []
events runaway = []

-- The wheels with the timer 7 set.
with_timer : ℕ → TimingWheel
unfolding new_wheel run_after insert_entry insert_second_entry insert_minute_entry insert_hour_entry
    insert_day_entry emplace add_entry state_or
with_timer delay = state_or new_wheel (run_after new_wheel delay 7)

ticks : ℕ → TimingWheel → Effect
unfolding run advance pop_up_seconds pop_up_minutes destroy release carry events state_or run_every
    insert_entry insert_second_entry insert_minute_entry insert_hour_entry insert_day_entry emplace
    add_entry
ticks n w = run n w

after : ℕ → TimingWheel → TimingWheel
unfolding ticks
after n w = state_or w (ticks n w)

ran : ℕ → TimingWheel → List Event
unfolding ticks
ran n w = events (ticks n w)

run_after-calls_seconds_example : calls 7 (ran 3 (with_timer 2)) ≡ 1
unfolding with_timer after ran
run_after-calls_seconds_example =
    run_after-calls_seconds new_wheel (with_timer 2) (after 3 (with_timer 2)) 2 7 3 []
      (ran 3 (with_timer 2)) refl (omega arith) (omega arith) refl (omega arith) refl

-- A timer of 61 seconds that is set at the start of a minute.
run_after-calls_minutes_example : calls 7 (ran 61 (with_timer 61)) ≡ 1
unfolding with_timer after ran
run_after-calls_minutes_example =
    run_after-calls_minutes new_wheel (with_timer 61) (after 61 (with_timer 61)) 61 7 61 []
      (ran 61 (with_timer 61)) refl (omega arith) (omega arith) (omega arith) refl (omega arith)
      refl

run_after-calls_hours_example : calls 7 (ran 5 (with_timer 3600)) ≡ 0
unfolding with_timer after ran
run_after-calls_hours_example =
    run_after-calls_hours new_wheel (with_timer 3600) (after 5 (with_timer 3600)) 3600 7 5 []
      (ran 5 (with_timer 3600)) refl (omega arith) (omega arith) refl refl

run_after-whole_minutes_example : run 60 (with_timer 60) ≢ done new_wheel []
unfolding with_timer
run_after-whole_minutes_example =
    run_after-whole_minutes new_wheel (with_timer 60) new_wheel 60 7 [] [] refl (omega arith)
      (omega arith) refl refl (omega arith)

run-timers_example :
    sum_all (timers 7) (after 3 (with_timer 2)) + calls 7 (ran 3 (with_timer 2))
    ≡ sum_all (timers 7) (with_timer 2)
unfolding with_timer after ran
run-timers_example =
    run-timers 7 3 (with_timer 2) (after 3 (with_timer 2)) (ran 3 (with_timer 2)) refl

run-Ends_example : Ends (run 3 new_wheel)
run-Ends_example = run-Ends 3 new_wheel new_wheel-IsValid

-- The wheels at the last second of an int16_t.
late_wheel : TimingWheel
unfolding new_wheel
late_wheel = record new_wheel { last_ts = pos 31900 }

on_timer_first : on_timer new_wheel (pos 500) ≡ done (record new_wheel { last_ts = pos 500 }) []
unfolding on_timer new_wheel ◌-ℤ◌
on_timer_first = refl
