-- ===== src/TTime/Tests.antt =====
-- Times, for the theorems about base/TTime.cc.
use wl_tmm.Prelude.{◌≡◌, refl, [], ◌∷◌, length, arith, codes}
use wl_tmm.Prelude.Int.{pos}
use wl_tmm.InetAddress.Ports.{to_string, digits}
use wl_tmm.TimingWheel.{TimingWheel, done, new_wheel}
use wl_tmm.TTime.{Tm, iso_time}
use wl_tmm.TTime.Stopped.{on_timers, on_timers-stuck}
use wl_tmm.TTime.Width.{IsTm, length-iso_time}

abbrev evening : Tm
evening = record { tm_year = 125; tm_mon = 0; tm_mday = 9; tm_hour = 21; tm_min = 5; tm_sec = 30 }

evening-IsTm : IsTm evening
evening-IsTm = record {
  year = omega arith;
  mon = omega arith;
  mday = omega arith;
  hour = omega arith;
  min = omega arith;
  sec = omega arith;
}

nineteen_characters : length (iso_time evening) ≡ 19
nineteen_characters = length-iso_time evening evening-IsTm

printed_time : iso_time evening ≡ codes "2025-01-09T21:05:30"
unfolding iso_time to_string digits
printed_time = refl

-- The last tick at 32000 ms.
abbrev late : TimingWheel
late = record new_wheel { last_ts = pos 32000 }

on_timers-stuck_example :
    on_timers
      (record { tv_sec = 33; tv_usec = 0 } ∷ record { tv_sec = 90; tv_usec = 500000 } ∷ [])
      late
    ≡ done late []
on_timers-stuck_example = on_timers-stuck late _ (omega arith)
