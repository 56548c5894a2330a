-- ===== src/TimingWheel/Clock.antt =====
-- The guard of OnTimer: network/net/TimingWheel.cc, lines 72 to 84. The time is an int16_t
-- (base/TTime.cc, lines 8 to 13), widened to int64_t.
use wl_tmm.Prelude.{◌≡◌, [], arith, inl, inr, ◌⊎◌, if◌then◌else◌, ◌==◌, ◌&&◌, Bool-cases}
use wl_tmm.Prelude.Int.{ℤ, pos, pos_part, neg_part, ltb_ℤ, ◌-ℤ◌, ◌≤ℤ◌, -ℤ_parts}
use wl_tmm.TimingWheel.{TimingWheel, done}
use wl_tmm.TimingWheel.Turn.{advance, on_timer}

-- What a call takes as the time of the last tick.
abbrev pub last_tick : TimingWheel → ℤ → ℤ
last_tick w now = if pos_part w.last_ts == 0 && neg_part w.last_ts == 0 then now else w.last_ts

-- A call ticks exactly if a second has passed since the last tick, and remembers the time.
pub on_timer_lem :
    (w : TimingWheel) (now : ℤ)
    → ((pos 1000 ≤ℤ now -ℤ last_tick w now)
        × (on_timer w now ≡ advance (record w { last_ts = now })))
      ⊎ (¬ (pos 1000 ≤ℤ now -ℤ last_tick w now)
          × (on_timer w now ≡ done (record w { last_ts = last_tick w now }) []))
unfolding on_timer
on_timer_lem w now = elim (Bool-cases (ltb_ℤ (now -ℤ last_tick w now) (pos 1000))) [
  | inl early ↦ inr (ground (arith, early), ground (arith, early))
  | inr due ↦ inl (ground (arith, due), ground (arith, due))
]

-- If the last tick came at 31768 ms or later, OnTimer at any time that an int16_t can show neither
-- ticks nor changes anything.
pub on_timer-stuck :
    (w : TimingWheel) (now : ℤ)
    → pos 31768 ≤ℤ w.last_ts
    → now ≤ℤ pos 32767
    → on_timer w now ≡ done w []
unfolding on_timer
on_timer-stuck w now late small = ground (arith, -ℤ_parts now w.last_ts)
