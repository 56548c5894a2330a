-- ===== src/TTime/Stopped.antt =====
-- The timers of a loop on this clock: base/TTime.cc, lines 8 to 13, with network/net/TimingWheel.cc,
-- lines 72 to 81.
use wl_tmm.Prelude.{
  ℕ, ◌+◌, ◌*◌, ◌/◌, ◌%◌, ◌^◌, ◌≡◌, refl, ap, ◌∙◌, List, [], ◌∷◌, ltb, arith, Bool-cases, inl, inr,
}
use wl_tmm.Prelude.Int.{pos, ◌≤ℤ◌}
use wl_tmm.TimingWheel.{TimingWheel, Effect, done, and_then}
use wl_tmm.TimingWheel.Turn.{on_timer}
use wl_tmm.TimingWheel.Clock.{on_timer-stuck}
use wl_tmm.TTime.{Timeval, now_ms}

-- The turns of a loop at some times.
unfoldable pub on_timers : List Timeval → TimingWheel → Effect
on_timers [] w = done w []
on_timers (tv ∷ tvs) w = and_then (on_timer w (now_ms tv)) (on_timers tvs)

now_ms-small : (tv : Timeval) → now_ms tv ≤ℤ pos 32767
unfolding now_ms
now_ms-small tv =
    let n : ℕ = tv.tv_sec * 1000 + tv.tv_usec / 1000 in
    elim (Bool-cases (ltb (n % 2 ^ 16) (2 ^ 15))) [
      | inl low ↦ ground (arith, low)
      | inr high ↦ ground (arith, high)
    ]

-- If the last tick came at 31768 ms or later, then whatever the times of the next turns of the
-- loop are, OnTimer with what NowMs makes of them neither ticks nor changes anything in any of
-- them.
pub on_timers-stuck :
    (w : TimingWheel) (tvs : List Timeval) → pos 31768 ≤ℤ w.last_ts → on_timers tvs w ≡ done w []
unfolding on_timers
on_timers-stuck w [] late = refl
on_timers-stuck w (tv ∷ tvs) late =
    ap (λ r. and_then r (on_timers tvs)) (on_timer-stuck w (now_ms tv) late (now_ms-small tv))
    ∙ ap (λ r. and_then (done w []) (λ _. r)) (on_timers-stuck w tvs late)
