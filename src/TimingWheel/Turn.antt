-- ===== src/TimingWheel/Turn.antt =====
-- Turning the wheels: network/net/TimingWheel.cc, lines 72 to 134, and the destructor of
-- CallBackEntry in TimingWheel.h.
use wl_tmm.Prelude.{ℕ, ◌+◌, ◌%◌, ◌^◌, [], ◌∷◌, ◌++◌, Bool, false, ◌||◌, ◌&&◌, ◌==◌, if◌then◌else◌}
use wl_tmm.Prelude.Int.{ℤ, pos, pos_part, neg_part, ltb_ℤ, ◌-ℤ◌}
use wl_tmm.TimingWheel.{
  Entry, once, every, held, cascade, Slot, Wheel, TimingWheel, called, repeated, expired, Effect,
  done, undefined, runaway, add_events, and_then, stored, refused, invalid, insert_entry,
  timing_minute, timing_hour, timing_day,
}

-- Whether an entry holds a reference to an object.
unfoldable pub refers : ℕ → Entry → Bool
refers id (once cb) = false
refers id (every interval cb) = false
refers id (held i) = i == id
refers id (cascade second e) = refers id e

unfoldable pub slot_refers : ℕ → Slot → Bool
slot_refers id [] = false
slot_refers id (e ∷ es) = refers id e || slot_refers id es

unfoldable pub wheel_refers : ℕ → Wheel → Bool
wheel_refers id [] = false
wheel_refers id (s ∷ w) = slot_refers id s || wheel_refers id w

unfoldable pub is_referenced : ℕ → TimingWheel → Bool
is_referenced id w =
    wheel_refers id w.seconds
    || wheel_refers id w.minutes
    || wheel_refers id w.hours
    || wheel_refers id w.days

-- RunAfter: `delay` is what InsertEntry gets, a uint32_t that the double is truncated to first, so that
-- a fraction of a second is dropped. A refused entry loses its only reference on return, and so runs
-- at once.
unfoldable pub run_after : TimingWheel → ℕ → ℕ → Effect
run_after w delay cb = elim (insert_entry w delay (once cb)) [
  | stored w' ↦ done w' []
  | refused ↦ done w (called cb ∷ [])
  | invalid ↦ undefined
]

-- RunEvery: a refused entry runs at once, and calls RunEvery again.
unfoldable pub run_every : TimingWheel → ℕ → ℕ → Effect
run_every w interval cb = elim (insert_entry w interval (every interval cb)) [
  | stored w' ↦ done w' []
  | refused ↦ runaway
  | invalid ↦ undefined
]

-- One reference goes, while `rest` is still to be dropped.
unfoldable pub release : TimingWheel → Entry → Slot → Effect
release w (once cb) rest = done w (called cb ∷ [])
release w (every interval cb) rest = add_events (repeated cb ∷ []) (run_every w interval cb)
release w (held id) rest =
    if is_referenced id w || slot_refers id rest then done w [] else done w (expired id ∷ [])
release w (cascade second e) rest = elim (insert_entry w second e) [
  | stored w' ↦ done w' []
  | refused ↦ release w e rest
  | invalid ↦ undefined
]

-- The destructor of a slot.
unfoldable pub destroy : TimingWheel → Slot → Effect
destroy w [] = done w []
destroy w (e ∷ rest) = and_then (release w e rest) (λ w'. destroy w' rest)

unfoldable pub pop_up_seconds : TimingWheel → Effect
pop_up_seconds w = elim w.seconds [
  | [] ↦ undefined
  | s ∷ rest ↦ destroy (record w { seconds = rest ++ [] ∷ [] }) s
]

unfoldable pub pop_up_minutes : TimingWheel → Effect
pop_up_minutes w = elim w.minutes [
  | [] ↦ undefined
  | s ∷ rest ↦ destroy (record w { minutes = rest ++ [] ∷ [] }) s
]

unfoldable pub pop_up_hours : TimingWheel → Effect
pop_up_hours w = elim w.hours [
  | [] ↦ undefined
  | s ∷ rest ↦ destroy (record w { hours = rest ++ [] ∷ [] }) s
]

unfoldable pub pop_up_days : TimingWheel → Effect
pop_up_days w = elim w.days [
  | [] ↦ undefined
  | s ∷ rest ↦ destroy (record w { days = rest ++ [] ∷ [] }) s
]

-- The larger wheels of a tick.
unfoldable pub carry : TimingWheel → Effect
carry w =
    if w.tick % timing_minute == 0
    then pop_up_minutes w
    else if w.tick % timing_hour == 0
    then pop_up_hours w
    else if w.tick % timing_day == 0
    then pop_up_days w
    else done w []

-- A tick: OnTimer behind its guard.
unfoldable pub advance : TimingWheel → Effect
advance w = and_then (pop_up_seconds (record w { tick = (w.tick + 1) % 2 ^ 64 })) carry

unfoldable pub on_timer : TimingWheel → ℤ → Effect
on_timer w now =
    let last = if pos_part w.last_ts == 0 && neg_part w.last_ts == 0 then now else w.last_ts in
    if ltb_ℤ (now -ℤ last) (pos 1000)
    then done (record w { last_ts = last }) []
    else advance (record w { last_ts = now })
