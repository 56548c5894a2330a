-- ===== src/TimingWheel/Total.antt =====
-- When a tick ends: network/net/TimingWheel.cc, lines 14 to 134. Each timer's delay is one that the
-- wheels can hand on.
use wl_tmm.Prelude.{
  ℕ, zero, suc, ◌+◌, ◌%◌, ◌^◌, ◌≡◌, refl, ap, ◌∙◌, List, [], ◌∷◌, ◌++◌, arith, inl, inr, length,
  length-append, List-cases, ◌||◌, Bool-cases, true,
}
use mathlib.Core.Path.{subst}
use wl_tmm.TimingWheel.{
  Entry, once, every, held, cascade, Slot, TimingWheel, Event, repeated, expired, Effect, done,
  and_then, new_wheel,
}
use wl_tmm.TimingWheel.Ticks.{turned}
use wl_tmm.TimingWheel.Due.{run}
use wl_tmm.TimingWheel.Turn.{
  advance, run_after, run_every, release, destroy, pop_up_seconds, pop_up_minutes, carry,
  is_referenced, slot_refers,
}
use wl_tmm.TimingWheel.Ticks.{carry_lem}
use wl_tmm.TimingWheel.Sound.{
  is_sound, IsSound, IsHandedOn, AllSlot, AllWheel, IsValid, turned-AllWheel, insert_second,
  insert_entry-IsValid,
}

-- A call that ends in a valid wheel.
abbrev pub Ends : Effect → Type 0
Ends r = (w : TimingWheel) × (ev : List Event) × (r ≡ done w ev) × IsValid w

release_sound :
    (e : Entry) (w : TimingWheel) (rest : Slot) → IsValid w → IsSound e → Ends (release w e rest)
unfolding release run_every
release_sound (once c) w rest v s = (w, _, refl, v)
release_sound (every n c) w rest v s =
    let (w', found, v') = insert_entry-IsValid w n (every n c) v s s in
    (w', repeated c ∷ [], ground (arith, found), v')
release_sound (held id) w rest v s = elim (Bool-cases (is_referenced id w || slot_refers id rest)) [
  | inl other ↦ (w, [], rw other, v)
  | inr last ↦ (w, expired id ∷ [], rw last, v)
]
release_sound (cascade n e) w rest v s = absurd s

release_handed_on :
    (e : Entry) (w : TimingWheel) (rest : Slot) → IsValid w → IsHandedOn e → Ends (release w e rest)
unfolding release
release_handed_on (once c) w rest v s = absurd s
release_handed_on (every n c) w rest v s = absurd s
release_handed_on (held id) w rest v s = absurd s
release_handed_on (cascade n e) w rest v s =
    let (w', found, v') = insert_second w n e v s.0 s.1 s.2 in (w', [], ground (arith, found), v')

and_then-Ends :
    (r : Effect) (f : TimingWheel → Effect)
    → Ends r
    → ((w : TimingWheel) → IsValid w → Ends (f w))
    → Ends (and_then r f)
and_then-Ends r f (w, ev, e, v) next =
    let (w', ev', e', v') = next w v in (w', ev ++ ev', ground (arith, e, e'), v')

destroy-Ends :
    (P : Entry → Type 0) (s : Slot) (w : TimingWheel)
    → ((e : Entry) (u : TimingWheel) (rest : Slot) → IsValid u → P e → Ends (release u e rest))
    → IsValid w
    → AllSlot P s
    → Ends (destroy w s)
unfolding destroy
destroy-Ends P [] w each v a = (w, [], refl, v)
destroy-Ends P (e ∷ rest) w each v a =
    and_then-Ends (release w e rest) (λ u. destroy u rest) (each e w rest v a.0)
      (λ u vu. destroy-Ends P rest u each vu a.1)

pop_up_seconds-Ends : (w : TimingWheel) → IsValid w → Ends (pop_up_seconds w)
unfolding pop_up_seconds
pop_up_seconds-Ends w v = elim (List-cases w.seconds) [
  | inl e ↦ absurd (omega (arith, ap (length {A = Slot}) e, v.second_slots))
  | inr (s, rest, e) ↦
      let a : AllWheel IsSound (s ∷ rest) = subst (AllWheel IsSound) e v.seconds in
      let u : TimingWheel = record w { seconds = turned rest } in
      let valid : IsValid u = record {
        seconds = turned-AllWheel IsSound rest a.1;
        minutes = v.minutes;
        second_slots =
            omega (arith, ap (length {A = Slot}) e, v.second_slots, length-append rest ([] ∷ []));
        minute_slots = v.minute_slots;
        hour_slots = v.hour_slots;
        day_slots = v.day_slots;
      } in
      let (w', ev, e', v') = destroy-Ends IsSound s u release_sound valid a.0 in
      (w', ev, ground (arith, e, e'), v')
]

pop_up_minutes-Ends : (w : TimingWheel) → IsValid w → Ends (pop_up_minutes w)
unfolding pop_up_minutes
pop_up_minutes-Ends w v = elim (List-cases w.minutes) [
  | inl e ↦ absurd (omega (arith, ap (length {A = Slot}) e, v.minute_slots))
  | inr (s, rest, e) ↦
      let a : AllWheel IsHandedOn (s ∷ rest) = subst (AllWheel IsHandedOn) e v.minutes in
      let u : TimingWheel = record w { minutes = turned rest } in
      let valid : IsValid u = record {
        seconds = v.seconds;
        minutes = turned-AllWheel IsHandedOn rest a.1;
        second_slots = v.second_slots;
        minute_slots =
            omega (arith, ap (length {A = Slot}) e, v.minute_slots, length-append rest ([] ∷ []));
        hour_slots = v.hour_slots;
        day_slots = v.day_slots;
      } in
      let (w', ev, e', v') = destroy-Ends IsHandedOn s u release_handed_on valid a.0 in
      (w', ev, ground (arith, e, e'), v')
]

carry-Ends : (w : TimingWheel) → IsValid w → Ends (carry w)
carry-Ends w v = elim (carry_lem w) [
  | inl (_, same) ↦ let (w', ev, e, v') = pop_up_minutes-Ends w v in (w', ev, same ∙ e, v')
  | inr (_, same) ↦ (w, [], same, v)
]

-- A tick of valid wheels ends, and leaves them valid.
pub advance-Ends : (w : TimingWheel) → IsValid w → Ends (advance w)
unfolding advance
advance-Ends w v = and_then-Ends (pop_up_seconds w0) carry (pop_up_seconds-Ends w0 v0) carry-Ends
  where
    w0 : TimingWheel
    w0 = record w { tick = (w.tick + 1) % 2 ^ 64 }

    v0 : IsValid w0
    v0 = record {
      seconds = v.seconds;
      minutes = v.minutes;
      second_slots = v.second_slots;
      minute_slots = v.minute_slots;
      hour_slots = v.hour_slots;
      day_slots = v.day_slots;
    }

-- From valid wheels, whose entries all have delays that can be handed on, any number of ticks ends
-- without an access out of a wheel or an endless RunEvery, and leaves valid wheels.
pub run-Ends : (n : ℕ) (w : TimingWheel) → IsValid w → Ends (run n w)
unfolding run
run-Ends zero w v = (w, [], refl, v)
run-Ends (suc n) w v = and_then-Ends (advance w) (run n) (advance-Ends w v) (run-Ends n)

-- RunAfter with a sound delay on valid wheels ends, runs nothing at once, and leaves valid wheels.
pub run_after-Ends :
    (w : TimingWheel) (delay cb : ℕ)
    → IsValid w
    → is_sound delay ≡ true
    → (w' : TimingWheel) × (run_after w delay cb ≡ done w' []) × IsValid w'
unfolding run_after
run_after-Ends w delay cb v ok =
    let (w', found, v') = insert_entry-IsValid w delay (once cb) v tt ok in
    (w', ground (arith, found), v')

pub run_every-Ends :
    (w : TimingWheel) (interval cb : ℕ)
    → IsValid w
    → is_sound interval ≡ true
    → (w' : TimingWheel) × (run_every w interval cb ≡ done w' []) × IsValid w'
unfolding run_every
run_every-Ends w interval cb v ok =
    let (w', found, v') = insert_entry-IsValid w interval (every interval cb) v ok ok in
    (w', ground (arith, found), v')

-- The wheels that the constructor makes are valid.
pub new_wheel-IsValid : IsValid new_wheel
unfolding new_wheel
new_wheel-IsValid = omega arith
