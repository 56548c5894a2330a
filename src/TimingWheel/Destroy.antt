-- ===== src/TimingWheel/Destroy.antt =====
-- What dropping a slot changes: network/net/TimingWheel.h, lines 32 to 46, and TimingWheel.cc, lines
-- 99 to 134.
use wl_tmm.Prelude.{ℕ, ◌≡◌, refl, List, [], ◌∷◌, ◌++◌, arith, inl, inr, ◌⊎◌}
use wl_tmm.TimingWheel.{
  Entry, once, every, held, cascade, Slot, TimingWheel, Event, repeated, Effect, done, undefined,
  runaway, add_events, and_then, Inserted, stored, refused, invalid, insert_entry,
}
use wl_tmm.TimingWheel.Sums.{Grows, Grows-refl, Grows-trans}
use wl_tmm.TimingWheel.Insert.{insert_entry-Grows}
use wl_tmm.TimingWheel.Turn.{run_every, release, destroy}

pub Inserted-cases :
    (r : Inserted) → ((w : TimingWheel) × (r ≡ stored w)) ⊎ ((r ≡ refused) ⊎ (r ≡ invalid))
Inserted-cases (stored w) = inl (w, refl)
Inserted-cases refused = inr (inl refl)
Inserted-cases invalid = inr (inr refl)

-- The parts of a sequence that ended.
pub and_then-done :
    (r : Effect) (f : TimingWheel → Effect) (w' : TimingWheel) (ev : List Event)
    → and_then r f ≡ done w' ev
    → (w1 : TimingWheel) × (ev1 ev2 : List Event) × (r ≡ done w1 ev1)
      × (f w1 ≡ done w' ev2)
      × (ev ≡ ev1 ++ ev2)
and_then-done (done w1 ev1) f w' ev h = go (f w1) refl h
  where
    go :
        (r : Effect)
        → f w1 ≡ r
        → add_events ev1 r ≡ done w' ev
        → (w2 : TimingWheel) × (ev3 ev2 : List Event) × (done w1 ev1 ≡ done w2 ev3)
          × (f w2 ≡ done w' ev2)
          × (ev ≡ ev3 ++ ev2)
    go (done w2 ev2) e k = (w1, ev1, ev2, refl, ground (arith, e, k), ground (arith, k))
    go undefined e k = cc
    go runaway e k = cc
and_then-done undefined f w' ev h = cc
and_then-done runaway f w' ev h = cc

-- RunEvery leaves what the slots hold.
pub run_every-Grows :
    (w w' : TimingWheel) (interval cb : ℕ) (ev : List Event)
    → run_every w interval cb ≡ done w' ev
    → Grows w w'
unfolding run_every
run_every-Grows w w' interval cb ev h =
    elim (Inserted-cases (insert_entry w interval (every interval cb))) [
      | inl (w1, e) ↦ rw (← same w1 e) (insert_entry-Grows w w1 interval (every interval cb) e)
      | inr (inl e) ↦ absurd (ground (arith, e))
      | inr (inr e) ↦ absurd (ground (arith, e))
    ]
  where
    same : (w1 : TimingWheel) → insert_entry w interval (every interval cb) ≡ stored w1 → w1 ≡ w'
    same w1 e = ground (arith, e)

pub add_events-done :
    (ev : List Event) (r : Effect) (w' : TimingWheel) (ev' : List Event)
    → add_events ev r ≡ done w' ev'
    → (ev2 : List Event) × (r ≡ done w' ev2) × (ev' ≡ ev ++ ev2)
add_events-done ev (done w ev2) w' ev' h = (ev2, ground (arith, h), ground (arith, h))
add_events-done ev undefined w' ev' h = cc
add_events-done ev runaway w' ev' h = cc

pub release-Grows :
    (e : Entry) (w w' : TimingWheel) (rest : Slot) (ev : List Event)
    → release w e rest ≡ done w' ev
    → Grows w w'
unfolding release
release-Grows (once cb) w w' rest ev h =
    rw (← let same : w ≡ w' = ground arith in same) (Grows-refl w)
release-Grows (every interval cb) w w' rest ev h =
    let (ev2, ran, _) = add_events-done (repeated cb ∷ []) (run_every w interval cb) w' ev h in
    run_every-Grows w w' interval cb ev2 ran
release-Grows (held id) w w' rest ev h =
    rw (← let same : w ≡ w' = ground arith in same) (Grows-refl w)
release-Grows (cascade second e) w w' rest ev h = elim (Inserted-cases (insert_entry w second e)) [
  | inl (w1, found) ↦
      rw (← let same : w1 ≡ w' = ground (arith, found) in same)
        (insert_entry-Grows w w1 second e found)
  | inr (inl no_room) ↦ release-Grows e w w' rest ev (ground (arith, no_room, h))
  | inr (inr outside) ↦ absurd (ground (arith, outside))
]

-- Dropping a slot leaves what the others hold.
pub destroy-Grows :
    (s : Slot) (w w' : TimingWheel) (ev : List Event) → destroy w s ≡ done w' ev → Grows w w'
unfolding destroy
destroy-Grows [] w w' ev h = rw (← let same : w ≡ w' = ground arith in same) (Grows-refl w)
destroy-Grows (e ∷ rest) w w' ev h =
    let (w1, ev1, ev2, first, second, _) =
      and_then-done (release w e rest) (λ w2. destroy w2 rest) w' ev h in
    Grows-trans (release-Grows e w w1 rest ev1 first) (destroy-Grows rest w1 w' ev2 second)
