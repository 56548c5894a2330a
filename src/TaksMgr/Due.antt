-- ===== src/TaksMgr/Due.antt =====
-- Which tasks run and which stay: base/TaksMgr.cc, lines 7 to 24.
use wl_tmm.Prelude.{
  ℕ, ◌≡◌, refl, List, [], ◌∷◌, Bool, if◌then◌else◌, arith, Bool-cases, inl, inr, true, false, ◌&&◌,
  map, sym, ap, ◌∙◌,
}
use wl_tmm.Prelude.Int.{ℤ, ltb_ℤ, ◌+ℤ◌}
use wl_tmm.TaksMgr.{Task, to_int16, run, restart, on_work}

-- The numbers of the tasks whose time is before `now`, in their order.
abbrev pub due : ℤ → List Task → List ℕ
due now [] = []
due now (t ∷ ts) = if ltb_ℤ t.when now then t.id ∷ due now ts else due now ts

-- The tasks whose time is not before `now`.
abbrev pub waiting : ℤ → List Task → List Task
waiting now [] = []
waiting now (t ∷ ts) = if ltb_ℤ t.when now then waiting now ts else t ∷ waiting now ts

waiting-later :
    (now : ℤ) (t : Task) (ts : List Task)
    → ltb_ℤ t.when now ≡ false
    → waiting now (t ∷ ts) ≡ t ∷ waiting now ts
waiting-later now t ts later = rw later refl

waiting-past :
    (now : ℤ) (t : Task) (ts : List Task)
    → ltb_ℤ t.when now ≡ true
    → waiting now (t ∷ ts) ≡ waiting now ts
waiting-past now t ts past = rw past refl

module _ (restarts : ℕ → Bool) (reads : ℕ → ℤ) where
  -- A task after its turn: it has run if it was due, and has a new time if it restarted itself.
  abbrev pub after_turn : ℤ → Task → Task
  after_turn now t =
      if ltb_ℤ t.when now && restarts t.id
      then record t { when = to_int16 (t.interval +ℤ reads t.id) }
      else t

  run-after_turn :
      (now : ℤ) (t : Task) → ltb_ℤ t.when now ≡ true → run restarts reads t ≡ after_turn now t
  unfolding run restart
  run-after_turn now t past = ground (arith, past)

  -- Exactly the tasks that are due run, each once and in their order. Exactly those stay, in their
  -- order, that are not due after their turn, in which a due task that restarts itself has a new
  -- time.
  pub on_work-due :
      (now : ℤ) (ts : List Task)
      → ((on_work restarts reads now ts).0 ≡ due now ts)
        × ((on_work restarts reads now ts).1 ≡ waiting now (map (after_turn now) ts))
  unfolding on_work
  on_work-due now [] = (refl, refl)
  on_work-due now (t ∷ ts) =
      let (ran, stay) = on_work-due now ts in
      elim (Bool-cases (ltb_ℤ t.when now)) [
        | inr later ↦ (ground (arith, later, ran), ground (arith, later, stay))
        | inl past ↦
            let same = run-after_turn now t past in
            elim (Bool-cases (ltb_ℤ (run restarts reads t).when now)) [
              | inr again ↦ (
                ground (arith, past, again, ran),
                ground (arith, past, again, stay)
                    ∙ ap (λ u. u ∷ waiting now (map (after_turn now) ts)) same
                    ∙ sym (
                        waiting-later now (after_turn now t) (map (after_turn now) ts)
                          (sym (ap (λ u. ltb_ℤ u.when now) same) ∙ again)),
              )
              | inl gone ↦ (
                ground (arith, past, gone, ran),
                ground (arith, past, gone, stay)
                    ∙ sym (
                        waiting-past now (after_turn now t) (map (after_turn now) ts)
                          (sym (ap (λ u. ltb_ℤ u.when now) same) ∙ gone)),
              )
            ]
      ]
