-- ===== src/TaksMgr/Tests.antt =====
-- Two tasks, one of them due, for the theorem about base/TaksMgr.cc.
use wl_tmm.Prelude.{◌≡◌, List, [], ◌∷◌, map, ◌==◌}
use wl_tmm.Prelude.Int.{pos}
use wl_tmm.TaksMgr.{Task, on_work}
use wl_tmm.TaksMgr.Due.{due, waiting, after_turn, on_work-due}

abbrev tasks : List Task
tasks =
    record { id = 1; interval = pos 500; when = pos 900 }
    ∷ record { id = 2; interval = pos 500; when = pos 1900 }
    ∷ []

on_work-due_example :
    ((on_work (λ id. id == 1) (λ id. pos 1000) (pos 1000) tasks).0 ≡ due (pos 1000) tasks)
    × ((on_work (λ id. id == 1) (λ id. pos 1000) (pos 1000) tasks).1
        ≡ waiting (pos 1000) (map (after_turn (λ id. id == 1) (λ id. pos 1000) (pos 1000)) tasks))
on_work-due_example = on_work-due (λ id. id == 1) (λ id. pos 1000) (pos 1000) tasks
