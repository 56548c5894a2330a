-- ===== src/FileMgr/Tests.antt =====
-- The log a/b.c, for the theorem about base/FileMgr.cc.
use wl_tmm.Prelude.{ℕ, ◌≡◌, refl, none, false, if◌then◌else◌, some, List, [], ◌∷◌, true, arith}
use wl_tmm.Prelude.Maps.{text_eq, list_beq, lookup, insert, erase}
use wl_tmm.FileMgr.{Files, FileLog, rotate_minute_type, open_log}
use wl_tmm.FileMgr.Table.{
  Op, Table, get, rotation, remove, new_table, get_file_log, remove_file_log, set_rotate, operate,
  operate_all, remove_file_log-operate_all,
}
use wl_tmm.FileMgr.Rotate.{IsOpen}

abbrev log_path : List ℕ
log_path = 97 ∷ 47 ∷ 98 ∷ 46 ∷ 99 ∷ []

abbrev log : FileLog
log = record { fd = some log_path; path = log_path; rotate_type = rotate_minute_type }

abbrev files : Files
files = (log_path, 65 ∷ 10 ∷ []) ∷ []

log-IsOpen : IsOpen files log (65 ∷ 10 ∷ [])
unfolding lookup
log-IsOpen = record { fd = refl; named = omega arith; holds = refl }

abbrev other_path : List ℕ
other_path = 98 ∷ []

-- Two logs; the second asks for the first one again.
abbrev some_ops : List Op
some_ops =
    get true log_path
    ∷ get true other_path
    ∷ rotation rotate_minute_type 0
    ∷ get true log_path
    ∷ get false (99 ∷ [])
    ∷ remove 1
    ∷ []

remove_file_log-operate_all_example :
    let t = (operate_all some_ops ([], new_table)).1 in
    (t' : Table) × (remove_file_log 0 t ≡ some t')
    × ((n : List ℕ) → lookup n t'.logs ≡ (if list_beq log_path n then none else lookup n t.logs))
unfolding operate_all operate get_file_log remove_file_log set_rotate lookup insert erase open_log
remove_file_log-operate_all_example = remove_file_log-operate_all some_ops [] log_path 0 refl

-- A log that is removed twice takes the newer log of its path out of the table.
stale :
    (operate_all
      (get true log_path ∷ remove 0 ∷ get true log_path ∷ remove 0 ∷ [])
      ([], new_table)).1.logs
    ≡ []
unfolding operate_all operate get_file_log remove_file_log lookup insert erase open_log
stale = refl
