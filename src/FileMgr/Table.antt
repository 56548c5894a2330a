-- ===== src/FileMgr/Table.antt =====
-- The table of log files: base/FileMgr.cc, lines 75 to 95. A log is shared with the caller, so it is
-- the index of an object among those that were made.
use mathlib.Core.Path.{subst}
use wl_tmm.Prelude.{
  ℕ, ◌≡◌, refl, ap, ◌∙◌, Option, none, some, List, [], ◌∷◌, ◌++◌, Bool, true, false, arith, length,
  get_elem?, set, if◌then◌else◌, inl, inr, Option-cases, Bool-cases, sym, get_elem-append,
  get_elem-set, ◌==◌, ==_iff, get_elem-append_last,
}
use wl_tmm.Prelude.Maps.{
  text_eq, list_beq, list_beq_iff, lookup, insert, erase, lookup-insert, lookup-erase,
}
use wl_tmm.FileMgr.{Files, FileLog, RotateType, open_log, rotate_none}

pub record Table : Type 0 where
  pub logs : List (List ℕ × ℕ)
  pub objects : List FileLog

abbrev pub new_table : Table
new_table = record { logs = []; objects = [] }

abbrev pub new_log : FileLog
new_log = record { fd = none; path = []; rotate_type = rotate_none }

-- `GetFileLog`: `open_ok` is whether the file opens; no log stands for the null pointer.
unfoldable pub get_file_log : Bool → List ℕ → Files × Table → Option ℕ × Files × Table
get_file_log open_ok name (files, t) = elim (lookup name t.logs) [
  | some id ↦ (some id, files, t)
  | none ↦
      let (ok, files', log) = open_log open_ok name (files, new_log) in
      let id = length t.objects in
      if ok
      then (
        some id,
        files',
        record { logs = insert name id t.logs; objects = t.objects ++ log ∷ [] },
      )
      else (none, files', t)
]

-- `RemoveFileLog`; `none` is a call with a pointer to no log.
unfoldable pub remove_file_log : ℕ → Table → Option Table
remove_file_log id t = elim (get_elem? t.objects id) [
  | none ↦ none
  | some log ↦ some (record t { logs = erase log.path t.logs })
]

-- `FileLog::SetRotate` on a log.
unfoldable pub set_rotate : RotateType → ℕ → Table → Table
set_rotate type id t = elim (get_elem? t.objects id) [
  | none ↦ t
  | some log ↦ record t { objects = set t.objects id (record log { rotate_type = type }) }
]

pub data Op : Type 0 where
  get : Bool → List ℕ → Op
  rotation : RotateType → ℕ → Op
  remove : ℕ → Op

-- A removal of no log is left out.
unfoldable pub operate : Op → Files × Table → Files × Table
operate (get open_ok name) x = let (log, files, t) = get_file_log open_ok name x in (files, t)
operate (rotation type id) (files, t) = (files, set_rotate type id t)
operate (remove id) (files, t) = elim (remove_file_log id t) [
  | none ↦ (files, t)
  | some t' ↦ (files, t')
]

unfoldable pub operate_all : List Op → Files × Table → Files × Table
operate_all [] x = x
operate_all (o ∷ os) x = operate_all os (operate o x)

-- Each entry is a log that stands under its path.
pub record IsEntry (t : Table) (name : List ℕ) (id : ℕ) : Type 0 where
  pub log : FileLog
  pub object : get_elem? t.objects id ≡ some log
  pub named : log.path ≡ name

abbrev pub IsValid : Table → Type 0
IsValid t = (name : List ℕ) (id : ℕ) → lookup name t.logs ≡ some id → IsEntry t name id

new_table-IsValid : IsValid new_table
unfolding lookup
new_table-IsValid name id e = ground (arith, e)

-- The table with a log that was opened or not.
abbrev entered : Bool → List ℕ → Table → Table
entered true name t = record {
  logs = insert name (length t.objects) t.logs;
  objects = t.objects ++ record new_log { path = name; fd = some name } ∷ [];
}
entered false name t = t

entered-IsValid : (ok : Bool) (name : List ℕ) (t : Table) → IsValid t → IsValid (entered ok name t)
entered-IsValid false name t v n id e = v n id e
entered-IsValid true name t v n id e =
    let looked = lookup-insert name n (length t.objects) t.logs in
    elim (Bool-cases (list_beq name n)) [
      | inl same ↦
          let here : length t.objects ≡ id = ground (arith, looked, same, e) in
          record {
            log = record new_log { path = name; fd = some name };
            object =
                subst
                  (λ i.
                    get_elem? (entered true name t).objects i
                    ≡ some (record new_log { path = name; fd = some name }))
                  here
                  (get_elem-append_last t.objects (record new_log { path = name; fd = some name }));
            named = (list_beq_iff name n).0 same;
          }
      | inr other ↦
          let old = v n id (ground (arith, looked, other, e)) in
          record {
            log = old.log;
            object =
                get_elem-append t.objects (record new_log { path = name; fd = some name } ∷ []) id
                  old.object;
            named = old.named;
          }
    ]

get_file_log-old :
    (ok : Bool) (name : List ℕ) (files : Files) (t : Table) (id : ℕ)
    → lookup name t.logs ≡ some id
    → (get_file_log ok name (files, t)).2 ≡ t
unfolding get_file_log
get_file_log-old ok name files t id there = ground (arith, there)

get_file_log-new :
    (ok : Bool) (name : List ℕ) (files : Files) (t : Table)
    → lookup name t.logs ≡ none
    → (get_file_log ok name (files, t)).2 ≡ entered ok name t
unfolding get_file_log open_log
get_file_log-new true name files t absent = ground (arith, absent)
get_file_log-new false name files t absent = ground (arith, absent)

get_file_log-IsValid :
    (ok : Bool) (name : List ℕ) (files : Files) (t : Table)
    → IsValid t
    → IsValid (get_file_log ok name (files, t)).2
get_file_log-IsValid ok name files t v = elim (Option-cases (lookup name t.logs)) [
  | inr (id, there) ↦ subst IsValid (sym (get_file_log-old ok name files t id there)) v
  | inl absent ↦
      subst IsValid (sym (get_file_log-new ok name files t absent)) (entered-IsValid ok name t v)
]

-- A removal of a log that there is.
remove_file_log-some :
    (id : ℕ) (t : Table) (log : FileLog)
    → get_elem? t.objects id ≡ some log
    → remove_file_log id t ≡ some (record t { logs = erase log.path t.logs })
unfolding remove_file_log
remove_file_log-some id t log there = ground (arith, there)

erase-IsValid :
    (path : List ℕ) (t : Table) → IsValid t → IsValid (record t { logs = erase path t.logs })
erase-IsValid path t v n id e =
    let gone = lookup-erase path n t.logs in
    let old = v n id (ground (arith, gone, e)) in
    record { log = old.log; object = old.object; named = old.named }

remove-IsValid :
    (id : ℕ) (files : Files) (t : Table) → IsValid t → IsValid (operate (remove id) (files, t)).1
unfolding operate remove_file_log
remove-IsValid id files t v = elim (Option-cases (get_elem? t.objects id)) [
  | inl nothing ↦ rw (nothing, operate, remove_file_log) v
  | inr (log, there) ↦ rw (there, operate, remove_file_log) (erase-IsValid log.path t v)
]

changed-IsValid :
    (id : ℕ) (log new : FileLog) (t : Table)
    → get_elem? t.objects id ≡ some log
    → new.path ≡ log.path
    → IsValid t
    → IsValid (record t { objects = set t.objects id new })
changed-IsValid id log new t there same v name i e =
    let old = v name i e in
    let placed = get_elem-set t.objects id i new there old.object in
    elim (Bool-cases (id == i)) [
      | inl this ↦ record {
        log = new;
        object = ground (arith, placed, this);
        named = ground (arith, same, this, there, old.object, old.named, ==_iff id i);
      }
      | inr other ↦ record {
        log = old.log;
        object = ground (arith, placed, other);
        named = old.named;
      }
    ]

set_rotate-IsValid :
    (type : RotateType) (id : ℕ) (t : Table) → IsValid t → IsValid (set_rotate type id t)
unfolding set_rotate
set_rotate-IsValid type id t v = elim (Option-cases (get_elem? t.objects id)) [
  | inl nothing ↦ rw (nothing, set_rotate) v
  | inr (log, there) ↦
      rw (there, set_rotate)
        (changed-IsValid id log (record log { rotate_type = type }) t there refl v)
]

operate-IsValid :
    (o : Op) (files : Files) (t : Table) → IsValid t → IsValid (operate o (files, t)).1
unfolding operate
operate-IsValid (get open_ok name) files t v = get_file_log-IsValid open_ok name files t v
operate-IsValid (rotation type id) files t v = set_rotate-IsValid type id t v
operate-IsValid (remove id) files t v = remove-IsValid id files t v

operate_all-IsValid :
    (os : List Op) (files : Files) (t : Table) → IsValid t → IsValid (operate_all os (files, t)).1
unfolding operate_all
operate_all-IsValid [] files t v = v
operate_all-IsValid (o ∷ os) files t v =
    operate_all-IsValid os (operate o (files, t)).0 (operate o (files, t)).1
      (operate-IsValid o files t v)

-- After any calls of GetFileLog, RemoveFileLog and SetRotate on an empty table, RemoveFileLog of a
-- log that stands in the table succeeds and takes out its entry and no other.
pub remove_file_log-operate_all :
    (os : List Op) (files : Files) (name : List ℕ) (id : ℕ)
    → let t = (operate_all os (files, new_table)).1 in
      lookup name t.logs ≡ some id
      → (t' : Table) × (remove_file_log id t ≡ some t')
        × ((n : List ℕ) → lookup n t'.logs ≡ (if list_beq name n then none else lookup n t.logs))
remove_file_log-operate_all os files name id e =
    let t = (operate_all os (files, new_table)).1 in
    let entry = operate_all-IsValid os files new_table new_table-IsValid name id e in
    (
      record t { logs = erase entry.log.path t.logs },
      remove_file_log-some id t entry.log entry.object,
      λ n.
          lookup-erase entry.log.path n t.logs
          ∙ ap (λ p. if list_beq p n then none else lookup n t.logs) entry.named,
    )
