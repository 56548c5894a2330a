-- ===== src/FileMgr.antt =====
-- base/FileLog.cc and base/FileMgr.cc: log files and their rotation. The file system is a map from
-- names to contents, and an open descriptor is the name under which its file stands now. Whether
-- rename and open succeed, and the time, are arguments.
pub mod Rotate
pub mod Table
mod Tests
use wl_tmm.Prelude.{
  ℕ, ◌+◌, Option, none, some, List, [], ◌∷◌, ◌++◌, Bool, true, false, not, ◌==◌, ◌&&◌, ◌||◌, ltb,
  length, take, if◌then◌else◌,
}
use wl_tmm.Prelude.Int.{ℤ, negsuc}
use wl_tmm.Prelude.Maps.{Eq, text_eq, list_beq, int_beq, lookup, insert, erase}
use wl_tmm.StringUtils.{file_path, file_name, extension}

-- `RotateType`.
pub data RotateType : Type 0 where
  rotate_none rotate_minute_type rotate_hour_type rotate_day_type : RotateType

abbrev pub Files : Type 0
Files = List (List ℕ × List ℕ)

pub record FileLog : Type 0 where
  pub fd : Option (List ℕ)
  pub path : List ℕ
  pub rotate_type : RotateType

abbrev pub contents_of : Files → List ℕ → List ℕ
contents_of files name = elim (lookup name files) [ none ↦ [] | some text ↦ text ]

-- open(2) with O_CREAT and O_APPEND, when it succeeds.
abbrev pub opened : Files → List ℕ → Files
opened files name = insert name (contents_of files name) files

unfoldable pub open_log : Bool → List ℕ → Files × FileLog → Bool × Files × FileLog
open_log ok name (files, f) =
    if ok
    then (true, opened files name, record f { path = name; fd = some name })
    else (false, files, record f { path = name })

-- `WriteLog`; without a descriptor the message goes to the standard output. `n` is how many bytes
-- write(2) takes, 0 when it fails; the rest is lost.
unfoldable pub write_log : ℕ → List ℕ → Files × FileLog → Files × FileLog
write_log n msg (files, f) = elim f.fd [
  | none ↦ (files, f)
  | some name ↦ (insert name (contents_of files name ++ take n msg) files, f)
]

-- `FileSize`: lseek fails without a descriptor, and gives -1, which is not positive either.
unfoldable pub file_size : Files × FileLog → ℕ
file_size (files, f) = elim f.fd [ none ↦ 0 | some name ↦ length (contents_of files name) ]

-- The descriptor of a file that is renamed goes along.
abbrev pub follow : List ℕ → List ℕ → Option (List ℕ) → Option (List ℕ)
follow old new none = none
follow old new (some name) = if list_beq name old then some new else some name

abbrev pub moved : List ℕ → List ℕ → List ℕ → Files → Files
moved old new text files = if list_beq old new then files else insert new text (erase old files)

-- `Rotate`: the file gets the name `file`, and a new one stands at its path.
unfoldable pub rotate : Bool → Bool → List ℕ → Files × FileLog → Files × FileLog
rotate rename_ok open_ok file (files, f) = elim f.path [
  | [] ↦ (files, f)
  | c ∷ cs ↦ elim (lookup (c ∷ cs) files) [
    | none ↦ (files, f)
    | some text ↦
        if not rename_ok
        then (files, f)
        else if open_ok
        then (opened (moved (c ∷ cs) file text files) (c ∷ cs), record f { fd = some (c ∷ cs) })
        else (moved (c ∷ cs) file text files, record f { fd = follow (c ∷ cs) file f.fd })
  ]
]

-- The new name in RotateDays, RotateHours and RotateMinute: directory, name and extension, without
-- the date that the functions print to `buf`, and without a separator.
unfoldable pub rotated_name : (buf path : List ℕ) → List ℕ
rotated_name buf path = file_path path ++ (file_name path ++ extension path)

-- RotateDays, RotateHours and RotateMinute, which differ in `buf` only.
unfoldable pub rotate_file : Bool → Bool → (buf : List ℕ) → Files × FileLog → Files × FileLog
rotate_file rename_ok open_ok buf (files, f) =
    if ltb 0 (file_size (files, f))
    then rotate rename_ok open_ok (rotated_name buf f.path) (files, f)
    else (files, f)

-- The times of the last check; the day is -1 before the first.
pub record FileMgr : Type 0 where
  pub last_day : ℤ
  pub last_hour : ℤ
  pub last_minute : ℤ

-- What a check at a time rotates: the files of a type whose unit has changed.
unfoldable pub rotates : FileMgr → (day hour minute : ℤ) → RotateType → Bool
rotates m day hour minute rotate_none = false
rotates m day hour minute rotate_minute_type = not (int_beq m.last_minute minute)
rotates m day hour minute rotate_hour_type = not (int_beq m.last_hour hour)
rotates m day hour minute rotate_day_type = not (int_beq m.last_day day)

module _ (rename_ok open_ok : Bool) (buf : RotateType → List ℕ) where
  unfoldable pub rotate_logs :
      FileMgr → (day hour minute : ℤ) → List FileLog → Files → List FileLog × Files
  rotate_logs m day hour minute [] files = ([], files)
  rotate_logs m day hour minute (f ∷ fs) files =
      let (files', f') =
        if rotates m day hour minute f.rotate_type
        then rotate_file rename_ok open_ok (buf f.rotate_type) (files, f)
        else (files, f) in
      let (rest, last) = rotate_logs m day hour minute fs files' in (f' ∷ rest, last)

  -- `OnCheck`: the first check only takes the time.
  unfoldable pub on_check :
      (day hour minute : ℤ) → FileMgr → List FileLog → Files → FileMgr × List FileLog × Files
  on_check day hour minute m logs files =
      let now : FileMgr = record { last_day = day; last_hour = hour; last_minute = minute } in
      let m' = if int_beq m.last_day (negsuc 0) then now else m in
      let (logs', files') = rotate_logs m' day hour minute logs files in (now, logs', files')
