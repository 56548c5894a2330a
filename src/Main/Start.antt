-- ===== src/Main/Start.antt =====
-- From a document to a logger: main/main.cc, lines 14 to 33, on top of base/Config.cc and
-- base/FileMgr.cc.
use wl_tmm.Prelude.{ℕ, Option, none, some, List, [], ◌∷◌, ◌++◌, Bool, true, if◌then◌else◌}
use wl_tmm.Prelude.Maps.{text_eq}
use wl_tmm.FileMgr.{Files, RotateType, rotate_none, opened}
use wl_tmm.Config.{LoggerLevel}
use wl_tmm.Config.Documents.{Documents, LogSettings, or_else}
use wl_tmm.Main.{Started, undefined, no_log, ready}

-- The program with a log at a path.
abbrev pub with_log : List ℕ → RotateType → LoggerLevel → Files → Started
with_log path rotate level files =
    ready 0 (record { level = level; has_log = true })
      (
        opened files path,
        record {
          logs = (path, 0) ∷ [];
          objects = record { fd = some path; path = path; rotate_type = rotate } ∷ [];
        },
      )

-- The start with what a document states of the log.
unfoldable pub expected : Option LogSettings → Bool → Files → Started
expected none open_ok files = undefined
expected (some s) open_ok files = elim s.level [
  | none ↦ undefined
  | some level ↦
      if open_ok
      then with_log (or_else s.path [] ++ or_else s.name []) (or_else s.rotate rotate_none) level
          files
      else no_log
]
