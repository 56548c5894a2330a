-- ===== src/Main.antt =====
-- main/main.cc, lines 11 to 33: a program that loads its configuration, opens its log and makes its
-- logger. Whether the log file opens is an argument.
pub mod Start
mod Tests
use wl_tmm.Prelude.{ℕ, Option, none, some, List, [], ◌++◌, Bool, true, false}
use wl_tmm.FileMgr.{Files}
use wl_tmm.FileMgr.Table.{Table, new_table, get_file_log, set_rotate}
use wl_tmm.Config.{Json, LogInfo, Config, mgr_load_config}
use wl_tmm.Logger.{Logger, new_logger, set_logger_level}

-- How the start ends: by an exception, with -1 for want of a configuration or of a log, in undefined
-- behaviour, or with a log, the logger, the files and the table of logs.
pub data Started : Type 0 where
  exception no_config undefined no_log : Started
  ready : ℕ → Logger → Files × Table → Started

-- Lines 21 to 33, for a log_info: its level is printed, and must have a value.
unfoldable pub start_log : Bool → Files → LogInfo → Started
start_log open_ok files i = elim i.level [
  | none ↦ undefined
  | some level ↦
      let (log, files', t) = get_file_log open_ok (i.path ++ i.name) (files, new_table) in
      elim log [
        | none ↦ no_log
        | some id ↦
            ready id (set_logger_level level (new_logger true))
              (files', set_rotate i.rotate_type id t)
      ]
]

-- Lines 19 to 33; `log_info` is dereferenced whether or not it is null.
unfoldable pub start_config : Bool → Files → Config → Started
start_config open_ok files c = elim c.log_info [
  | none ↦ undefined
  | some i ↦ start_log open_ok files i
]

-- Lines 14 to 33, with what LoadConfig returns and leaves in the manager.
unfoldable pub start_loaded : Bool → Files → Option Bool × Option Config → Started
start_loaded open_ok files (ok, config) = elim ok [
  | none ↦ exception
  | some false ↦ no_config
  | some true ↦ elim config [ none ↦ undefined | some c ↦ start_config open_ok files c ]
]

-- The configuration is that of a new ConfigMgr.
unfoldable pub start {ℓ} : {V : Type ℓ} → Json V → Option V → Bool → Files → Started
start json parsed open_ok files = start_loaded open_ok files (mgr_load_config json parsed none)
