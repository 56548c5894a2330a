-- ===== src/Logger.antt =====
-- base/Logger.cc, LogStream.cc and LogStream.h: which messages are written, their form, and where they
-- go. A string is a list of characters' codes; the time, the thread's number and a line number are the texts that are printed.
pub mod Lines
mod Tests
use wl_tmm.Prelude.{
  ℕ, ◌+◌, Option, none, some, List, [], ◌∷◌, ◌++◌, Bool, true, false, leb, drop, take, ◌==◌, codes,
  if◌then◌else◌,
}
use wl_tmm.StringUtils.{find_last_of}
use wl_tmm.FileMgr.{Files, FileLog, write_log}
use wl_tmm.Config.{LoggerLevel, trace, debug, info, warn, error}

-- A logger: its level, and whether it has a log file or writes to the standard output.
pub record Logger : Type 0 where
  pub level : LoggerLevel
  pub has_log : Bool

-- `Logger(log)`: the level is kDebug.
unfoldable pub new_logger : Bool → Logger
new_logger has_log = record { level = debug; has_log = has_log }

unfoldable pub set_logger_level : LoggerLevel → Logger → Logger
set_logger_level level lg = record lg { level = level }

-- The values of the enumeration.
abbrev pub level_number : LoggerLevel → ℕ
level_number trace = 0
level_number debug = 1
level_number info = 2
level_number warn = 3
level_number error = 4

-- `log_string`.
unfoldable pub log_string : LoggerLevel → List ℕ
log_string trace = codes " TRACE "
log_string debug = codes " DEBUG "
log_string info = codes " INFO "
log_string warn = codes " WARN "
log_string error = codes " ERROR "

-- What a statement of the macros prints: the function's name, where it has one, and the text.
pub record Message : Type 0 where
  pub level : LoggerLevel
  pub file : List ℕ
  pub line : List ℕ
  pub func : Option (List ℕ)
  pub time : List ℕ
  pub thread_id : List ℕ
  pub text : List ℕ

abbrev pub slash : ℕ
slash = 47

abbrev pub newline : ℕ
newline = 10

-- strrchr(file, '/') and the character behind it.
unfoldable pub base_name : List ℕ → List ℕ
base_name file = elim (find_last_of (λ c. c == slash) file) [
  | some pos ↦ drop (pos + 1) file
  | none ↦ file
]

abbrev pub bracketed : List ℕ → List ℕ
bracketed text = codes "[" ++ (text ++ codes "]")

-- The constructor of LogStream, what the statement adds, and the line's end from its destructor.
unfoldable pub log_line : Message → List ℕ
log_line m =
    m.time
    ++ (m.thread_id
        ++ (log_string m.level
            ++ (bracketed (base_name m.file ++ (codes ":" ++ m.line))
                ++ (elim m.func [ none ↦ [] | some func ↦ bracketed func ]
                    ++ (m.text ++ newline ∷ [])))))

-- The tests of the macros: LOG_WARN and LOG_ERROR have none.
unfoldable pub is_logged : Option Logger → LoggerLevel → Bool
is_logged g_logger warn = true
is_logged g_logger error = true
is_logged none level = false
is_logged (some lg) level = leb (level_number lg.level) (level_number level)

-- The files, the log file's object and the standard output.
pub record Output : Type 0 where
  pub files : Files
  pub file_log : FileLog
  pub stdout : List ℕ

-- `FileLog::WriteLog`: without a descriptor, the message goes to the standard output; `n` is how many
-- bytes write(2) takes.
unfoldable pub write_file : ℕ → List ℕ → Output → Output
write_file n text o =
    let (files, f) = write_log n text (o.files, o.file_log) in
    record {
      files = files;
      file_log = f;
      stdout = elim o.file_log.fd [ none ↦ o.stdout ++ take n text | some name ↦ o.stdout ];
    }

-- `Logger::Write`: without a log, another line end is printed.
unfoldable pub write : Logger → ℕ → List ℕ → Output → Output
write lg n text o =
    if lg.has_log
    then write_file n text o
    else record o { stdout = o.stdout ++ (text ++ newline ∷ []) }

-- The destructor of LogStream.
unfoldable pub put_line : Option Logger → ℕ → List ℕ → Output → Output
put_line none n text o = record o { stdout = o.stdout ++ text }
put_line (some lg) n text o = write lg n text o

-- A statement of the macros.
unfoldable pub log : Option Logger → Message × ℕ → Output → Output
log g_logger (m, n) o = if is_logged g_logger m.level then put_line g_logger n (log_line m) o else o

unfoldable pub log_all : Option Logger → List (Message × ℕ) → Output → Output
log_all g_logger [] o = o
log_all g_logger (m ∷ ms) o = log_all g_logger ms (log g_logger m o)
