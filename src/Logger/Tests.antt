-- ===== src/Logger/Tests.antt =====
-- Lines of a small log.
use wl_tmm.Prelude.{ℕ, List, ◌≡◌, ◌++◌, refl, some, [], ◌∷◌, true, false, codes}
use wl_tmm.StringUtils.{find_last_of}
use wl_tmm.FileMgr.{rotate_none}
use wl_tmm.Config.{debug, info, warn}
use wl_tmm.Logger.{
  Logger, Message, Output, log_all, log_line, base_name, log_string, log, put_line, write,
  is_logged,
}
use wl_tmm.Logger.Lines.{Holds, lines, log_all-lines}

abbrev informed : Logger
informed = record { level = info; has_log = true }

abbrev statement : Message
statement = record {
  level = warn;
  file = codes "src/main/main.cc";
  line = codes "42";
  func = some (codes "main");
  time = codes "2024-09-29T10:15:34";
  thread_id = codes "7";
  text = codes "TEST LOG!";
}

abbrev output : Output
output = record {
  files = (codes "a.log", codes "old") ∷ [];
  file_log = record { fd = some (codes "a.log"); path = codes "a.log"; rotate_type = rotate_none };
  stdout = [];
}

the_line : log_line statement ≡ codes "2024-09-29T10:15:347 WARN [main.cc:42][main]TEST LOG!\n"
unfolding log_line base_name log_string find_last_of
the_line = refl

-- Without a log file a message is followed by an empty line.
twice_ended :
    (log_all (some (record informed { has_log = false })) ((statement, 0) ∷ []) output).stdout
    ≡ log_line statement ++ codes "\n"
unfolding log_all log put_line write is_logged log_line base_name log_string find_last_of
twice_ended = refl

-- Of the first line the kernel takes ten bytes; the second is not written.
abbrev statements : List (Message × ℕ)
statements = (statement, 10) ∷ (record statement { level = debug }, 50) ∷ []

log_all-lines_example :
    Holds (codes "a.log") (lines info statements) output (log_all (some informed) statements output)
log_all-lines_example = log_all-lines informed statements (codes "a.log") output refl refl
