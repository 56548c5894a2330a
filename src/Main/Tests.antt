-- ===== src/Main/Tests.antt =====
-- The start of the program with a document that states its log.
use wl_tmm.Prelude.{none, some, codes}
use wl_tmm.FileMgr.{rotate_hour_type}
use wl_tmm.Config.{info}
use wl_tmm.Config.Documents.{Settings}

abbrev some_settings : Settings
some_settings = record {
  name = none;
  cpu_start = none;
  thread_num = none;
  log = some (record {
    level = some info;
    path = some (codes "/tmp/");
    name = some (codes "a.log");
    rotate = some rotate_hour_type;
  });
}
