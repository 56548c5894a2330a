-- ===== src/Config/Tests.antt =====
-- Documents that are loaded with the small model of the JSON library.
use wl_tmm.Prelude.{◌≡◌, refl, none, some, [], ◌∷◌, true, arith, codes, ◌^◌}
use wl_tmm.Prelude.Int.{pos}
use wl_tmm.Prelude.Maps.{text_eq}
use wl_tmm.FileMgr.{rotate_hour_type, rotate_minute_type}
use wl_tmm.Config.{warn, Config, new_config, load_config}
use wl_tmm.Config.Documents.{Settings, document, config_of}
use wl_tmm.Config.Load.{load_config-document}
use wl_tmm.Config.Values.{Value, object_value, a_member, no_members, values, value_documents}
use wl_tmm.Config.Manager.{load_all, load_all-last}

abbrev some_settings : Settings
some_settings = record {
  name = some (codes "tmms");
  cpu_start = none;
  thread_num = some (pos 4);
  log = some (record {
    level = some warn;
    path = some (codes "/var/log/");
    name = some (codes "tmms.log");
    rotate = some rotate_hour_type;
  });
}

no_minutes : ¬ (some rotate_hour_type ≡ some rotate_minute_type)
no_minutes e = ground (arith, e)

-- As many threads as an int does not count.
abbrev large_settings : Settings
large_settings = record some_settings { thread_num = some (pos (2 ^ 40)) }

large_throws : load_config values (some (document value_documents large_settings)) new_config ≡ none
large_throws = load_config-document value_documents large_settings no_minutes

-- A document whose name is an object, and one that is none.
abbrev odd : Value
odd = object_value (a_member (codes "name") (object_value no_members) no_members)

odd_throws : load_config values (some odd) new_config ≡ none
unfolding load_config
odd_throws = refl

not_a_file : (c : Config) → ¬ (load_config values none new_config ≡ some (true, c))
unfolding load_config
not_a_file c e = ground (arith, e)

odd_fails : (c : Config) → ¬ (load_config values (some odd) new_config ≡ some (true, c))
odd_fails c e = ground (arith, odd_throws, e)

last_loaded :
    load_all values
      (none ∷ some (document value_documents some_settings) ∷ some odd ∷ none ∷ [])
      none
    ≡ some (config_of some_settings)
last_loaded =
    load_all-last values (none ∷ []) (some odd ∷ none ∷ [])
      (some (document value_documents some_settings)) none (config_of some_settings)
      (load_config-document value_documents some_settings no_minutes) (odd_fails, (not_a_file, tt))
