-- ===== src/Config.antt =====
-- base/Config.cc and Config.h: the configuration of a program. The third-party JSON library is an
-- argument, with the document that it read from the file. An exception of the library is `none`.
pub mod Documents
pub mod Fields
pub mod Load
pub mod Manager
pub mod Values
mod Tests
use wl_tmm.Prelude.{
  ℕ, Option, none, some, List, [], Bool, true, false, if◌then◌else◌, ◌>>=◌, ◌||◌, not, codes,
}
use wl_tmm.Prelude.Int.{ℤ, pos}
use wl_tmm.Prelude.Maps.{list_beq}
use wl_tmm.FileMgr.{RotateType, rotate_none, rotate_hour_type, rotate_day_type}

-- What the code uses of `Json::Value`: `root[key]`, which throws unless `root` is an object or null,
-- `isNull`, `asString` and `asInt`, which throw for a value that does not convert, as a number beyond
-- an int.
pub record Json {ℓ} (V : Type ℓ) : Type ℓ where
  pub member : V → List ℕ → Option V
  pub is_null : V → Bool
  pub as_string : V → Option (List ℕ)
  pub as_int : V → Option ℤ

-- `LoggerLevel`.
pub data LoggerLevel : Type 0 where
  trace debug info warn error : LoggerLevel

-- `LogInfo`: the level has no initial value.
pub record LogInfo : Type 0 where
  pub level : Option LoggerLevel
  pub path : List ℕ
  pub name : List ℕ
  pub rotate_type : RotateType

-- The numbers are of type int32_t, which is what `asInt` gives.
pub record Config : Type 0 where
  pub log_info : Option LogInfo
  pub name : List ℕ
  pub cpu_start : ℤ
  pub thread_num : ℤ

abbrev pub new_log_info : LogInfo
new_log_info = record { level = none; path = []; name = []; rotate_type = rotate_none }

abbrev pub new_config : Config
new_config = record { log_info = none; name = []; cpu_start = pos 0; thread_num = pos 1 }

-- The level that a text names; another text leaves the level as it is.
unfoldable pub level_of : List ℕ → Option LoggerLevel → Option LoggerLevel
level_of text old =
    if list_beq text (codes "TRACE")
    then some trace
    else if list_beq text (codes "DEBUG")
    then some debug
    else if list_beq text (codes "ERROR")
    then some error
    else if list_beq text (codes "INFO")
    then some info
    else if list_beq text (codes "WARN")
    then some warn
    else old

unfoldable pub rotate_of : List ℕ → RotateType → RotateType
rotate_of text old =
    if list_beq text (codes "Day")
    then rotate_day_type
    else if list_beq text (codes "HOUR")
    then rotate_hour_type
    else old

-- What an assignment does to the object when a conversion gives a value.
abbrev pub assign_level : List ℕ → LogInfo → LogInfo
assign_level text i = record i { level = level_of text i.level }

abbrev pub assign_rotate : List ℕ → LogInfo → LogInfo
assign_rotate text i = record i { rotate_type = rotate_of text i.rotate_type }

module _ {ℓ} {V : Type ℓ} (json : Json V) where
  -- `if (!obj.isNull())` around an assignment of the converted value.
  abbrev pub unless_null {κ ι} :
      {A : Type κ} {S : Type ι} → (V → Option A) → (A → S → S) → V → S → Option S
  unless_null convert assign obj s =
      if json.is_null obj then some s else convert obj >>= λ a. some (assign a s)

  -- `ParseLogInfo`: the object, and what the function returns.
  unfoldable pub parse_log_info : V → Option (LogInfo × Bool)
  parse_log_info root = do
    level_obj ← json.member root (codes "level")
    i1 ← unless_null json.as_string assign_level level_obj new_log_info
    path_obj ← json.member root (codes "path")
    i2 ← unless_null json.as_string (λ t i. record i { path = t }) path_obj i1
    name_obj ← json.member root (codes "name")
    i3 ← unless_null json.as_string (λ t i. record i { name = t }) name_obj i2
    rt_obj ← json.member root (codes "rotate")
    i4 ← unless_null json.as_string assign_rotate rt_obj i3
    some (i4, not (json.is_null level_obj || json.is_null path_obj || json.is_null name_obj))

  -- `Config::LoadConfig`: `parsed` is the document, if the file holds one.
  unfoldable pub load_config : Option V → Config → Option (Bool × Config)
  load_config none c = some (false, c)
  load_config (some root) c = do
    name_obj ← json.member root (codes "name")
    c1 ← unless_null json.as_string (λ t c. record c { name = t }) name_obj c
    cups_obj ← json.member root (codes "cup_start")
    c2 ← unless_null json.as_int (λ n c. record c { cpu_start = n }) cups_obj c1
    threads_obj ← json.member root (codes "threads")
    c3 ← unless_null json.as_int (λ n c. record c { thread_num = n }) threads_obj c2
    log_obj ← json.member root (codes "log")
    c4 ← unless_null parse_log_info (λ i c. record c { log_info = some i.0 }) log_obj c3
    some (true, c4)

  -- `ConfigMgr::LoadConfig` on the manager's configuration: what it returns, and an exception is
  -- `none`.
  unfoldable pub mgr_load_config : Option V → Option Config → Option Bool × Option Config
  mgr_load_config parsed config = elim (load_config parsed new_config) [
    | none ↦ (none, config)
    | some (false, c) ↦ (some false, config)
    | some (true, c) ↦ (some true, some c)
  ]
