-- ===== src/Config/Documents.antt =====
-- Documents that state a configuration: what base/Config.cc reads, lines 6 to 101.
use wl_tmm.Prelude.{
  ℕ, ◌≡◌, Option, none, some, List, [], ◌∷◌, Bool, true, false, codes, ◌&&◌, ◌^◌, ltb,
  if◌then◌else◌,
}
use wl_tmm.Prelude.Int.{ℤ, pos, negsuc}
use wl_tmm.Prelude.Maps.{text_eq, lookup}
use wl_tmm.FileMgr.{RotateType, rotate_none, rotate_minute_type, rotate_hour_type, rotate_day_type}
use wl_tmm.Config.{Json, LoggerLevel, trace, debug, info, warn, error, LogInfo, Config}

-- What a document may state of the log and of the program.
pub record LogSettings : Type 0 where
  pub level : Option LoggerLevel
  pub path : Option (List ℕ)
  pub name : Option (List ℕ)
  pub rotate : Option RotateType

pub record Settings : Type 0 where
  pub name : Option (List ℕ)
  pub cpu_start : Option ℤ
  pub thread_num : Option ℤ
  pub log : Option LogSettings

-- The configuration for the settings, with the values that the members have before.
abbrev pub or_else {ℓ} : {A : Type ℓ} → Option A → A → A
or_else none a = a
or_else (some b) a = b

abbrev pub log_of : LogSettings → LogInfo
log_of s = record {
  level = s.level;
  path = or_else s.path [];
  name = or_else s.name [];
  rotate_type = or_else s.rotate rotate_none;
}

abbrev pub config_of : Settings → Config
config_of s = record {
  log_info = elim s.log [ none ↦ none | some i ↦ some (log_of i) ];
  name = or_else s.name [];
  cpu_start = or_else s.cpu_start (pos 0);
  thread_num = or_else s.thread_num (pos 1);
}

abbrev pub level_text : LoggerLevel → List ℕ
level_text trace = codes "TRACE"
level_text debug = codes "DEBUG"
level_text info = codes "INFO"
level_text warn = codes "WARN"
level_text error = codes "ERROR"

abbrev pub rotate_text : RotateType → List ℕ
rotate_text rotate_none = codes "NONE"
rotate_text rotate_minute_type = codes "MINUTE"
rotate_text rotate_hour_type = codes "HOUR"
rotate_text rotate_day_type = codes "Day"

-- The settings whose log is not to be rotated by the minute.
abbrev pub NoMinutes : Option LogSettings → Type 0
NoMinutes none = Unit
NoMinutes (some s) = ¬ (s.rotate ≡ some rotate_minute_type)

-- The integers of an int32_t.
abbrev pub is_int : ℤ → Bool
is_int (pos n) = ltb n (2 ^ 31)
is_int (negsuc n) = ltb n (2 ^ 31)

-- The numbers that are stated fit.
abbrev pub fits : Option ℤ → Bool
fits none = true
fits (some n) = is_int n

abbrev pub all_fit : Settings → Bool
all_fit s = fits s.cpu_start && fits s.thread_num

-- Documents of the library: `asInt` throws for a number beyond an int, and a member of an object is
-- its value, or null when there is none.
pub record Documents {ℓ} (V : Type ℓ) (json : Json V) : Type ℓ where
  pub null : V
  pub text : List ℕ → V
  pub number : ℤ → V
  pub object : List (List ℕ × V) → V
  pub is_null-null : json.is_null null ≡ true
  pub is_null-text : (t : List ℕ) → json.is_null (text t) ≡ false
  pub is_null-number : (n : ℤ) → json.is_null (number n) ≡ false
  pub is_null-object : (ms : List (List ℕ × V)) → json.is_null (object ms) ≡ false
  pub as_string-text : (t : List ℕ) → json.as_string (text t) ≡ some t
  pub as_int-number : (n : ℤ) → json.as_int (number n) ≡ (if is_int n then some n else none)
  pub member-object :
      (ms : List (List ℕ × V)) (k : List ℕ)
      → json.member (object ms) k ≡ some (elim (lookup k ms) [ none ↦ null | some v ↦ v ])

module _ {ℓ} {V : Type ℓ} {json : Json V} (d : Documents V json) where
  abbrev pub or_null {κ} : {A : Type κ} → (A → V) → Option A → V
  or_null f none = d.null
  or_null f (some a) = f a

  abbrev pub log_members : LogSettings → List (List ℕ × V)
  log_members s =
      (codes "level", or_null (λ l. d.text (level_text l)) s.level)
      ∷ (codes "path", or_null d.text s.path)
      ∷ (codes "name", or_null d.text s.name)
      ∷ (codes "rotate", or_null (λ r. d.text (rotate_text r)) s.rotate)
      ∷ []

  abbrev pub log_document : LogSettings → V
  log_document s = d.object (log_members s)

  abbrev pub members : Settings → List (List ℕ × V)
  members s =
      (codes "name", or_null d.text s.name)
      ∷ (codes "cup_start", or_null d.number s.cpu_start)
      ∷ (codes "threads", or_null d.number s.thread_num)
      ∷ (codes "log", or_null log_document s.log)
      ∷ []

  abbrev pub document : Settings → V
  document s = d.object (members s)
