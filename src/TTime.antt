-- ===== src/TTime.antt =====
-- base/TTime.cc: the clock. What gettimeofday and localtime_r give is an argument. A string is a list
-- of characters' codes.
pub mod Stopped
pub mod Width
mod Tests
use wl_tmm.Prelude.{
  ℕ, ◌+◌, ◌-◌, ◌*◌, ◌/◌, ◌%◌, ◌^◌, List, [], ◌∷◌, ◌++◌, ltb, if◌then◌else◌, length, replicate,
}
use wl_tmm.Prelude.Int.{ℤ, pos, negsuc}
use wl_tmm.InetAddress.Ports.{to_string}

-- `struct timeval`, behind 1970.
pub record Timeval : Type 0 where
  pub tv_sec : ℕ
  pub tv_usec : ℕ

-- `struct tm`, behind 1900.
pub record Tm : Type 0 where
  pub tm_year : ℕ
  pub tm_mon : ℕ
  pub tm_mday : ℕ
  pub tm_hour : ℕ
  pub tm_min : ℕ
  pub tm_sec : ℕ

-- The conversion of a time to int16_t.
abbrev pub to_int16 : ℕ → ℤ
to_int16 n =
    if ltb (n % 2 ^ 16) (2 ^ 15) then pos (n % 2 ^ 16) else negsuc (2 ^ 16 - 1 - n % 2 ^ 16)

-- `NowMs` and `Now`.
unfoldable pub now_ms : Timeval → ℤ
now_ms tv = to_int16 (tv.tv_sec * 1000 + tv.tv_usec / 1000)

unfoldable pub now : Timeval → ℤ
now tv = to_int16 tv.tv_sec

-- `Now` with the parts of the local time `tm` of `t`.
pub record Parts : Type 0 where
  pub year : ℕ
  pub month : ℕ
  pub day : ℕ
  pub hour : ℕ
  pub minute : ℕ
  pub second : ℕ

unfoldable pub now_parts : ℕ → Tm → Parts × ℤ
now_parts t tm = (
  record {
    year = tm.tm_year + 1900;
    month = tm.tm_mon + 1;
    day = tm.tm_mday;
    hour = tm.tm_hour;
    minute = tm.tm_min;
    second = tm.tm_sec;
  },
  to_int16 t,
)

-- `%4d` and `%02d`.
abbrev pub padded : ℕ → ℕ → List ℕ → List ℕ
padded fill width text = replicate (width - length text) fill ++ text

abbrev pub two : ℕ → List ℕ
two n = padded 48 2 (to_string n)

-- Two texts with a character between them.
abbrev pub joined : List ℕ → ℕ → List ℕ → List ℕ
joined front c back = front ++ (c ∷ back)

-- `ISOTime`.
unfoldable pub iso_time : Tm → List ℕ
iso_time tm = joined (padded 32 4 (to_string (tm.tm_year + 1900))) 45 (
    joined (two (tm.tm_mon + 1)) 45 (
      joined (two tm.tm_mday) 84
        (joined (two tm.tm_hour) 58 (joined (two tm.tm_min) 58 (two tm.tm_sec)))))
