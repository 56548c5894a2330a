-- ===== src/TTime/Width.antt =====
-- How long the text of a time is: base/TTime.cc, lines 35 to 47.
use native.Mathlib.Nat.{pow-suc}
use wl_tmm.Prelude.{
  ℕ, zero, suc, ◌+◌, ◌-◌, ◌/◌, ◌%◌, ◌^◌, ◌≤◌, ◌<◌, ◌≡◌, List, [], ◌∷◌, ltb, inl, inr, Bool-cases,
  length, length-append, length-replicate, replicate, arith,
}
use wl_tmm.InetAddress.Ports.{digits, to_string}
use wl_tmm.TTime.{Tm, padded, two, joined, iso_time}

length-digits : (f k n : ℕ) → n < 10 ^ suc k → length (digits f n) ≤ suc k
unfolding digits
length-digits zero k n h = omega arith
length-digits (suc f) zero n h =
    let small : n < 10 = omega (arith, h, pow-suc 10 0) in ground (arith, small)
length-digits (suc f) (suc k) n h = elim (Bool-cases (ltb n 10)) [
  | inl small ↦ ground (arith, small)
  | inr large ↦
      let fewer : n / 10 < 10 ^ suc k = omega (arith, h, pow-suc 10 (suc k)) in
      ground (
        arith,
        large,
        length-digits f k (n / 10) fewer,
        length-append (digits f (n / 10)) ((48 + n % 10) ∷ []),
      )
]

length-padded : (fill k n : ℕ) → n < 10 ^ suc k → length (padded fill (suc k) (to_string n)) ≡ suc k
unfolding to_string
length-padded fill k n h = omega (
  arith,
  length-digits (suc n) k n h,
  length-append (replicate (suc k - length (to_string n)) fill) (to_string n),
  length-replicate (suc k - length (to_string n)) fill,
)

length-joined : (xs ys : List ℕ) (c : ℕ) → length (joined xs c ys) ≡ length xs + 1 + length ys
length-joined xs ys c = omega (arith, length-append xs (c ∷ ys))

-- A local time as localtime_r gives it, before the year 10000.
pub record IsTm (tm : Tm) : Type 0 where
  pub year : tm.tm_year < 8100
  pub mon : tm.tm_mon < 12
  pub mday : tm.tm_mday < 32
  pub hour : tm.tm_hour < 24
  pub min : tm.tm_min < 60
  pub sec : tm.tm_sec < 61

-- The text has 19 characters, which fit the buffer of 128.
pub length-iso_time : (tm : Tm) → IsTm tm → length (iso_time tm) ≡ 19
unfolding iso_time
length-iso_time tm h =
    let year : List ℕ = padded 32 4 (to_string (tm.tm_year + 1900)) in
    let m : List ℕ = joined (two tm.tm_min) 58 (two tm.tm_sec) in
    let t : List ℕ = joined (two tm.tm_hour) 58 m in
    let d : List ℕ = joined (two tm.tm_mday) 84 t in
    let mon : List ℕ = joined (two (tm.tm_mon + 1)) 45 d in
    let whole : length (joined year 45 mon) ≡ 19 = omega (
      arith,
      length-padded 32 3 (tm.tm_year + 1900) (omega (arith, h.year)),
      length-padded 48 1 (tm.tm_mon + 1) (omega (arith, h.mon)),
      length-padded 48 1 tm.tm_mday (omega (arith, h.mday)),
      length-padded 48 1 tm.tm_hour (omega (arith, h.hour)),
      length-padded 48 1 tm.tm_min (omega (arith, h.min)),
      length-padded 48 1 tm.tm_sec (omega (arith, h.sec)),
      length-joined year mon 45,
      length-joined (two (tm.tm_mon + 1)) d 45,
      length-joined (two tm.tm_mday) t 84,
      length-joined (two tm.tm_hour) m 58,
      length-joined (two tm.tm_min) (two tm.tm_sec) 58,
    ) in
    whole
