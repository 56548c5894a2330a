-- ===== src/InetAddress/Ports.antt =====
-- Ports as numbers and as texts: network/base/InetAddress.cc, lines 6, 20 to 23 and 43 to 46.
-- std::to_string prints decimal digits; std::atoi skips white space and reads a sign and digits, up to
-- another character, and its behaviour is undefined (`none`) beyond an int.
use mathlib.Core.Option
use mathlib.Core.Path.{subst}
use wl_tmm.Prelude.{
  ℕ, zero, suc, ◌+◌, ◌-◌, ◌*◌, ◌/◌, ◌%◌, ◌^◌, ◌<◌, ◌≤◌, ◌≡◌, sym, ap, ◌∙◌, Option, none, some, List,
  [], ◌∷◌, ◌++◌, Bool, true, false, ◌&&◌, ◌||◌, leb, ltb, ◌==◌, arith, if◌then◌else◌, inl, inr,
  Bool-cases, lt→ltb,
}
use wl_tmm.Prelude.Int.{ℤ, pos, negsuc}
use wl_tmm.InetAddress.{InetAddress}

abbrev pub digit : ℕ → ℕ
digit d = 48 + d

-- The digits of a number; the fuel is at least their count.
unfoldable pub digits : ℕ → ℕ → List ℕ
digits zero n = []
digits (suc f) n = elim (ltb n 10) [
  | true ↦ digit n ∷ []
  | false ↦ digits f (n / 10) ++ digit (n % 10) ∷ []
]

unfoldable pub to_string : ℕ → List ℕ
to_string n = digits (suc n) n

abbrev pub is_digit : ℕ → Bool
is_digit c = leb 48 c && leb c 57

abbrev pub is_space : ℕ → Bool
is_space c = c == 32 || leb 9 c && leb c 13

unfoldable pub skip_spaces : List ℕ → List ℕ
skip_spaces [] = []
skip_spaces (c ∷ s) = if is_space c then skip_spaces s else c ∷ s

unfoldable pub read_digits : ℕ → List ℕ → ℕ
read_digits n [] = n
read_digits n (c ∷ s) = if is_digit c then read_digits (n * 10 + (c - 48)) s else n

abbrev pub negative : ℕ → ℤ
negative zero = pos 0
negative (suc n) = negsuc n

unfoldable pub read_signed : List ℕ → Option ℤ
read_signed [] = some (pos 0)
read_signed (c ∷ s) =
    if c == 45
    then if leb (read_digits 0 s) (2 ^ 31) then some (negative (read_digits 0 s)) else none
    else let n = if c == 43 then read_digits 0 s else read_digits 0 (c ∷ s) in
      if ltb n (2 ^ 31) then some (pos n) else none

unfoldable pub atoi : List ℕ → Option ℤ
atoi s = read_signed (skip_spaces s)

-- The conversion of an int to uint16_t.
abbrev pub to_uint16 : ℤ → ℕ
to_uint16 (pos n) = n % 2 ^ 16
to_uint16 (negsuc n) = 2 ^ 16 - 1 - n % 2 ^ 16

-- The constructor from an address and a port, `SetPort` and `Port`.
unfoldable pub from_ip_port : List ℕ → ℕ → Bool → InetAddress
from_ip_port ip port bv6 = record { addr = ip; port = to_string port; is_ipv6 = bv6 }

unfoldable pub set_port : InetAddress → ℕ → InetAddress
set_port a port = record a { port = to_string port }

unfoldable pub port_of : InetAddress → Option ℕ
port_of a = Option.map to_uint16 (atoi a.port)

abbrev AllDigits : List ℕ → Type 0
AllDigits [] = Unit
AllDigits (c ∷ s) = (is_digit c ≡ true) × AllDigits s

read_digits-append :
    (s : List ℕ) (n d : ℕ)
    → AllDigits s
    → d < 10
    → read_digits n (s ++ digit d ∷ []) ≡ read_digits n s * 10 + d
unfolding read_digits
read_digits-append [] n d all small = ground arith
read_digits-append (c ∷ s) n d (first, all) small =
    rw first (read_digits-append s (n * 10 + (c - 48)) d all small)

append-AllDigits : (s : List ℕ) (d : ℕ) → AllDigits s → d < 10 → AllDigits (s ++ digit d ∷ [])
append-AllDigits [] d all small = (ground arith, tt)
append-AllDigits (c ∷ s) d (first, all) small = (first, append-AllDigits s d all small)

digits-suc_small : (f n : ℕ) → ltb n 10 ≡ true → digits (suc f) n ≡ digit n ∷ []
unfolding digits
digits-suc_small f n small = rw (small, digits)

digits-suc_large :
    (f n : ℕ) → ltb n 10 ≡ false → digits (suc f) n ≡ digits f (n / 10) ++ digit (n % 10) ∷ []
unfolding digits
digits-suc_large f n large = rw (large, digits)

digits-AllDigits : (f n : ℕ) → AllDigits (digits f n)
unfolding digits
digits-AllDigits zero n = tt
digits-AllDigits (suc f) n = elim (Bool-cases (ltb n 10)) [
  | inl small ↦ subst AllDigits (sym (digits-suc_small f n small)) (ground (arith, small), tt)
  | inr large ↦
      subst AllDigits (sym (digits-suc_large f n large))
        (append-AllDigits (digits f (n / 10)) (n % 10) (digits-AllDigits f (n / 10)) (omega arith))
]

read_digits-digits : (f n : ℕ) → n < f → read_digits 0 (digits f n) ≡ n
unfolding read_digits
read_digits-digits zero n h = absurd (omega arith)
read_digits-digits (suc f) n h = elim (Bool-cases (ltb n 10)) [
  | inl small ↦ ap (read_digits 0) (digits-suc_small f n small) ∙ ground (arith, small)
  | inr large ↦
      let ten : 10 ≤ n = ground (arith, large) in
      ap (read_digits 0) (digits-suc_large f n large)
      ∙ read_digits-append (digits f (n / 10)) 0 (n % 10) (digits-AllDigits f (n / 10))
          (omega arith)
      ∙ ap (λ k. k * 10 + n % 10) (read_digits-digits f (n / 10) (omega (arith, h, ten)))
      ∙ omega arith
]

-- A text that starts with a digit is read as its digits.
read_signed-AllDigits :
    (c : ℕ) (s : List ℕ)
    → is_digit c ≡ true
    → read_digits 0 (c ∷ s) < 2 ^ 31
    → atoi (c ∷ s) ≡ some (pos (read_digits 0 (c ∷ s)))
unfolding atoi skip_spaces read_signed
read_signed-AllDigits c s first small = ground (arith, first, lt→ltb _ _ small)

atoi-AllDigits :
    (s : List ℕ) (n : ℕ) → AllDigits s → read_digits 0 s ≡ n → n < 2 ^ 31 → atoi s ≡ some (pos n)
unfolding atoi skip_spaces read_signed read_digits
atoi-AllDigits [] n all e small = ap (λ k. some (pos k)) e
atoi-AllDigits (c ∷ s) n (first, all) e small =
    read_signed-AllDigits c s first (omega (arith, e, small)) ∙ ap (λ k. some (pos k)) e

-- A port below 2^16 that is set is the port that is read.
pub port_of-set_port :
    (a : InetAddress) (port : ℕ) → port < 2 ^ 16 → port_of (set_port a port) ≡ some port
unfolding port_of set_port to_string
port_of-set_port a port small =
    ap (Option.map to_uint16) (
      atoi-AllDigits (digits (suc port) port) port (digits-AllDigits (suc port) port)
        (read_digits-digits (suc port) port (omega arith)) (omega (arith, small)))
    ∙ ap some (omega (arith, small))
