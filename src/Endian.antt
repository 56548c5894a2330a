-- ===== src/Endian.antt =====
-- network/base/MsgBuffer.h, lines 14 to 42: the conversions between host and network order, and
-- the memory image of an integer that `memcpy` and `&x` show. The host is little-endian; an
-- integer of k bytes is its bit pattern, a number below 256 ^ k.
use mathlib.Core.List.{reverse-reverse, reverse-cons}
use native.Mathlib.Nat.{pow-suc}
use wl_tmm.Prelude.{
  ℕ, zero, suc, ◌+◌, ◌*◌, ◌/◌, ◌%◌, ◌^◌, ◌<◌, ◌≡◌, refl, ap, ◌∙◌, List, [], ◌∷◌, ◌++◌, reverse,
  length, length-reverse, arith,
}

-- The bytes of an integer as they lie in memory, lowest first.
unfoldable pub bytes_le : ℕ → ℕ → List ℕ
bytes_le zero x = []
bytes_le (suc k) x = (x % 256) ∷ bytes_le k (x / 256)

unfoldable pub from_le : List ℕ → ℕ
from_le [] = 0
from_le (b ∷ bs) = b + 256 * from_le bs

-- `htobe64`, `be64toh` and the rest on a little-endian host: the bytes in reverse.
unfoldable pub byte_swap : ℕ → ℕ → ℕ
byte_swap k x = from_le (reverse (bytes_le k x))

unfoldable pub host_to_network64 : ℕ → ℕ
host_to_network64 host64 = byte_swap 8 host64

unfoldable pub host_to_network32 : ℕ → ℕ
host_to_network32 host32 = byte_swap 4 host32

unfoldable pub host_to_network16 : ℕ → ℕ
host_to_network16 host16 = byte_swap 2 host16

unfoldable pub network_to_host64 : ℕ → ℕ
network_to_host64 net64 = byte_swap 8 net64

unfoldable pub network_to_host32 : ℕ → ℕ
network_to_host32 net32 = byte_swap 4 net32

unfoldable pub network_to_host16 : ℕ → ℕ
network_to_host16 net16 = byte_swap 2 net16

-- Every item is a byte.
abbrev pub AllBytes : List ℕ → Type 0
AllBytes [] = Unit {0}
AllBytes (b ∷ bs) = (b < 256) × AllBytes bs

pub length-bytes_le : (k x : ℕ) → length (bytes_le k x) ≡ k
unfolding bytes_le
length-bytes_le zero x = refl
length-bytes_le (suc k) x = ap suc (length-bytes_le k (x / 256))

pub bytes_le-AllBytes : (k x : ℕ) → AllBytes (bytes_le k x)
unfolding bytes_le
bytes_le-AllBytes zero x = tt
bytes_le-AllBytes (suc k) x = (omega arith, bytes_le-AllBytes k (x / 256))

pub from_le-bytes_le : (k x : ℕ) → x < 256 ^ k → from_le (bytes_le k x) ≡ x
unfolding from_le bytes_le
from_le-bytes_le zero x h = omega arith
from_le-bytes_le (suc k) x h =
    let step : 256 ^ suc k ≡ 256 ^ k * 256 = pow-suc 256 k in
    omega (arith, step, from_le-bytes_le k (x / 256) (omega (arith, step)))

pub bytes_le-from_le :
    (k : ℕ) (bs : List ℕ) → length bs ≡ k → AllBytes bs → bytes_le k (from_le bs) ≡ bs
unfolding from_le bytes_le
bytes_le-from_le zero [] h a = refl
bytes_le-from_le zero (b ∷ bs) h a = absurd (omega arith)
bytes_le-from_le (suc k) [] h a = absurd (omega arith)
bytes_le-from_le (suc k) (b ∷ bs) h a =
    let low : (b + 256 * from_le bs) % 256 ≡ b = omega (arith, a.0) in
    let high : (b + 256 * from_le bs) / 256 ≡ from_le bs = omega (arith, a.0) in
    rw (low, high) (ap (◌∷◌ b) (bytes_le-from_le k bs (omega arith) a.1))

append-AllBytes : (xs ys : List ℕ) → AllBytes xs → AllBytes ys → AllBytes (xs ++ ys)
append-AllBytes [] ys a c = c
append-AllBytes (x ∷ xs) ys a c = (a.0, append-AllBytes xs ys a.1 c)

reverse-AllBytes : (xs : List ℕ) → AllBytes xs → AllBytes (reverse xs)
reverse-AllBytes [] a = tt
reverse-AllBytes (x ∷ xs) a =
    rw (reverse-cons x xs)
      (append-AllBytes (reverse xs) (x ∷ []) (reverse-AllBytes xs a.1) (a.0, tt))

-- The image in memory of a swapped integer is the image of the integer in reverse: network order.
pub bytes_le-byte_swap : (k x : ℕ) → bytes_le k (byte_swap k x) ≡ reverse (bytes_le k x)
unfolding byte_swap
bytes_le-byte_swap k x =
    bytes_le-from_le k (reverse (bytes_le k x))
      (length-reverse (bytes_le k x) ∙ length-bytes_le k x)
      (reverse-AllBytes _ (bytes_le-AllBytes k x))

-- For every width k, swapping the bytes twice gives back every integer of k bytes.
pub byte_swap-byte_swap : (k x : ℕ) → x < 256 ^ k → byte_swap k (byte_swap k x) ≡ x
unfolding byte_swap
byte_swap-byte_swap k x h =
    rw
      (
        bytes_le-from_le k (reverse (bytes_le k x))
            (length-reverse (bytes_le k x) ∙ length-bytes_le k x)
            (reverse-AllBytes _ (bytes_le-AllBytes k x)),
        reverse-reverse,
      )
      (from_le-bytes_le k x h)
