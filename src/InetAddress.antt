-- ===== src/InetAddress.antt =====
-- network/base/InetAddress.cc: a host with a port. A string is a list of characters' codes;
-- inet_pton is an argument, the address in host order, 0 for a text that is none.
pub mod Classes
pub mod HostPort
pub mod Ports
mod Tests
use wl_tmm.Prelude.{
  ℕ, zero, suc, ◌+◌, ◌*◌, ◌^◌, Option, none, some, List, [], ◌∷◌, ◌++◌, Bool, true, false, ◌&&◌,
  ◌||◌, not, leb, ◌==◌, if◌then◌else◌, take, drop,
}
use wl_tmm.Prelude.Maps.{list_beq}

pub record InetAddress : Type 0 where
  pub addr : List ℕ
  pub port : List ℕ
  pub is_ipv6 : Bool

abbrev pub colon : ℕ
colon = 58

-- `find_first_of(':', 0)`.
unfoldable pub find_colon : List ℕ → Option ℕ
find_colon [] = none
find_colon (c ∷ s) = elim (c == colon) [
  | true ↦ some 0
  | false ↦ elim (find_colon s) [ none ↦ none | some i ↦ some (suc i) ]
]

-- `GetIpAndPort`: the port keeps its old value when there is none.
unfoldable pub get_ip_and_port : List ℕ → List ℕ → List ℕ × List ℕ
get_ip_and_port host port = elim (find_colon host) [
  | some pos ↦ (take pos host, drop (pos + 1) host)
  | none ↦ (host, port)
]

-- The constructor from a host: `bv6` is not used.
unfoldable pub from_host : List ℕ → Bool → InetAddress
from_host host bv6 =
    let (ip, port) = get_ip_and_port host [] in record { addr = ip; port = port; is_ipv6 = false }

unfoldable pub set_host : InetAddress → List ℕ → InetAddress
set_host a host =
    let (ip, port) = get_ip_and_port host a.port in record a { addr = ip; port = port }

unfoldable pub set_addr : InetAddress → List ℕ → InetAddress
set_addr a addr = record a { addr = addr }

unfoldable pub set_is_ipv6 : InetAddress → Bool → InetAddress
set_is_ipv6 a is_v6 = record a { is_ipv6 = is_v6 }

unfoldable pub to_ip_port : InetAddress → List ℕ
to_ip_port a = a.addr ++ colon ∷ a.port

-- The address of four numbers, in host order.
abbrev pub quad : ℕ → ℕ → ℕ → ℕ → ℕ
quad a b c d = a * 2 ^ 24 + b * 2 ^ 16 + c * 2 ^ 8 + d

abbrev pub inaddr_loopback : ℕ
inaddr_loopback = quad 127 0 0 1

abbrev pub within : ℕ → ℕ → ℕ → Bool
within ip start end = leb start ip && leb ip end

-- The three blocks that the code tests. The texts are dotted quads, which inet_pton reads.
unfoldable pub is_a : ℕ → Bool
is_a ip = within ip (quad 10 0 0 0) (quad 10 255 255 255)

unfoldable pub is_b : ℕ → Bool
is_b ip = within ip (quad 17 16 0 0) (quad 17 31 255 255)

unfoldable pub is_c : ℕ → Bool
is_c ip = within ip (quad 192 168 0 0) (quad 192 168 255 255)

module _ (inet_pton : List ℕ → ℕ) where
  unfoldable pub is_wan_ip : InetAddress → Bool
  is_wan_ip a =
      let ip = inet_pton a.addr in
      not (is_a ip) && not (is_b ip) && not (is_c ip) && not (ip == inaddr_loopback)

  unfoldable pub is_lan_ip : InetAddress → Bool
  is_lan_ip a = let ip = inet_pton a.addr in is_a ip || is_b ip || is_c ip

-- `addr_ == "127.0.0.1"`.
unfoldable pub is_loopback_ip : InetAddress → Bool
is_loopback_ip a = list_beq a.addr (49 ∷ 50 ∷ 55 ∷ 46 ∷ 48 ∷ 46 ∷ 48 ∷ 46 ∷ 49 ∷ [])
