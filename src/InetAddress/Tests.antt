-- ===== src/InetAddress/Tests.antt =====
-- Addresses for the theorems about network/base/InetAddress.cc.
use wl_tmm.Prelude.{ℕ, ◌≡◌, refl, some, codes, List, [], ◌∷◌, true, arith}
use wl_tmm.InetAddress.{InetAddress, quad}
use wl_tmm.InetAddress.Ports.{
  set_port, port_of, atoi, read_signed, read_digits, skip_spaces, port_of-set_port,
}

-- 1.2:80, for short.
abbrev some_host : InetAddress
some_host = record { addr = 49 ∷ 46 ∷ 50 ∷ []; port = 56 ∷ 48 ∷ []; is_ipv6 = true }

-- Reads every text as 172.20.1.1.
abbrev private_only : List ℕ → ℕ
private_only text = quad 172 20 1 1

port_set : port_of (set_port some_host 34444) ≡ some 34444
port_set = port_of-set_port some_host 34444 (omega arith)

-- A port that is too large for 16 bits is reduced, and what follows the digits is left out.
reduced : port_of (record some_host { port = codes " 70000/x" }) ≡ some 4464
unfolding port_of atoi read_signed read_digits skip_spaces
reduced = refl
