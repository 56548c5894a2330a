-- ===== src/InetAddress/Classes.antt =====
-- WAN, LAN and loopback addresses: network/base/InetAddress.cc, lines 74 to 107.
use wl_tmm.Prelude.{ℕ, ◌≤◌, ◌<◌, ◌≡◌, List, true, false, arith}
use wl_tmm.InetAddress.{InetAddress, quad, is_a, is_b, is_c, is_wan_ip, is_lan_ip}

module _ (inet_pton : List ℕ → ℕ) where
  -- An address that inet_pton reads as one from 172.16.0.0 to 172.31.255.255 is taken for WAN and
  -- not for LAN.
  pub is_wan_ip-private :
      (a : InetAddress) (b c d : ℕ)
      → inet_pton a.addr ≡ quad 172 b c d
      → 16 ≤ b
      → b ≤ 31
      → c < 256
      → d < 256
      → (is_wan_ip inet_pton a ≡ true) × (is_lan_ip inet_pton a ≡ false)
  unfolding is_lan_ip is_wan_ip is_a is_b is_c
  is_wan_ip-private a b c d e low high small small2 =
      (ground (arith, e, low, high, small, small2), ground (arith, e, low, high, small, small2))
