-- ===== src/InetAddress/HostPort.antt =====
-- Hosts as texts: network/base/InetAddress.cc, lines 7 to 15, 37 to 42 and 122 to 134.
use wl_tmm.Prelude.{
  ℕ, ◌+◌, ◌≡◌, refl, sym, ap, ◌∙◌, some, List, [], ◌∷◌, ◌++◌, false, ◌==◌, length, length-append,
  drop, take-append_eq, drop-append_eq, append_assoc, arith,
}
use wl_tmm.InetAddress.{
  InetAddress, colon, find_colon, get_ip_and_port, from_host, set_host, to_ip_port,
}

-- A text without a colon.
abbrev pub NoColon : List ℕ → Type 0
NoColon [] = Unit {0}
NoColon (c ∷ s) = ((c == colon) ≡ false) × NoColon s

find_colon-append : (s t : List ℕ) → NoColon s → find_colon (s ++ colon ∷ t) ≡ some (length s)
unfolding find_colon
find_colon-append [] t none_there = refl
find_colon-append (c ∷ s) t (here, rest) = ground (arith, here, find_colon-append s t rest)

-- An address without a colon and its port are read back from ToIpPort by SetHost and by the
-- constructor, which leaves the flag of IPv6 unset.
pub set_host-to_ip_port :
    (a b : InetAddress)
    → NoColon a.addr
    → (set_host b (to_ip_port a) ≡ record b { addr = a.addr; port = a.port })
      × (from_host (to_ip_port a) a.is_ipv6 ≡ record a { is_ipv6 = false })
unfolding set_host from_host to_ip_port get_ip_and_port
set_host-to_ip_port a b plain =
    let found = find_colon-append a.addr a.port plain in
    let front = take-append_eq (length a.addr) a.addr (colon ∷ a.port) refl in
    let back : drop (length a.addr + 1) (a.addr ++ colon ∷ a.port) ≡ a.port =
      ap (drop (length a.addr + 1)) (sym (append_assoc a.addr (colon ∷ []) a.port))
      ∙ drop-append_eq (length a.addr + 1) (a.addr ++ colon ∷ []) a.port
          (omega (arith, length-append a.addr (colon ∷ []))) in
    (ground (arith, found, front, back), ground (arith, found, front, back))
