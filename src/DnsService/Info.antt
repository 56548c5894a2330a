-- ===== src/DnsService/Info.antt =====
-- What getaddrinfo gives, as addresses: network/DnsService.cc, lines 113 to 151. getaddrinfo, which
-- leaves the result alone when it fails, is an argument, and so are the conversions of addresses.
mod Tests
use wl_tmm.Prelude.{
  ℕ, zero, suc, ◌^◌, ◌<◌, ◌≡◌, refl, sym, ap, ◌∙◌, Option, none, some, List, [], ◌∷◌, ◌++◌, arith,
  ◌⊎◌, inl, inr, map, append-nil, append_assoc,
}
use wl_tmm.Prelude.Int.{ℤ, pos, negsuc}
use wl_tmm.Endian.{
  host_to_network16, network_to_host16, byte_swap, bytes_le, from_le, byte_swap-byte_swap,
}
use wl_tmm.InetAddress.{InetAddress, set_addr}
use wl_tmm.InetAddress.Ports.{set_port, port_of, port_of-set_port}
use wl_tmm.SocketOpt.{
  inet, inet6, unspecified, SockAddr, Inet, addr_or_zero, get_sock_addr, new_address,
}

-- The end of getaddrinfo: an error's number, or the entries of the list; EAI_BADFLAGS is -1.
pub data AddrInfo (A : Type 0) : Type 0 where
  failed : ℤ → AddrInfo A
  found : List (SockAddr A) → AddrInfo A

module _ {A : Type 0} (net : Inet A) where
  -- The address of an entry: the flag of IPv6 is not set.
  unfoldable pub peeraddr : SockAddr A → InetAddress
  peeraddr s = elim s.family [
    | inet ↦ set_port (set_addr (new_address net) (net.ntop inet s.addr)) (network_to_host16 s.port)
    | inet6 ↦
        set_port (set_addr (new_address net) (net.ntop inet6 s.addr)) (network_to_host16 s.port)
    | unspecified ↦ new_address net
  ]

  unfoldable pub push_all : List (SockAddr A) → List InetAddress → List InetAddress
  push_all [] list = list
  push_all (s ∷ rp) list = push_all rp (list ++ peeraddr s ∷ [])

  -- `GetHostInfo`; `none` is a use of the result that was not written.
  unfoldable pub get_host_info : AddrInfo A → List InetAddress → Option (List InetAddress)
  get_host_info (failed (pos n)) list = none
  get_host_info (failed (negsuc zero)) list = some list
  get_host_info (failed (negsuc (suc n))) list = none
  get_host_info (found rp) list = some (push_all rp list)

  -- What GetSockAddr makes of the address of an entry.
  abbrev pub as_inet : SockAddr A → SockAddr A
  as_inet s = elim s.family [
    | inet ↦ s
    | inet6 ↦ record s { family = inet; addr = addr_or_zero net inet (net.ntop inet6 s.addr) }
    | unspecified ↦ s
  ]

  -- An entry of one of the two families; the text of an IPv4 address is read as the address.
  pub record IsInternet (s : SockAddr A) : Type 0 where
    pub small : s.port < 2 ^ 16
    pub known : (s.family ≡ inet) ⊎ (s.family ≡ inet6)
    pub read : s.family ≡ inet → net.pton inet (net.ntop inet s.addr) ≡ some s.addr

  abbrev pub AllInternet : List (SockAddr A) → Type 0
  AllInternet [] = Unit {0}
  AllInternet (s ∷ rp) = IsInternet s × AllInternet rp

host_to_network16-network_to_host16 :
    (x : ℕ) → x < 2 ^ 16 → host_to_network16 (network_to_host16 x) ≡ x
unfolding network_to_host16 host_to_network16
host_to_network16-network_to_host16 x small = byte_swap-byte_swap 2 x (omega (arith, small))

network_to_host16-small : (x : ℕ) → network_to_host16 x < 2 ^ 16
unfolding network_to_host16 byte_swap bytes_le from_le
network_to_host16-small x = omega arith

module _ {A : Type 0} (net : Inet A) where
  push_all-map :
      (rp : List (SockAddr A)) (list : List InetAddress)
      → push_all net rp list ≡ list ++ map (peeraddr net) rp
  unfolding push_all
  push_all-map [] list = sym (append-nil list)
  push_all-map (s ∷ rp) list =
      push_all-map rp (list ++ peeraddr net s ∷ [])
      ∙ append_assoc list (peeraddr net s ∷ []) (map (peeraddr net) rp)

  port_of-set_network :
      (a : InetAddress) (port : ℕ)
      → port_of (set_port a (network_to_host16 port)) ≡ some (network_to_host16 port)
  port_of-set_network a port =
      port_of-set_port a (network_to_host16 port) (network_to_host16-small port)

  get_sock_addr-peeraddr :
      (s : SockAddr A)
      → IsInternet net s
      → get_sock_addr net (peeraddr net s) ≡ some (as_inet net s)
  unfolding get_sock_addr peeraddr set_addr set_port
  get_sock_addr-peeraddr s c = elim c.known [
    | inl four ↦ ground (
      arith,
      four,
      c.read four,
      port_of-set_network (set_addr (new_address net) (net.ntop inet s.addr)) s.port,
      host_to_network16-network_to_host16 s.port c.small,
    )
    | inr six ↦ ground (
      arith,
      six,
      port_of-set_network (set_addr (new_address net) (net.ntop inet6 s.addr)) s.port,
      host_to_network16-network_to_host16 s.port c.small,
    )
  ]

  map-get_sock_addr :
      (rp : List (SockAddr A))
      → AllInternet net rp
      → map (get_sock_addr net) (map (peeraddr net) rp) ≡ map (λ s. some (as_inet net s)) rp
  map-get_sock_addr [] all = refl
  map-get_sock_addr (s ∷ rp) (first, rest) =
      cc (get_sock_addr-peeraddr s first, map-get_sock_addr rp rest)

  -- GetHostInfo puts addresses behind the list, one for each entry that getaddrinfo found and in
  -- their order; GetSockAddr makes an IPv4 entry again of its address, and of an IPv6 entry a
  -- socket address of IPv4 with its port and what inet_pton for IPv4 makes of its text. The
  -- entries are of these families with ports below 2^16, and IPv4 texts are read as they are
  -- printed.
  pub get_host_info-get_sock_addr :
      (rp : List (SockAddr A)) (list : List InetAddress)
      → AllInternet net rp
      → (added : List InetAddress) × (get_host_info net (found rp) list ≡ some (list ++ added))
        × (map (get_sock_addr net) added ≡ map (λ s. some (as_inet net s)) rp)
  unfolding get_host_info
  get_host_info-get_sock_addr rp list all =
      (map (peeraddr net) rp, ap some (push_all-map rp list), map-get_sock_addr rp all)
