-- ===== src/DnsService/Info/Tests.antt =====
-- Two entries of getaddrinfo, for the theorem about network/DnsService.cc, lines 113 to 151.
use wl_tmm.Prelude.{ℕ, ◌≡◌, refl, none, some, List, [], ◌∷◌, ◌++◌, map, arith, inl, inr, codes}
use wl_tmm.Prelude.Int.{negsuc}
use wl_tmm.InetAddress.{InetAddress}
use wl_tmm.SocketOpt.{inet, inet6, SockAddr, Inet, get_sock_addr}
use wl_tmm.DnsService.Info.{
  failed, found, AllInternet, as_inet, get_host_info, get_host_info-get_sock_addr,
}

-- Addresses as their texts.
abbrev texts : Inet (List ℕ)
texts = record { pton = λ family text. some text; ntop = λ family addr. addr; zero_addr = [] }

abbrev entries : List (SockAddr (List ℕ))
entries =
    record { family = inet; port = 0; addr = codes "93.184.216.34" }
    ∷ record { family = inet6; port = 0; addr = codes "::1" }
    ∷ []

entries-AllInternet : AllInternet texts entries
entries-AllInternet = (
  record { small = omega arith; known = inl refl; read = λ _. refl },
  (record { small = omega arith; known = inr refl; read = λ _. refl }, tt),
)

get_host_info-get_sock_addr_example :
    (added : List InetAddress) × (get_host_info texts (found entries) [] ≡ some ([] ++ added))
    × (map (get_sock_addr texts) added ≡ map (λ s. some (as_inet texts s)) entries)
get_host_info-get_sock_addr_example =
    get_host_info-get_sock_addr texts entries [] entries-AllInternet

-- An unknown name is EAI_NONAME, -2, for which the result is read that was not written.
unknown_name : get_host_info texts (failed (negsuc 1)) [] ≡ none
unfolding get_host_info
unknown_name = refl
