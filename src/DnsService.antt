-- ===== src/DnsService.antt =====
-- network/DnsService.cc: the table of the hosts' addresses and its refreshing. Each method holds the
-- mutex, so the calls are in a row; an address is a number. getaddrinfo is an argument.
pub mod Refresh
pub mod Info
mod Tests
use wl_tmm.Prelude.{
  ℕ, zero, suc, ◌+◌, ◌%◌, ◌^◌, Option, none, some, List, [], ◌∷◌, get_elem?, length, ltb,
  if◌then◌else◌,
}
use wl_tmm.Prelude.Maps.{Eq, text_eq, lookup, insert}
use wl_tmm.TestContext.{int32_to_size}

pub record DnsService : Type 0 where
  pub hosts_info : List (List ℕ × List ℕ)
  pub retry : ℕ

unfoldable pub add_host : DnsService → List ℕ → DnsService
add_host d host = elim (lookup host d.hosts_info) [
  | some addresses ↦ d
  | none ↦ record d { hosts_info = insert host [] d.hosts_info }
]

-- `GetHostAddress` with an index, the bit pattern of an int.
unfoldable pub get_host_address_at : DnsService → List ℕ → ℕ → Option ℕ
get_host_address_at d host index = elim (lookup host d.hosts_info) [
  | none ↦ none
  | some [] ↦ none
  | some (a ∷ list) ↦ get_elem? (a ∷ list) (int32_to_size index % length (a ∷ list))
]

unfoldable pub get_host_address : DnsService → List ℕ → List ℕ
get_host_address d host = elim (lookup host d.hosts_info) [ none ↦ [] | some list ↦ list ]

-- `UpdateHost`; the list that the caller gets back by the swap is dropped.
unfoldable pub update_host : DnsService → List ℕ → List ℕ → DnsService
update_host d host list = record d { hosts_info = insert host list d.hosts_info }

-- What getaddrinfo finds for a host, by the number of attempts that are left.
module _ (get_host_info : List ℕ → ℕ → List ℕ) where
  -- The attempts for a host: the first that finds something.
  unfoldable pub try_host : ℕ → List ℕ → Option (List ℕ)
  try_host zero host = none
  try_host (suc left) host = elim (get_host_info host left) [
    | [] ↦ try_host left host
    | a ∷ list ↦ some (a ∷ list)
  ]

  unfoldable pub refresh_host : DnsService → List ℕ → DnsService
  refresh_host d host = elim (try_host d.retry host) [
    | none ↦ d
    | some list ↦ update_host d host list
  ]

  -- A round of OnWork over the copy of the table.
  unfoldable pub refresh_all : List (List ℕ × List ℕ) → DnsService → DnsService
  refresh_all [] d = d
  refresh_all ((host, old) ∷ hosts) d = refresh_all hosts (refresh_host d host)

  unfoldable pub on_work : DnsService → DnsService
  on_work d = refresh_all d.hosts_info d
