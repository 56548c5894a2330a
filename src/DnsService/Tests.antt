-- ===== src/DnsService/Tests.antt =====
-- A table with one host, for the theorem about network/DnsService.cc.
use wl_tmm.Prelude.{ℕ, ◌≡◌, List, [], ◌∷◌, ◌==◌, if◌then◌else◌}
use wl_tmm.Prelude.Maps.{text_eq, lookup}
use wl_tmm.DnsService.{DnsService, on_work}
use wl_tmm.DnsService.Refresh.{renewed, first_found, attempts, has_host, on_work-lookup}

-- The host "a".
abbrev host : List ℕ
host = 97 ∷ []

abbrev table : DnsService
table = record { hosts_info = (host, []) ∷ []; retry = 3 }

-- The first attempt fails.
abbrev resolver : List ℕ → ℕ → List ℕ
resolver text left = if left == 2 then [] else 10 ∷ 20 ∷ []

on_work-lookup_example : lookup host (on_work resolver table).hosts_info ≡ (
    if has_host resolver host table.hosts_info
    then renewed (first_found (attempts resolver host 3)) (lookup host table.hosts_info)
    else lookup host table.hosts_info)
on_work-lookup_example = on_work-lookup resolver table host
