-- ===== src/DnsService/Refresh.antt =====
-- A round of the resolver: network/DnsService.cc, lines 18 to 66 and 90 to 111.
use mathlib.Core.Path.{ap₂}
use wl_tmm.Prelude.{
  ℕ, ◌≡◌, inl, inr, refl, ap, ◌∙◌, Option, none, some, List, [], ◌∷◌, Bool, true, false,
  if◌then◌else◌, arith, Option-cases, List-cases, zero, suc,
}
use wl_tmm.Prelude.Maps.{text_eq, list_beq, list_beq_iff, lookup, lookup-insert}
use wl_tmm.DnsService.{DnsService, update_host, try_host, refresh_host, refresh_all, on_work}

-- The addresses of a host after a round, by those before and what was found.
abbrev pub renewed : Option (List ℕ) → Option (List ℕ) → Option (List ℕ)
renewed none old = old
renewed (some list) old = some list

-- The first list that is not empty.
abbrev pub first_found : List (List ℕ) → Option (List ℕ)
first_found [] = none
first_found ([] ∷ lists) = first_found lists
first_found ((a ∷ list) ∷ lists) = some (a ∷ list)

-- Renewing twice by the same answer is renewing once.
renewed_again :
    (here there : Bool) (t t' x : Option (List ℕ))
    → (here ≡ true → t' ≡ t)
    → (if there
        then renewed t (if here then renewed t' x else x)
        else (if here then renewed t' x else x))
      ≡ (if (if here then true else there) then renewed t x else x)
renewed_again false there t t' x h = refl
renewed_again true true none t' x h = ap (λ r. renewed r x) (h refl)
renewed_again true true (some list) t' x h = refl
renewed_again true false t t' x h = ap (λ r. renewed r x) (h refl)

module _ (get_host_info : List ℕ → ℕ → List ℕ) where
  refresh_host-lookup :
      (d : DnsService) (host h : List ℕ)
      → lookup h (refresh_host get_host_info d host).hosts_info ≡ (
          if list_beq host h
          then renewed (try_host get_host_info d.retry host) (lookup h d.hosts_info)
          else lookup h d.hosts_info)
  unfolding refresh_host update_host
  refresh_host-lookup d host h = elim (Option-cases (try_host get_host_info d.retry host)) [
    | inl e ↦ ground (arith, e)
    | inr (list, e) ↦ ground (arith, e, lookup-insert host h list d.hosts_info)
  ]

  refresh_host-retry :
      (d : DnsService) (host : List ℕ) → (refresh_host get_host_info d host).retry ≡ d.retry
  unfolding refresh_host update_host
  refresh_host-retry d host = ground arith

  -- Whether a host stands in a part of the table.
  abbrev pub has_host : List ℕ → List (List ℕ × List ℕ) → Bool
  has_host h [] = false
  has_host h ((host, old) ∷ hosts) = if list_beq host h then true else has_host h hosts

  refresh_all-lookup :
      (hosts : List (List ℕ × List ℕ)) (d : DnsService) (h : List ℕ)
      → lookup h (refresh_all get_host_info hosts d).hosts_info ≡ (
          if has_host h hosts
          then renewed (try_host get_host_info d.retry h) (lookup h d.hosts_info)
          else lookup h d.hosts_info)
  unfolding refresh_all
  refresh_all-lookup [] d h = refl
  refresh_all-lookup ((host, old) ∷ hosts) d h =
      let d' : DnsService = refresh_host get_host_info d host in
      let step = refresh_host-lookup d host h in
      let rest = refresh_all-lookup hosts d' h in
      rest
      ∙ ap₂ (λ n x. if has_host h hosts then renewed (try_host get_host_info n h) x else x)
          (refresh_host-retry d host) step
      ∙ renewed_again (list_beq host h) (has_host h hosts) (try_host get_host_info d.retry h) _
          (lookup h d.hosts_info)
          (λ same. ap (try_host get_host_info d.retry) ((list_beq_iff host h).0 same))

  -- What getaddrinfo finds at the attempts of a round, in their order.
  abbrev pub attempts : List ℕ → ℕ → List (List ℕ)
  attempts host zero = []
  attempts host (suc left) = get_host_info host left ∷ attempts host left

  try_host-first_found :
      (retry : ℕ) (host : List ℕ)
      → try_host get_host_info retry host ≡ first_found (attempts host retry)
  unfolding try_host
  try_host-first_found zero host = refl
  try_host-first_found (suc left) host = elim (List-cases (get_host_info host left)) [
    | inl empty ↦ ground (arith, empty, try_host-first_found left host)
    | inr (a, list, found) ↦ ground (arith, found)
  ]

  -- After a round of OnWork a host of the table has what the first of its attempts found that
  -- found something, of as many as the service makes, and its old addresses if none did; the entry
  -- of any other host is as before.
  pub on_work-lookup :
      (d : DnsService) (h : List ℕ)
      → lookup h (on_work get_host_info d).hosts_info ≡ (
          if has_host h d.hosts_info
          then renewed (first_found (attempts h d.retry)) (lookup h d.hosts_info)
          else lookup h d.hosts_info)
  unfolding on_work
  on_work-lookup d h =
      refresh_all-lookup d.hosts_info d h
      ∙ ap
          (λ t.
            if has_host h d.hosts_info
            then renewed t (lookup h d.hosts_info)
            else lookup h d.hosts_info)
          (try_host-first_found d.retry h)
