-- ===== src/Config/Load.antt =====
-- What is loaded from a document: base/Config.cc, lines 6 to 118.
use wl_tmm.Prelude.{
  ◌≡◌, refl, Option, none, some, [], true, false, arith, codes, ◌>>=◌, if◌then◌else◌, Bool-cases,
  inl, inr,
}
use wl_tmm.Prelude.Int.{ℤ, pos}
use wl_tmm.Prelude.Maps.{text_eq, lookup}
use wl_tmm.Config.{Json, Config, new_config, unless_null, parse_log_info, load_config}
use wl_tmm.Config.Documents.{
  LogSettings, Settings, or_else, log_of, config_of, NoMinutes, fits, all_fit, Documents, or_null,
  log_members, log_document, members, document,
}
use wl_tmm.Config.Fields.{
  bind_some, bind_none, unless_null-text, unless_null-number, unless_null-large,
  parse_log_info-document,
}

module _ {ℓ} {V : Type ℓ} {json : Json V} (d : Documents V json) where
  unless_null-log :
      (o : Option LogSettings) (c : Config)
      → NoMinutes o
      → c.log_info ≡ none
      → unless_null json
          (parse_log_info json)
          (λ i c. record c { log_info = some i.0 })
          (or_null d (log_document d) o)
          c
        ≡ some (record c { log_info = elim o [ none ↦ none | some i ↦ some (log_of i) ] })
  unless_null-log none c e fresh = ground (arith, d.is_null-null, fresh)
  unless_null-log (some s) c e fresh =
      rw (d.is_null-object (log_members d s), parse_log_info-document d s e)

  -- The configuration after the name and the first number.
  abbrev named : Settings → Config
  named s = record new_config { name = or_else s.name [] }

  abbrev placed : Settings → Config
  placed s = record (named s) { cpu_start = or_else s.cpu_start (pos 0) }

  module _ (s : Settings) where
    -- Loading is what follows the name.
    after_name {κ} :
        {A : Type κ} (f : Config → Option A) {r : Option A}
        → f (named s) ≡ r
        → (json.member (document d s) (codes "name") >>= λ obj.
            unless_null json json.as_string (λ t c. record c { name = t }) obj new_config >>= f)
          ≡ r
    unfolding lookup
    after_name f e = bind_some _ (d.member-object (members d s) (codes "name")) (
        bind_some _
          (unless_null-text d (λ t c. record c { name = t }) (λ t. record new_config { name = t })
            [] (λ _. refl) s.name)
          e)

    load_config-large_cpu :
        fits s.cpu_start ≡ false → load_config json (some (document d s)) new_config ≡ none
    unfolding load_config lookup
    load_config-large_cpu large = after_name _ (
        bind_some _ (d.member-object (members d s) (codes "cup_start")) (
          bind_none _
            (unless_null-large d (λ n c. record c { cpu_start = n }) (named s) s.cpu_start large)))

    load_config-large_threads :
        fits s.cpu_start ≡ true
        → fits s.thread_num ≡ false
        → load_config json (some (document d s)) new_config ≡ none
    unfolding load_config lookup
    load_config-large_threads fit large = after_name _ (
        bind_some _ (d.member-object (members d s) (codes "cup_start")) (
          bind_some _
            (unless_null-number d (λ n c. record c { cpu_start = n })
              (λ n. record (named s) { cpu_start = n }) (pos 0) (λ _. refl) s.cpu_start fit)
            (bind_some _ (d.member-object (members d s) (codes "threads")) (
              bind_none _ (
                unless_null-large d (λ n c. record c { thread_num = n }) (placed s) s.thread_num
                  large)))))

    load_config-fits :
        NoMinutes s.log
        → fits s.cpu_start ≡ true
        → fits s.thread_num ≡ true
        → load_config json (some (document d s)) new_config ≡ some (true, config_of s)
    unfolding load_config lookup
    load_config-fits e fit fit' =
        let threads : ℤ → Config = λ n. record (placed s) { thread_num = n } in
        after_name _ (
          bind_some _ (d.member-object (members d s) (codes "cup_start")) (
            bind_some _
              (unless_null-number d (λ n c. record c { cpu_start = n })
                (λ n. record (named s) { cpu_start = n }) (pos 0) (λ _. refl) s.cpu_start fit)
              (bind_some _ (d.member-object (members d s) (codes "threads")) (
                bind_some _
                  (unless_null-number d (λ n c. record c { thread_num = n }) threads (pos 1)
                    (λ _. refl) s.thread_num fit')
                  (bind_some _ (d.member-object (members d s) (codes "log")) (
                    bind_some _
                      (unless_null-log s.log (threads (or_else s.thread_num (pos 1))) e refl)
                      refl))))))

  pub load_config-document :
      (s : Settings)
      → NoMinutes s.log
      → load_config json (some (document d s)) new_config
        ≡ (if all_fit s then some (true, config_of s) else none)
  load_config-document s e = elim (Bool-cases (fits s.cpu_start)) [
    | inr large ↦ ground (arith, large, load_config-large_cpu s large)
    | inl fit ↦ elim (Bool-cases (fits s.thread_num)) [
      | inr large ↦ ground (arith, fit, large, load_config-large_threads s fit large)
      | inl fit' ↦ ground (arith, fit, fit', load_config-fits s e fit fit')
    ]
  ]
