-- ===== src/Config/Fields.antt =====
-- The members of such documents one by one, and the log: base/Config.cc, lines 20 to 101.
use wl_tmm.Prelude.{
  ℕ, ◌≡◌, refl, ap, ◌∙◌, Option, none, some, List, [], Bool, true, false, arith, codes, ◌>>=◌, not,
  ◌||◌,
}
use wl_tmm.Prelude.Int.{ℤ}
use wl_tmm.Prelude.Maps.{text_eq, lookup}
use wl_tmm.FileMgr.{RotateType, rotate_none, rotate_minute_type, rotate_hour_type, rotate_day_type}
use wl_tmm.Config.{
  Json, LoggerLevel, trace, debug, info, warn, error, LogInfo, new_log_info, level_of, rotate_of,
  assign_level, assign_rotate, unless_null, parse_log_info,
}
use wl_tmm.Config.Documents.{
  LogSettings, or_else, log_of, level_text, rotate_text, fits, Documents, or_null, log_members,
  log_document,
}

pub bind_some {ℓ κ} :
    {A : Type ℓ} {B : Type κ} {m : Option A} {a : A} (f : A → Option B) {r : Option B}
    → m ≡ some a
    → f a ≡ r
    → (m >>= f) ≡ r
bind_some f e e' = ap (λ m. m >>= f) e ∙ e'

pub bind_none {ℓ κ} :
    {A : Type ℓ} {B : Type κ} {m : Option A} (f : A → Option B) → m ≡ none → (m >>= f) ≡ none
bind_none f e = ap (λ m. m >>= f) e

module _ {ℓ} {V : Type ℓ} {json : Json V} (d : Documents V json) where
  -- A string that may be missing, for a member of an object: `put` is the object with a value there.
  pub unless_null-text {κ} :
      {S : Type κ} (assign : List ℕ → S → S) (put : List ℕ → S) (old : List ℕ)
      → ((t : List ℕ) → assign t (put old) ≡ put t)
      → (o : Option (List ℕ))
      → unless_null json json.as_string assign (or_null d d.text o) (put old)
        ≡ some (put (or_else o old))
  unless_null-text assign put old same none = rw d.is_null-null
  unless_null-text assign put old same (some t) =
      rw (d.is_null-text t, d.as_string-text t) (ap some (same t))

  pub unless_null-number {κ} :
      {S : Type κ} (assign : ℤ → S → S) (put : ℤ → S) (old : ℤ)
      → ((n : ℤ) → assign n (put old) ≡ put n)
      → (o : Option ℤ) → fits o ≡ true
      → unless_null json json.as_int assign (or_null d d.number o) (put old)
        ≡ some (put (or_else o old))
  unless_null-number assign put old same none fit = rw d.is_null-null
  unless_null-number assign put old same (some n) fit =
      rw (d.is_null-number n, d.as_int-number n, fit) (ap some (same n))

  pub unless_null-large {κ} :
      {S : Type κ} (assign : ℤ → S → S) (s : S) (o : Option ℤ)
      → fits o ≡ false
      → unless_null json json.as_int assign (or_null d d.number o) s ≡ none
  unless_null-large assign s none large = absurd (ground (arith, large))
  unless_null-large assign s (some n) large = rw (d.is_null-number n, d.as_int-number n, large) refl

  unless_null-level :
      (o : Option LoggerLevel)
      → unless_null json json.as_string assign_level
          (or_null d (λ l. d.text (level_text l)) o)
          new_log_info
        ≡ some (record new_log_info { level = o })
  unfolding level_of
  unless_null-level none = rw d.is_null-null
  unless_null-level (some trace) =
      rw (d.is_null-text (codes "TRACE"), d.as_string-text (codes "TRACE"))
  unless_null-level (some debug) =
      rw (d.is_null-text (codes "DEBUG"), d.as_string-text (codes "DEBUG"))
  unless_null-level (some info) =
      rw (d.is_null-text (codes "INFO"), d.as_string-text (codes "INFO"))
  unless_null-level (some warn) =
      rw (d.is_null-text (codes "WARN"), d.as_string-text (codes "WARN"))
  unless_null-level (some error) =
      rw (d.is_null-text (codes "ERROR"), d.as_string-text (codes "ERROR"))

  unless_null-rotate :
      (o : Option RotateType) (i : LogInfo)
      → ¬ (o ≡ some rotate_minute_type)
      → i.rotate_type ≡ rotate_none
      → unless_null json json.as_string assign_rotate (or_null d (λ r. d.text (rotate_text r)) o) i
        ≡ some (record i { rotate_type = or_else o rotate_none })
  unfolding rotate_of
  unless_null-rotate none i e fresh = ground (arith, d.is_null-null, fresh)
  unless_null-rotate (some rotate_none) i e fresh =
      ground (arith, d.is_null-text (codes "NONE"), d.as_string-text (codes "NONE"), fresh)
  unless_null-rotate (some rotate_minute_type) i e fresh = absurd (e refl)
  unless_null-rotate (some rotate_hour_type) i e fresh =
      ground (arith, d.is_null-text (codes "HOUR"), d.as_string-text (codes "HOUR"), fresh)
  unless_null-rotate (some rotate_day_type) i e fresh =
      ground (arith, d.is_null-text (codes "Day"), d.as_string-text (codes "Day"), fresh)

  abbrev pub is_none {κ} : {A : Type κ} → Option A → Bool
  is_none none = true
  is_none (some a) = false

  is_null-or_null {κ} :
      {A : Type κ} (f : A → V)
      → ((a : A) → json.is_null (f a) ≡ false)
      → (o : Option A) → json.is_null (or_null d f o) ≡ is_none o
  is_null-or_null f h none = d.is_null-null
  is_null-or_null f h (some a) = h a

  pub parse_log_info-document :
      (s : LogSettings)
      → ¬ (s.rotate ≡ some rotate_minute_type)
      → parse_log_info json (log_document d s)
        ≡ some (log_of s, not (is_none s.level || is_none s.path || is_none s.name))
  unfolding parse_log_info lookup
  parse_log_info-document s e =
      let path : List ℕ → LogInfo = λ t. record new_log_info { level = s.level; path = t } in
      let name : List ℕ → LogInfo = λ t. record (path (or_else s.path [])) { name = t } in
      let named = name (or_else s.name []) in
      bind_some _ (d.member-object (log_members d s) (codes "level")) (
        bind_some _ (unless_null-level s.level) (
          bind_some _ (d.member-object (log_members d s) (codes "path")) (
            bind_some _ (unless_null-text (λ t i. record i { path = t }) path [] (λ _. refl) s.path)
              (bind_some _ (d.member-object (log_members d s) (codes "name")) (
                bind_some _
                  (unless_null-text (λ t i. record i { name = t }) name [] (λ _. refl) s.name)
                  (bind_some _ (d.member-object (log_members d s) (codes "rotate")) (
                    bind_some _ (unless_null-rotate s.rotate named e refl) (
                      rw (
                        is_null-or_null (λ l. d.text (level_text l))
                            (λ l. d.is_null-text (level_text l)) s.level,
                        is_null-or_null d.text d.is_null-text s.path,
                        is_null-or_null d.text d.is_null-text s.name,
                      )))))))))
