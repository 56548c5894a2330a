-- ===== src/Config/Manager.antt =====
-- The configuration that a ConfigMgr holds after some loads: base/Config.cc, lines 107 to 123.
use wl_tmm.Prelude.{
  ◌≡◌, refl, ap, ◌∙◌, Option, none, some, List, [], ◌∷◌, ◌++◌, true, inl, inr, Option-cases,
  Bool-cases,
}
use wl_tmm.Config.{Json, Config, new_config, load_config, mgr_load_config}

module _ {ℓ} {V : Type ℓ} (json : Json V) where
  -- A series of loads; an exception of one is caught by the caller.
  unfoldable pub load_all : List (Option V) → Option Config → Option Config
  load_all [] config = config
  load_all (parsed ∷ rest) config = load_all rest (mgr_load_config json parsed config).1

  -- A load that ends with an exception or returns false.
  abbrev pub IsFailure : Option V → Type 0
  IsFailure parsed = (c : Config) → ¬ (load_config json parsed new_config ≡ some (true, c))

  abbrev pub AllFail : List (Option V) → Type 0
  AllFail [] = Unit
  AllFail (parsed ∷ rest) = IsFailure parsed × AllFail rest

  mgr_load_config-IsFailure :
      (parsed : Option V) (config : Option Config)
      → IsFailure parsed
      → (mgr_load_config json parsed config).1 ≡ config
  unfolding mgr_load_config
  mgr_load_config-IsFailure parsed config bad =
      elim (Option-cases (load_config json parsed new_config)) [
        | inl thrown ↦ rw (thrown, mgr_load_config)
        | inr ((ok, c), e) ↦ elim (Bool-cases ok) [
          | inl good ↦ absurd (bad c (e ∙ ap (λ b. some (b, c)) good))
          | inr no_good ↦ rw (e, no_good, mgr_load_config)
        ]
      ]

  pub mgr_load_config-loaded :
      (parsed : Option V) (config : Option Config) (c : Config)
      → load_config json parsed new_config ≡ some (true, c)
      → mgr_load_config json parsed config ≡ (some true, some c)
  unfolding mgr_load_config
  mgr_load_config-loaded parsed config c good = rw (good, mgr_load_config)

  pub mgr_load_config-thrown :
      (parsed : Option V) (config : Option Config)
      → load_config json parsed new_config ≡ none
      → mgr_load_config json parsed config ≡ (none, config)
  unfolding mgr_load_config
  mgr_load_config-thrown parsed config thrown = rw (thrown, mgr_load_config)

  load_all-AllFail :
      (rest : List (Option V)) (config : Option Config)
      → AllFail rest
      → load_all rest config ≡ config
  unfolding load_all
  load_all-AllFail [] config bad = refl
  load_all-AllFail (parsed ∷ rest) config (bad, bads) =
      ap (load_all rest) (mgr_load_config-IsFailure parsed config bad)
      ∙ load_all-AllFail rest config bads

  -- The manager has the configuration of the last document that loaded, whatever failed or threw
  -- behind it.
  pub load_all-last :
      (before rest : List (Option V)) (parsed : Option V) (config : Option Config) (c : Config)
      → load_config json parsed new_config ≡ some (true, c)
      → AllFail rest
      → load_all (before ++ parsed ∷ rest) config ≡ some c
  unfolding load_all mgr_load_config
  load_all-last [] rest parsed config c good bads =
      ap (λ x. load_all rest x.1) (mgr_load_config-loaded parsed config c good)
      ∙ load_all-AllFail rest (some c) bads
  load_all-last (b ∷ before) rest parsed config c good bads =
      load_all-last before rest parsed (mgr_load_config json b config).1 c good bads
