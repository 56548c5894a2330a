-- ===== src/StringUtils/Affixes.antt =====
-- StartWith and EndWith: base/StringUtils.cc, lines 5 to 42.
use wl_tmm.Prelude.{
  ℕ, ◌<◌, ◌^◌, ◌≡◌, ◌↔◌, ◌⊎◌, inl, inr, refl, sym, ap, none, some, List, [], ◌∷◌, Bool, true, false,
  ltb, length, take_all, arith, Bool-cases,
}
use wl_tmm.Prelude.Maps.{list_beq, list_beq_iff}
use wl_tmm.StringUtils.{compare_at, start_with, end_with}

-- StartWith never throws, and is true only for an empty prefix and for the string itself.
pub start_with_lem :
    (s sub : List ℕ)
    → (r : Bool) × (start_with s sub ≡ some r) × ((r ≡ true) ↔ ((sub ≡ []) ⊎ (sub ≡ s)))
unfolding start_with compare_at
start_with_lem s [] = (true, refl, (λ e. inl refl, λ e. refl))
start_with_lem [] (x ∷ sub) = (
  false,
  refl,
  (
    λ e. absurd (ground (arith, e)),
    λ r. elim r [ inl e ↦ absurd (ground (arith, e)) | inr e ↦ absurd (ground (arith, e)) ],
  ),
)
start_with_lem (c ∷ s) (x ∷ sub) = elim (Bool-cases (ltb (length (x ∷ sub)) (length (c ∷ s)))) [
  | inl short ↦ (
    false,
    ground (arith, short),
    (
      λ e. absurd (ground (arith, e)),
      λ r. elim r [
        | inl e ↦ absurd (ground (arith, e))
        | inr e ↦ absurd (ground (arith, short, ap length e))
      ],
    ),
  )
  | inr long ↦ (
    list_beq (c ∷ s) (x ∷ sub),
    ground (arith, long, take_all (length (x ∷ sub)) (c ∷ s)),
    (
      λ e. inr (sym ((list_beq_iff (c ∷ s) (x ∷ sub)).0 e)),
      λ r. elim r [
        | inl e ↦ absurd (ground (arith, e))
        | inr e ↦ (list_beq_iff (c ∷ s) (x ∷ sub)).1 (sym e)
      ],
    ),
  )
]

-- EndWith throws for a suffix longer than a string that is not empty, below 2^63 characters.
pub end_with-longer :
    (s sub : List ℕ)
    → 0 < length s
    → length s < length sub
    → length sub < 2 ^ 63
    → end_with s sub ≡ none
unfolding end_with compare_at
end_with-longer s [] some_text longer small = absurd (omega arith)
end_with-longer [] (x ∷ sub) some_text longer small = absurd (omega arith)
end_with-longer (c ∷ s) (x ∷ sub) some_text longer small = ground (arith, longer, small)
