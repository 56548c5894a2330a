-- ===== src/StringUtils/Split.antt =====
-- Splitting a text at a delimiter: base/StringUtils.cc, lines 88 to 106.
use wl_tmm.Prelude.{
  ℕ, zero, suc, ◌+◌, ◌-◌, ◌<◌, ◌≤◌, ◌≡◌, refl, sym, ap, ◌∙◌, Option, none, some, List, [], ◌∷◌,
  Bool, true, false, ◌&&◌, ◌==◌, ltb, length, take, drop, arith, if◌then◌else◌, inl, inr,
  Option-cases, Bool-cases, drop-drop, length-drop, length-take,
}

abbrev pub is_prefix : List ℕ → List ℕ → Bool
is_prefix [] s = true
is_prefix (x ∷ p) [] = false
is_prefix (x ∷ p) (y ∷ s) = x == y && is_prefix p s

-- Where a pattern first stands in a text.
unfoldable pub find_in : List ℕ → List ℕ → Option ℕ
find_in p [] = if is_prefix p [] then some 0 else none
find_in p (y ∷ s) = elim (is_prefix p (y ∷ s)) [
  | true ↦ some 0
  | false ↦ elim (find_in p s) [ none ↦ none | some i ↦ some (suc i) ]
]

-- `s.find(delimiter, last)`, for a delimiter that is not empty.
unfoldable pub find_at : List ℕ → List ℕ → ℕ → Option ℕ
find_at s delimiter last = elim (find_in delimiter (drop last s)) [
  | none ↦ none
  | some i ↦ some (last + i)
]

abbrev pub emplace_if : Bool → List ℕ → List (List ℕ) → List (List ℕ)
emplace_if b text rest = if b then text ∷ rest else rest

-- The loop, by its fuel; `none` is a loop that has not ended.
unfoldable pub split_loop : ℕ → List ℕ → List ℕ → ℕ → Option (List (List ℕ))
split_loop zero s delimiter last = none
split_loop (suc fuel) s delimiter last = elim (find_at s delimiter last) [
  | none ↦ some (emplace_if (ltb last (length s)) (drop last s) [])
  | some next ↦ elim (split_loop fuel s delimiter (next + length delimiter)) [
    | none ↦ none
    | some rest ↦ some (emplace_if (ltb last next) (take (next - last) (drop last s)) rest)
  ]
]

-- `SplitString`: a round for each character and one more are enough.
unfoldable pub split_string : List ℕ → List ℕ → Option (List (List ℕ))
split_string s [] = some []
split_string s (d ∷ ds) = split_loop (suc (length s)) s (d ∷ ds) 0

-- The same loop over the rest of the text.
split_rest : ℕ → List ℕ → List ℕ → Option (List (List ℕ))
split_rest zero d r = none
split_rest (suc fuel) d r = elim (find_in d r) [
  | none ↦ some (emplace_if (ltb 0 (length r)) r [])
  | some i ↦ elim (split_rest fuel d (drop (i + length d) r)) [
    | none ↦ none
    | some rest ↦ some (emplace_if (ltb 0 i) (take i r) rest)
  ]
]

is_prefix-length : (p s : List ℕ) → is_prefix p s ≡ true → length p ≤ length s
is_prefix-length [] s e = omega arith
is_prefix-length (x ∷ p) [] e = ground (arith, e)
is_prefix-length (x ∷ p) (y ∷ s) e = ground (arith, e, is_prefix-length p s)

-- A place at which a pattern stands leaves room for it.
find_in-room : (p r : List ℕ) (i : ℕ) → find_in p r ≡ some i → i + length p ≤ length r
unfolding find_in
find_in-room p [] i e = ground (arith, e, is_prefix-length p [])
find_in-room p (y ∷ r) i e = elim (Option-cases (find_in p r)) [
  | inl absent ↦ ground (arith, e, absent, is_prefix-length p (y ∷ r))
  | inr (j, found) ↦ ground (arith, e, found, find_in-room p r j found, is_prefix-length p (y ∷ r))
]

split_loop-rest :
    (fuel : ℕ) (s d : List ℕ) (last : ℕ)
    → last ≤ length s
    → split_loop fuel s d last ≡ split_rest fuel d (drop last s)
unfolding split_loop split_rest find_at
split_loop-rest zero s d last h = refl
split_loop-rest (suc fuel) s d last h = elim (Option-cases (find_in d (drop last s))) [
  | inl absent ↦ ground (arith, absent, length-drop last s, h)
  | inr (i, e) ↦
      let room = find_in-room d (drop last s) i e in
      let rest : split_loop fuel s d (last + i + length d)
          ≡ split_rest fuel d (drop (i + length d) (drop last s)) =
        split_loop-rest fuel s d (last + i + length d) (omega (arith, room, length-drop last s, h))
        ∙ ap (split_rest fuel d)
            (ap (λ k. drop k s) (omega arith) ∙ sym (drop-drop (i + length d) last s)) in
      ground (arith, e, rest)
]

-- A reference: the first piece of a text and the later ones, at a character.
abbrev pub pieces : ℕ → List ℕ → List ℕ × List (List ℕ)
pieces c [] = ([], [])
pieces c (x ∷ s) = let (p, ps) = pieces c s in if x == c then ([], p ∷ ps) else (x ∷ p, ps)

abbrev pub non_empty : List (List ℕ) → List (List ℕ)
non_empty [] = []
non_empty (p ∷ ps) = let rest = non_empty ps in emplace_if (ltb 0 (length p)) p rest

abbrev pub non_empty_pieces : ℕ → List ℕ → List (List ℕ)
non_empty_pieces c s = let (p, ps) = pieces c s in non_empty (p ∷ ps)

find_in-none : (c : ℕ) (r : List ℕ) → find_in (c ∷ []) r ≡ none → pieces c r ≡ (r, [])
unfolding find_in
find_in-none c [] e = refl
find_in-none c (x ∷ r) e = elim (Option-cases (find_in (c ∷ []) r)) [
  | inl absent ↦ ground (arith, e, absent, find_in-none c r absent)
  | inr (j, found) ↦ ground (arith, e, found)
]

find_in-some :
    (c : ℕ) (r : List ℕ) (i : ℕ)
    → find_in (c ∷ []) r ≡ some i
    → pieces c r ≡ (take i r, (pieces c (drop (i + 1) r)).0 ∷ (pieces c (drop (i + 1) r)).1)
unfolding find_in
find_in-some c [] i e = ground (arith, e)
find_in-some c (x ∷ r) zero e = elim (Option-cases (find_in (c ∷ []) r)) [
  | inl absent ↦ ground (arith, e, absent)
  | inr (j, found) ↦ ground (arith, e, found)
]
find_in-some c (x ∷ r) (suc i) e = elim (Option-cases (find_in (c ∷ []) r)) [
  | inl absent ↦ absurd (ground (arith, e, absent))
  | inr (j, found) ↦ elim (Bool-cases (x == c)) [
    | inl same ↦ absurd (ground (arith, e, found, same))
    | inr other ↦
        let this : j ≡ i = ground (arith, e, found, other) in
        ground (arith, other, this, find_in-some c r j found)
  ]
]

split_rest-pieces :
    (fuel c : ℕ) (r : List ℕ)
    → length r < fuel
    → split_rest fuel (c ∷ []) r ≡ some (non_empty_pieces c r)
unfolding split_rest
split_rest-pieces zero c r h = absurd (omega arith)
split_rest-pieces (suc fuel) c r h = elim (Option-cases (find_in (c ∷ []) r)) [
  | inl absent ↦ ground (arith, absent, find_in-none c r absent)
  | inr (i, e) ↦
      let room = find_in-room (c ∷ []) r i e in
      let rest =
        split_rest-pieces fuel c (drop (i + 1) r) (omega (arith, h, room, length-drop (i + 1) r)) in
      ground (arith, e, rest, find_in-some c r i e, length-take i r, room)
]

-- For a delimiter of one character SplitString ends and gives the pieces of the text between the
-- delimiters that are not empty, in their order.
pub split_string-pieces :
    (s : List ℕ) (c : ℕ) → split_string s (c ∷ []) ≡ some (non_empty_pieces c s)
unfolding split_string
split_string-pieces s c =
    split_loop-rest (suc (length s)) s (c ∷ []) 0 (omega arith)
    ∙ split_rest-pieces (suc (length s)) c s (omega arith)

-- The loop ends for any delimiter that is not empty.
split_rest-ends :
    (fuel d : ℕ) (ds r : List ℕ)
    → length r < fuel
    → (ps : List (List ℕ)) × (split_rest fuel (d ∷ ds) r ≡ some ps)
unfolding split_rest
split_rest-ends zero d ds r h = absurd (omega arith)
split_rest-ends (suc fuel) d ds r h = elim (Option-cases (find_in (d ∷ ds) r)) [
  | inl absent ↦ (emplace_if (ltb 0 (length r)) r [], ground (arith, absent))
  | inr (i, e) ↦
      let k = i + length (d ∷ ds) in
      let (ps, rest) =
        split_rest-ends fuel d ds (drop k r)
          (omega (arith, h, find_in-room (d ∷ ds) r i e, length-drop k r)) in
      (emplace_if (ltb 0 i) (take i r) ps, ground (arith, e, rest))
]

-- SplitString ends for every delimiter.
pub split_string-ends :
    (s delimiter : List ℕ) → (ps : List (List ℕ)) × (split_string s delimiter ≡ some ps)
unfolding split_string
split_string-ends s [] = ([], refl)
split_string-ends s (d ∷ ds) =
    let (ps, e) = split_rest-ends (suc (length s)) d ds s (omega arith) in
    (ps, split_loop-rest (suc (length s)) s (d ∷ ds) 0 (omega arith) ∙ e)
