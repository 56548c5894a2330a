-- ===== src/MsgBuffer/Search.antt =====
-- Finding the end of a line: network/base/MsgBuffer.h, lines 90 to 118.
use wl_tmm.Prelude.{
  ℕ, ◌+◌, ◌⊎◌, ◌≡◌, Option, none, some, List, [], ◌∷◌, arith, leb, ◌==◌, ==_iff, ◌&&◌,
  if◌then◌else◌, ◌>>=◌, ◌>>◌, assert, inl, inr, Option-cases, false, take, zero, suc, get_elem?,
}
use mathlib.Core.Option
use wl_tmm.MsgBuffer.{MsgBuffer, peek, begin_write, readable_bytes, read_range, cr, lf}
use wl_tmm.MsgBuffer.Contents.{contents, IsValid}

-- `memchr`: the first place of a byte.
unfoldable pub memchr : List ℕ → ℕ → Option ℕ
memchr [] c = none
memchr (x ∷ xs) c = if x == c then some 0 else Option.map (λ i. i + 1) (memchr xs c)

-- `std::search` for two bytes in a row: the first place.
unfoldable pub search_pair : List ℕ → ℕ → ℕ → Option ℕ
search_pair [] c d = none
search_pair (x ∷ []) c d = none
search_pair (x ∷ y ∷ xs) c d =
    if x == c && y == d then some 0 else Option.map (λ i. i + 1) (search_pair (y ∷ xs) c d)

-- `findCRLF(start)`: the index of the first CR LF at or behind `start`, or NULL. The outer option
-- is the assertions'.
unfoldable pub find_crlf_from : MsgBuffer → ℕ → Option (Option ℕ)
unfolding peek begin_write
find_crlf_from b start = do
  assert (leb (peek b) start)
  assert (leb start (begin_write b))
  bytes ← read_range b.buffer start (begin_write b)
  some (Option.map (λ i. start + i) (search_pair bytes cr lf))

unfoldable pub find_crlf : MsgBuffer → Option (Option ℕ)
unfolding peek begin_write
find_crlf b = do
  bytes ← read_range b.buffer (peek b) (begin_write b)
  some (Option.map (λ i. peek b + i) (search_pair bytes cr lf))

unfoldable pub find_eol_from : MsgBuffer → ℕ → Option (Option ℕ)
unfolding peek begin_write
find_eol_from b start = do
  assert (leb (peek b) start)
  assert (leb start (begin_write b))
  bytes ← read_range b.buffer start (begin_write b)
  some (Option.map (λ i. start + i) (memchr bytes lf))

unfoldable pub find_eol : MsgBuffer → Option (Option ℕ)
unfolding peek readable_bytes
find_eol b = do
  bytes ← read_range b.buffer (peek b) (peek b + readable_bytes b)
  some (Option.map (λ i. peek b + i) (memchr bytes lf))

-- No byte of a list is `c`.
abbrev pub Avoids : ℕ → List ℕ → Type 0
Avoids c [] = Unit {0}
Avoids c (x ∷ xs) = ((x == c) ≡ false) × Avoids c xs

-- No two neighbours of a list are `c` and `d`.
abbrev pub AvoidsPair : ℕ → ℕ → List ℕ → Type 0
AvoidsPair c d [] = Unit {0}
AvoidsPair c d (x ∷ []) = Unit {0}
AvoidsPair c d (x ∷ y ∷ xs) = ((x == c && y == d) ≡ false) × AvoidsPair c d (y ∷ xs)

memchr-some :
    (xs : List ℕ) (c i : ℕ)
    → memchr xs c ≡ some i
    → Avoids c (take i xs) × (get_elem? xs i ≡ some c)
unfolding memchr
memchr-some [] c i h = cc
memchr-some (x ∷ xs) c zero h = ground (arith, ==_iff x c)
memchr-some (x ∷ xs) c (suc i) h = ground (arith, memchr-some xs c i)

memchr-none : (xs : List ℕ) (c : ℕ) → memchr xs c ≡ none → Avoids c xs
unfolding memchr
memchr-none [] c h = tt
memchr-none (x ∷ xs) c h = ground (arith, memchr-none xs c)

search_pair-some :
    (xs : List ℕ) (c d i : ℕ)
    → search_pair xs c d ≡ some i
    → AvoidsPair c d (take (suc i) xs) × (get_elem? xs i ≡ some c) × (get_elem? xs (suc i) ≡ some d)
unfolding search_pair
search_pair-some [] c d i h = cc
search_pair-some (x ∷ []) c d i h = cc
search_pair-some (x ∷ y ∷ xs) c d zero h = ground (arith, ==_iff x c, ==_iff y d)
search_pair-some (x ∷ y ∷ xs) c d (suc i) h = ground (arith, search_pair-some (y ∷ xs) c d i)

search_pair-none : (xs : List ℕ) (c d : ℕ) → search_pair xs c d ≡ none → AvoidsPair c d xs
unfolding search_pair
search_pair-none [] c d h = tt
search_pair-none (x ∷ []) c d h = tt
search_pair-none (x ∷ y ∷ xs) c d h = ground (arith, search_pair-none (y ∷ xs) c d)

module _ {b : MsgBuffer} (v : IsValid b) where
  find_crlf-search :
      find_crlf b ≡ some (Option.map (λ i. peek b + i) (search_pair (contents b) cr lf))
  unfolding find_crlf contents
  find_crlf-search = ground (arith, v)

  find_eol-search : find_eol b ≡ some (Option.map (λ i. peek b + i) (memchr (contents b) lf))
  unfolding find_eol contents
  find_eol-search = ground (arith, v)

  -- On a valid buffer findCRLF gives NULL only if no CR LF is readable, and otherwise the place of
  -- the first one.
  pub find_crlf_lem :
      ((find_crlf b ≡ some none) × AvoidsPair cr lf (contents b))
      ⊎ ((i : ℕ) × (find_crlf b ≡ some (some (peek b + i)))
          × (get_elem? (contents b) i ≡ some cr)
          × (get_elem? (contents b) (suc i) ≡ some lf)
          × AvoidsPair cr lf (take (suc i) (contents b)))
  find_crlf_lem = elim (Option-cases (search_pair (contents b) cr lf)) [
    | inl e ↦ inl (rw (find_crlf-search, e), search_pair-none (contents b) cr lf e)
    | inr (i, e) ↦
        let (before, first, second) = search_pair-some (contents b) cr lf i e in
        inr (i, rw (find_crlf-search, e), first, second, before)
  ]

  -- `findEOL` gives NULL only if no line feed is readable, and otherwise the place of the first one.
  pub find_eol_lem :
      ((find_eol b ≡ some none) × Avoids lf (contents b))
      ⊎ ((i : ℕ) × (find_eol b ≡ some (some (peek b + i)))
          × (get_elem? (contents b) i ≡ some lf)
          × Avoids lf (take i (contents b)))
  find_eol_lem = elim (Option-cases (memchr (contents b) lf)) [
    | inl e ↦ inl (rw (find_eol-search, e), memchr-none (contents b) lf e)
    | inr (i, e) ↦
        let (before, here) = memchr-some (contents b) lf i e in
        inr (i, rw (find_eol-search, e), here, before)
  ]
