-- ===== src/StringUtils/Tests.antt =====
-- Strings for the theorems about base/StringUtils.cc.
use wl_tmm.Prelude.{ℕ, ◌≡◌, refl, some, List, [], ◌∷◌, codes}
use wl_tmm.StringUtils.Split.{
  split_string, non_empty_pieces, split_string-pieces, split_string-ends, split_loop, find_at,
  find_in,
}

abbrev long_text : List ℕ
long_text = 97 ∷ 98 ∷ []

abbrev short_text : List ℕ
short_text = 97 ∷ []

split_text :
    split_string (codes "a::b:::c") (codes "::") ≡ some (codes "a" ∷ codes "b" ∷ codes ":c" ∷ [])
unfolding split_string split_loop find_at find_in
split_text = refl

split_string-pieces_example :
    split_string (codes ",a,,bc") (codes ",") ≡ some (non_empty_pieces 44 (codes ",a,,bc"))
split_string-pieces_example = split_string-pieces (codes ",a,,bc") 44

split_ends : (ps : List (List ℕ)) × (split_string (codes "a::b") (codes "::") ≡ some ps)
split_ends = split_string-ends (codes "a::b") (codes "::")
