-- ===== src/StringUtils.antt =====
-- base/StringUtils.cc: prefixes, suffixes and file names. A string is a list of characters' codes; a
-- call that throws is `none`.
pub mod Affixes
pub mod Paths
pub mod Split
mod Tests
use wl_tmm.Prelude.{
  ℕ, zero, suc, ◌+◌, ◌-◌, Option, none, some, List, [], ◌∷◌, ◌++◌, Bool, true, false, ◌&&◌, ◌||◌,
  not, ltb, ◌==◌, if◌then◌else◌, length, take, drop, sub_size,
}
use wl_tmm.Prelude.Maps.{list_beq}

-- `compare(pos, n, sub) == 0`: out of range, it throws.
unfoldable pub compare_at : List ℕ → ℕ → ℕ → List ℕ → Option Bool
compare_at s pos n sub =
    if ltb (length s) pos then none else some (list_beq (take n (drop pos s)) sub)

unfoldable pub start_with : List ℕ → List ℕ → Option Bool
start_with s [] = some true
start_with [] (x ∷ sub) = some false
start_with (c ∷ s) (x ∷ sub) =
    if ltb (length (x ∷ sub)) (length (c ∷ s))
    then some false
    else compare_at (c ∷ s) 0 (length (x ∷ sub)) (x ∷ sub)

unfoldable pub end_with : List ℕ → List ℕ → Option Bool
end_with s [] = some true
end_with [] (x ∷ sub) = some false
end_with (c ∷ s) (x ∷ sub) =
    let len = length (c ∷ s) in
    let slen = length (x ∷ sub) in
    if ltb slen len then some false else compare_at (c ∷ s) (sub_size len slen) slen (x ∷ sub)

-- `find_last_of`: `none` is npos.
unfoldable pub find_last_of : (ℕ → Bool) → List ℕ → Option ℕ
find_last_of p [] = none
find_last_of p (c ∷ s) = elim (find_last_of p s) [
  | some i ↦ some (suc i)
  | none ↦ if p c then some 0 else none
]

abbrev pub slash : ℕ
slash = 47

abbrev pub backslash : ℕ
backslash = 92

abbrev pub dot : ℕ
dot = 46

abbrev pub is_separator : ℕ → Bool
is_separator c = c == slash || c == backslash

abbrev pub is_dot : ℕ → Bool
is_dot c = c == dot

unfoldable pub file_path : List ℕ → List ℕ
file_path path = elim (find_last_of is_separator path) [
  | some pos ↦ take pos path
  | none ↦ dot ∷ slash ∷ []
]

unfoldable pub file_name_ext : List ℕ → List ℕ
file_name_ext path = elim (find_last_of is_separator path) [
  | some pos ↦ if ltb (pos + 1) (length path) then drop (pos + 1) path else path
  | none ↦ path
]

-- A file's name without its last dot and what follows, unless the dot begins the name.
unfoldable pub stem_of : List ℕ → List ℕ
stem_of name = elim (find_last_of is_dot name) [
  | some pos ↦ if not (pos == 0) then take pos name else name
  | none ↦ name
]

unfoldable pub file_name : List ℕ → List ℕ
file_name path = stem_of (file_name_ext path)

-- What follows the last dot of a file's name.
unfoldable pub extension_of : List ℕ → List ℕ
extension_of name = elim (find_last_of is_dot name) [
  | some pos ↦ if not (pos == 0) && ltb pos (length name) then drop (pos + 1) name else name
  | none ↦ name
]

unfoldable pub extension : List ℕ → List ℕ
extension path = extension_of (file_name_ext path)
