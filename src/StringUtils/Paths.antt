-- ===== src/StringUtils/Paths.antt =====
-- The parts of a file's path: base/StringUtils.cc, lines 44 to 86.
use wl_tmm.Prelude.{
  ℕ, suc, ◌+◌, ◌<◌, ◌≡◌, refl, sym, ap, ◌∙◌, none, some, List, [], ◌∷◌, ◌++◌, Bool, true, false,
  length, length-append, drop, take-append_eq, drop-append_eq, arith, append_assoc,
}
use wl_tmm.StringUtils.{
  find_last_of, is_separator, is_dot, file_path, file_name_ext, file_name, extension, stem_of,
  extension_of, dot,
}

-- No character of a string passes a test.
abbrev pub AllFail : (ℕ → Bool) → List ℕ → Type 0
AllFail p [] = Unit {0}
AllFail p (c ∷ s) = (p c ≡ false) × AllFail p s

find_last_of-AllFail : (p : ℕ → Bool) (s : List ℕ) → AllFail p s → find_last_of p s ≡ none
unfolding find_last_of
find_last_of-AllFail p [] h = refl
find_last_of-AllFail p (c ∷ s) (h, rest) = ground (arith, h, find_last_of-AllFail p s rest)

-- The last character that passes is found behind any text.
find_last_of-append :
    (p : ℕ → Bool) (s t : List ℕ) (c : ℕ)
    → p c ≡ true
    → AllFail p t
    → find_last_of p (s ++ c ∷ t) ≡ some (length s)
unfolding find_last_of
find_last_of-append p [] t c is rest = ground (arith, is, find_last_of-AllFail p t rest)
find_last_of-append p (x ∷ s) t c is rest = ground (arith, find_last_of-append p s t c is rest)

drop_suc : (s t : List ℕ) (c : ℕ) → drop (length s + 1) (s ++ c ∷ t) ≡ t
drop_suc s t c =
    ap (λ xs. drop (length s + 1) xs) (sym (append_assoc s (c ∷ []) t))
    ∙ drop-append_eq (length s + 1) (s ++ c ∷ []) t (omega (arith, length-append s (c ∷ [])))

-- A path with a separator splits at the last one: FilePath gives what stands before it, and
-- FileNameExt what stands behind it, which is not empty.
pub file_path-file_name_ext :
    (dir name : List ℕ) (c : ℕ)
    → is_separator c ≡ true
    → AllFail is_separator name
    → 0 < length name
    → (file_path (dir ++ c ∷ name) ≡ dir) × (file_name_ext (dir ++ c ∷ name) ≡ name)
unfolding file_path file_name_ext
file_path-file_name_ext dir name c is rest some_name =
    let found = find_last_of-append is_separator dir name c is rest in
    let size : length (dir ++ c ∷ name) ≡ length dir + suc (length name) =
      length-append dir (c ∷ name) in
    (
      ground (arith, found, take-append_eq (length dir) dir (c ∷ name) refl),
      ground (arith, found, some_name, size, drop_suc dir name c),
    )

module _ (base ext : List ℕ) (some_base : 0 < length base) where
  stem_of-append :
      find_last_of is_dot (base ++ dot ∷ ext) ≡ some (length base)
      → stem_of (base ++ dot ∷ ext) ≡ base
  unfolding stem_of
  stem_of-append found =
      ground (arith, found, some_base, take-append_eq (length base) base (dot ∷ ext) refl)

  extension_of-append :
      find_last_of is_dot (base ++ dot ∷ ext) ≡ some (length base)
      → extension_of (base ++ dot ∷ ext) ≡ ext
  unfolding extension_of
  extension_of-append found =
      ground (arith, found, some_base, length-append base (dot ∷ ext), drop_suc base ext dot)

-- FileName and Extension of a path with a separator split the name at its last dot, unless the dot
-- begins the name.
pub file_name-extension :
    (dir base ext : List ℕ) (c : ℕ)
    → is_separator c ≡ true
    → AllFail is_separator (base ++ dot ∷ ext)
    → AllFail is_dot ext
    → 0 < length base
    → (file_name (dir ++ c ∷ (base ++ dot ∷ ext)) ≡ base)
      × (extension (dir ++ c ∷ (base ++ dot ∷ ext)) ≡ ext)
unfolding file_name extension
file_name-extension dir base ext c is rest no_dot some_base =
    let size : length (base ++ dot ∷ ext) ≡ length base + suc (length ext) =
      length-append base (dot ∷ ext) in
    let (path, name) =
      file_path-file_name_ext dir (base ++ dot ∷ ext) c is rest (omega (arith, size)) in
    let found = find_last_of-append is_dot base ext dot refl no_dot in
    (
      ap stem_of name ∙ stem_of-append base ext some_base found,
      ap extension_of name ∙ extension_of-append base ext some_base found,
    )
