-- ===== src/Logger/Lines.antt =====
-- What stands in a log file after some statements: base/LogStream.cc, lines 21 to 58, and LogStream.h,
-- lines 32 to 43.
use wl_tmm.Prelude.{
  ℕ, suc, ◌+◌, ◌≡◌, refl, sym, ap, ◌∙◌, Option, none, some, List, [], ◌∷◌, ◌++◌, Bool, true, false,
  arith, append-nil, append_assoc, inl, inr, Bool-cases, Option-cases, if◌then◌else◌, take, drop,
  codes, ◌||◌, ◌==◌,
}
use wl_tmm.Prelude.Maps.{text_eq, list_beq, list_beq_iff, insert, lookup-insert}
use wl_tmm.StringUtils.{find_last_of}
use wl_tmm.EventLoop.Interest.{is_some}
use wl_tmm.FileMgr.{contents_of, write_log}
use wl_tmm.Config.{LoggerLevel, trace, debug, info, warn, error}
use wl_tmm.Logger.{
  Logger, Message, Output, slash, base_name, bracketed, log_string, is_logged, log_line, log,
  log_all, put_line, write, write_file,
}

-- The levels of which a logger of a level writes the messages.
abbrev pub written_levels : LoggerLevel → List LoggerLevel
written_levels trace = trace ∷ debug ∷ info ∷ warn ∷ error ∷ []
written_levels debug = debug ∷ info ∷ warn ∷ error ∷ []
written_levels info = info ∷ warn ∷ error ∷ []
written_levels warn = warn ∷ error ∷ []
written_levels error = warn ∷ error ∷ []

abbrev pub same_level : LoggerLevel → LoggerLevel → Bool
same_level trace trace = true
same_level debug debug = true
same_level info info = true
same_level warn warn = true
same_level error error = true
same_level _ _ = false

abbrev pub is_one_of : LoggerLevel → List LoggerLevel → Bool
is_one_of level [] = false
is_one_of level (l ∷ ls) = same_level l level || is_one_of level ls

is_logged-written :
    (lg : Logger) (level : LoggerLevel)
    → is_logged (some lg) level ≡ is_one_of level (written_levels lg.level)
unfolding is_logged
is_logged-written lg level = by_levels lg.level level
  where
    by_levels :
        (own level : LoggerLevel)
        → is_logged (some (record { level = own; has_log = lg.has_log })) level
          ≡ is_one_of level (written_levels own)
    by_levels trace trace = refl
    by_levels trace debug = refl
    by_levels trace info = refl
    by_levels trace warn = refl
    by_levels trace error = refl
    by_levels debug trace = refl
    by_levels debug debug = refl
    by_levels debug info = refl
    by_levels debug warn = refl
    by_levels debug error = refl
    by_levels info trace = refl
    by_levels info debug = refl
    by_levels info info = refl
    by_levels info warn = refl
    by_levels info error = refl
    by_levels warn trace = refl
    by_levels warn debug = refl
    by_levels warn info = refl
    by_levels warn warn = refl
    by_levels warn error = refl
    by_levels error trace = refl
    by_levels error debug = refl
    by_levels error info = refl
    by_levels error warn = refl
    by_levels error error = refl

-- What stands behind the last slash of a text, or the text.
abbrev pub has_slash : List ℕ → Bool
has_slash [] = false
has_slash (c ∷ s) = c == slash || has_slash s

abbrev pub after_slash : List ℕ → List ℕ
after_slash [] = []
after_slash (c ∷ s) = if has_slash s then after_slash s else if c == slash then s else c ∷ s

abbrev pub level_name : LoggerLevel → List ℕ
level_name trace = codes " TRACE "
level_name debug = codes " DEBUG "
level_name info = codes " INFO "
level_name warn = codes " WARN "
level_name error = codes " ERROR "

abbrev pub in_brackets : Option (List ℕ) → List ℕ
in_brackets none = []
in_brackets (some text) = codes "[" ++ (text ++ codes "]")

-- The texts one behind the other.
abbrev pub all_of : List (List ℕ) → List ℕ
all_of [] = []
all_of (t ∷ ts) = t ++ all_of ts

-- The line of a message.
abbrev pub line_of : Message → List ℕ
line_of m = all_of (
    m.time
    ∷ m.thread_id
    ∷ level_name m.level
    ∷ in_brackets (some (after_slash m.file ++ (codes ":" ++ m.line)))
    ∷ in_brackets m.func
    ∷ m.text
    ∷ codes "\n"
    ∷ [])

find_slash : (file : List ℕ) → is_some (find_last_of (λ c. c == slash) file) ≡ has_slash file
unfolding find_last_of
find_slash [] = refl
find_slash (c ∷ s) = elim (Option-cases (find_last_of (λ d. d == slash) s)) [
  | inl nowhere ↦ ground (arith, nowhere, find_slash s)
  | inr (i, there) ↦ ground (arith, there, find_slash s)
]

base_name-after_slash : (file : List ℕ) → base_name file ≡ after_slash file
unfolding base_name find_last_of
base_name-after_slash [] = refl
base_name-after_slash (c ∷ s) = elim (Option-cases (find_last_of (λ d. d == slash) s)) [
  | inl nowhere ↦ ground (arith, nowhere, find_slash s)
  | inr (i, there) ↦
      let behind : drop (i + 1) s ≡ after_slash s =
        ground (arith, there, base_name-after_slash s) in
      let next : drop (suc i + 1) (c ∷ s) ≡ drop (i + 1) s =
        ap (λ k. drop k (c ∷ s)) {x = suc i + 1} {y = suc (i + 1)} (omega arith) in
      ground (arith, there, find_slash s, behind, next)
]

log_string-level_name : (level : LoggerLevel) → log_string level ≡ level_name level
unfolding log_string
log_string-level_name trace = refl
log_string-level_name debug = refl
log_string-level_name info = refl
log_string-level_name warn = refl
log_string-level_name error = refl

bracketed_func :
    (func : Option (List ℕ))
    → elim func as (λ _. List ℕ) [ none ↦ [] | some f ↦ bracketed f ] ≡ in_brackets func
bracketed_func none = refl
bracketed_func (some f) = refl

log_line-line_of : (m : Message) → log_line m ≡ line_of m
unfolding log_line
log_line-line_of m =
    rw (base_name-after_slash m.file, log_string-level_name m.level, bracketed_func m.func) refl

-- The first bytes of the lines of the messages that are written, by how many write(2) takes.
unfoldable pub lines : LoggerLevel → List (Message × ℕ) → List ℕ
lines own [] = []
lines own ((m, n) ∷ ms) =
    let rest = lines own ms in
    if is_one_of m.level (written_levels own) then take n (line_of m) ++ rest else rest

-- A write to a log with a descriptor.
abbrev pub wrote : List ℕ → List ℕ → Output → Output
wrote name text o = record o { files = insert name (contents_of o.files name ++ text) o.files }

log-logged :
    (lg : Logger) (m : Message) (n : ℕ) (name : List ℕ) (o : Output)
    → lg.has_log ≡ true
    → o.file_log.fd ≡ some name
    → log (some lg) (m, n) o ≡ (
        if is_one_of m.level (written_levels lg.level)
        then wrote name (take n (line_of m)) o
        else o)
unfolding log put_line write write_file write_log
log-logged lg m n name o has fd =
    ground (arith, has, fd, is_logged-written lg m.level, log_line-line_of m)

contents_of-wrote :
    (name text n : List ℕ) (o : Output)
    → contents_of (wrote name text o).files n
      ≡ (if list_beq name n then contents_of o.files name ++ text else contents_of o.files n)
contents_of-wrote name text n o =
    ground (arith, lookup-insert name n (contents_of o.files name ++ text) o.files)

-- What a series of statements leaves.
pub record Holds (name text : List ℕ) (o o' : Output) : Type 0 where
  pub contents : contents_of o'.files name ≡ contents_of o.files name ++ text
  pub others :
      (n : List ℕ) → list_beq name n ≡ false → contents_of o'.files n ≡ contents_of o.files n
  pub stdout : o'.stdout ≡ o.stdout

Holds-wrote :
    (name text rest : List ℕ) (o o' : Output)
    → Holds name rest (wrote name text o) o'
    → Holds name (text ++ rest) o o'
Holds-wrote name text rest o o' h = record {
  contents = ground (
    arith,
    h.contents,
    contents_of-wrote name text name o,
    list_beq_iff name name,
    append_assoc (contents_of o.files name) text rest,
  );
  others = λ n other. h.others n other ∙ ground (arith, contents_of-wrote name text n o, other);
  stdout = h.stdout;
}

-- After any statements of a logger with an open log file, the file has behind its contents, in
-- their order, the lines of those whose level is among the ones that its level lets through, of
-- each as many bytes as write(2) takes; the other files and the standard output are as before. A
-- line is the time, the thread, the level, the file without its folders and the line in brackets,
-- the function in brackets if there is one, the text, and a line end.
pub log_all-lines :
    (lg : Logger) (ms : List (Message × ℕ)) (name : List ℕ) (o : Output)
    → lg.has_log ≡ true
    → o.file_log.fd ≡ some name
    → Holds name (lines lg.level ms) o (log_all (some lg) ms o)
unfolding log_all lines
log_all-lines lg [] name o has fd = record {
  contents = sym (append-nil (contents_of o.files name));
  others = λ n other. refl;
  stdout = refl;
}
log_all-lines lg ((m, n) ∷ ms) name o has fd =
    elim (Bool-cases (is_one_of m.level (written_levels lg.level))) [
      | inl logged ↦
          let text = take n (line_of m) in
          let one : log (some lg) (m, n) o ≡ wrote name text o =
            ground (arith, log-logged lg m n name o has fd, logged) in
          rw (logged, one)
            (Holds-wrote name text (lines lg.level ms) o (log_all (some lg) ms (wrote name text o))
              (log_all-lines lg ms name (wrote name text o) has fd))
      | inr quiet ↦
          let one : log (some lg) (m, n) o ≡ o =
            ground (arith, log-logged lg m n name o has fd, quiet) in
          rw (quiet, one) (log_all-lines lg ms name o has fd)
    ]
