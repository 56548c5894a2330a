-- ===== src/FileMgr/Rotate.antt =====
-- What becomes of a log's contents: base/FileMgr.cc, lines 96 to 148, and base/FileLog.cc, lines 23 to
-- 59.
use wl_tmm.Prelude.{
  ℕ, ◌<◌, ◌≡◌, refl, ap, ◌∙◌, none, some, List, [], ◌++◌, true, false, length, take, arith, inl,
  inr, List-cases,
}
use wl_tmm.Prelude.Maps.{
  text_eq, list_beq, list_beq_iff, lookup, insert, erase, lookup-insert, lookup-erase,
}
use wl_tmm.FileMgr.{
  Files, FileLog, contents_of, opened, moved, rotate, rotate_file, rotated_name, write_log,
  file_size,
}

-- A log whose descriptor is the file at its path.
pub record IsOpen (files : Files) (f : FileLog) (text : List ℕ) : Type 0 where
  pub fd : f.fd ≡ some f.path
  pub named : 0 < length f.path
  pub holds : lookup f.path files ≡ some text

rotate-IsOpen :
    (name text : List ℕ) (files : Files) (f : FileLog)
    → IsOpen files f text
    → rotate true true name (files, f)
      ≡ (opened (moved f.path name text files) f.path, record f { fd = some f.path })
unfolding rotate
rotate-IsOpen name text files f o = elim (List-cases f.path) [
  | inl empty ↦ absurd (ground (arith, empty, o.named))
  | inr (c, cs, e) ↦ ground (arith, e, o.holds)
]

rotate_file-IsOpen :
    (buf text : List ℕ) (files : Files) (f : FileLog)
    → IsOpen files f text
    → 0 < length text
    → rotate_file true true buf (files, f) ≡ (
      opened (moved f.path (rotated_name buf f.path) text files) f.path,
      record f { fd = some f.path },
    )
unfolding rotate_file file_size
rotate_file-IsOpen buf text files f o some_text =
    ground (arith, o.fd, o.holds, some_text, rotate-IsOpen (rotated_name buf f.path) text files f o)

-- A rotation that succeeds puts the contents at the new name and an empty file at the path.
opened-moved :
    (name text path : List ℕ) (files : Files)
    → list_beq path name ≡ false
    → (lookup name (opened (moved path name text files) path) ≡ some text)
      × (lookup path (opened (moved path name text files) path) ≡ some [])
opened-moved name text path files other =
    let base : Files = insert name text (erase path files) in
    let named = lookup-insert name name text (erase path files) in
    let gone = lookup-insert name path text (erase path files) in
    let erased = lookup-erase path path files in
    let back : list_beq name path ≡ false =
      ground (arith, other, list_beq_iff path name, list_beq_iff name path) in
    let none_there : lookup path base ≡ none =
      ground (arith, gone, erased, back, list_beq_iff path path) in
    (
      ground (
        arith,
        other,
        named,
        list_beq_iff name name,
        lookup-insert path name (contents_of base path) base,
      ),
      ground (
        arith,
        other,
        none_there,
        list_beq_iff path path,
        lookup-insert path path (contents_of base path) base,
      ),
    )

write_log-IsOpen :
    (n : ℕ) (msg text : List ℕ) (files : Files) (f : FileLog)
    → IsOpen files f text
    → (write_log n msg (files, f) ≡ (insert f.path (text ++ take n msg) files, f))
      × IsOpen (insert f.path (text ++ take n msg) files) f (text ++ take n msg)
unfolding write_log
write_log-IsOpen n msg text files f o = (
  ground (arith, o.fd, o.holds),
  record {
    fd = o.fd;
    named = o.named;
    holds =
        ground (
          arith,
          lookup-insert f.path f.path (text ++ take n msg) files,
          list_beq_iff f.path f.path,
        );
  },
)

module _ (n : ℕ) (buf1 buf2 text msg : List ℕ) (files : Files) (f : FileLog) where
  -- Two rotations of an open log that succeed, with a message written in between, use the same
  -- name, whatever their dates are: the first puts the contents there, and the second replaces
  -- them by what write(2) took of the message. The log is then empty. The contents and these bytes are not empty, and
  -- the path of the log is not the rotated name.
  pub rotate_file-write_log-rotate_file :
      IsOpen files f text
      → 0 < length text
      → 0 < length (take n msg)
      → list_beq f.path (rotated_name buf1 f.path) ≡ false
      → let first = rotate_file true true buf1 (files, f) in
        let second = rotate_file true true buf2 (write_log n msg first) in
        (lookup (rotated_name buf1 f.path) first.0 ≡ some text)
        × (lookup (rotated_name buf1 f.path) second.0 ≡ some (take n msg))
        × (lookup f.path second.0 ≡ some [])
  unfolding rotated_name
  rotate_file-write_log-rotate_file o some_text some_msg other =
      let name : List ℕ = rotated_name buf1 f.path in
      let files1 : Files = opened (moved f.path name text files) f.path in
      let f1 : FileLog = record f { fd = some f.path } in
      let once = rotate_file-IsOpen buf1 text files f o some_text in
      let (kept, empty) = opened-moved name text f.path files other in
      let open1 : IsOpen files1 f1 [] = record { fd = refl; named = o.named; holds = empty } in
      let (wrote, open2) = write_log-IsOpen n msg [] files1 f1 open1 in
      let files2 : Files = insert f.path (take n msg) files1 in
      let again = rotate_file-IsOpen buf2 (take n msg) files2 f1 open2 some_msg in
      let (kept2, empty2) = opened-moved name (take n msg) f.path files2 other in
      let all : rotate_file true true buf2 (write_log n msg (rotate_file true true buf1 (files, f)))
          ≡ (opened (moved f.path name (take n msg) files2) f.path, f1) =
        ap (λ x. rotate_file true true buf2 (write_log n msg x)) once
        ∙ ap (rotate_file true true buf2) wrote
        ∙ again in
      (
        ap (λ x. lookup name x.0) once ∙ kept,
        ap (λ x. lookup name x.0) all ∙ kept2,
        ap (λ x. lookup f.path x.0) all ∙ empty2,
      )
