-- ===== src/Master/Scan/Reader.antt =====
-- What the reader of crates/cvd-master/src/manifest/dir_scan.rs has pushed when it ends.
use cvdbench.Base.{
  ℕ, suc, ◌+◌, ◌≡◌, refl, ap, Bool, true, false, ◌||◌, List, [], ◌∷◌, Text, is_empty, trim,
  starts_with_char, if◌then◌else◌, All, test_rule,
}
use cvdbench.Base.Results.{Result, ok, err}
use cvdbench.PathSafe.{PathSafeError, validate_relative}
use cvdbench.Master.Scan.Entries.{
  ReaderEnd, reader_done, reader_cancelled, unsafe_line, push_failed, read_lines,
}

abbrev pub is_comment : Text → Bool
is_comment line = is_empty line || starts_with_char b'#' line

-- The trimmed lines but the empty ones and the comments.
unfoldable pub wanted : List Text → List Text
wanted [] = []
wanted (line ∷ lines) = if is_comment (trim line) then wanted lines else trim line ∷ wanted lines

-- All were pushed, in order, and all are safe.
abbrev pub ReadAll : List Text × ReaderEnd → List Text → Type 0
ReadAll r ds = (r.0 ≡ ds) × All (λ d. validate_relative d ≡ ok tt) ds

pushed_line :
    (queue_open : Bool) (idx : ℕ) (line : Text) (rest : List Text × ReaderEnd) (ds : List Text)
    (r : Result PathSafeError (Unit {0}))
    → validate_relative line ≡ r
    → (rest.1 ≡ reader_done → ReadAll rest ds)
    → let out : List Text × ReaderEnd = elim r [
      | err e ↦ ([], unsafe_line (idx + 1) e)
      | ok u ↦ if queue_open then (line ∷ rest.0, rest.1) else ([], push_failed)
    ] in
      out.1 ≡ reader_done → ReadAll out (line ∷ ds)
pushed_line queue_open idx line rest ds (err e) v later h = cc
pushed_line true idx line rest ds (ok tt) v later h =
    let (e, all) = later h in (ap (λ l. line ∷ l) e, (v, all))
pushed_line false idx line rest ds (ok tt) v later h = cc

-- The reader marks its end only after it has pushed the trimmed lines of the list in their order, but
-- for the empty ones and the comments, and all of them are safe relative paths.
pub read_lines-ReadAll :
    (cancelled queue_open : ℕ → Bool) (idx : ℕ) (lines : List Text)
    → (read_lines cancelled queue_open idx lines).1 ≡ reader_done
    → ReadAll (read_lines cancelled queue_open idx lines) (wanted lines)
unfolding read_lines wanted
read_lines-ReadAll cancelled queue_open idx [] h = (refl, tt)
read_lines-ReadAll cancelled queue_open idx (line ∷ lines) h =
    let rest = read_lines cancelled queue_open (suc idx) lines in
    let later = read_lines-ReadAll cancelled queue_open (suc idx) lines in
    let pushed : List Text × ReaderEnd = elim (validate_relative (trim line)) [
      | err e ↦ ([], unsafe_line (idx + 1) e)
      | ok u ↦ if queue_open idx then (trim line ∷ rest.0, rest.1) else ([], push_failed)
    ] in
    test_rule
      (λ b.
        (if b then ([], reader_cancelled) else if is_comment (trim line) then rest else pushed).1
          ≡ reader_done
        → ReadAll
            (if b then ([], reader_cancelled) else if is_comment (trim line) then rest else pushed)
            (if is_comment (trim line) then wanted lines else trim line ∷ wanted lines))
      (cancelled idx) (λ c g. cc)
      (λ c.
        test_rule
          (λ b.
            (if b then rest else pushed).1 ≡ reader_done
            → ReadAll (if b then rest else pushed)
                (if b then wanted lines else trim line ∷ wanted lines))
          (is_comment (trim line)) (λ e. later)
          (λ e.
            pushed_line (queue_open idx) idx (trim line) rest (wanted lines)
              (validate_relative (trim line)) refl later))
      h
