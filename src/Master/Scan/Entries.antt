-- ===== src/Master/Scan/Entries.antt =====
-- `scan_one_dir` and `run_reader` of crates/cvd-master/src/manifest/dir_scan.rs. A path is its
-- components. The file system, the cancel flag and the queues answer in a list of turns, one for each
-- entry of the directory, or by the index of a line.
use cvdbench.Base.{
  ℕ, suc, ◌+◌, Bool, ◌||◌, List, [], ◌∷◌, ◌++◌, Option, none, some, Text, is_empty, map, ℕ_discrete,
  test, trim, starts_with_char, if◌then◌else◌,
}
use cvdbench.Base.Results.{Result, ok, err, map_err, ok_or, ◌>>=◌}
use cvdbench.PathSafe.{PathSafeError, slash, validate_relative, normalize_relative}

-- A name is bytes: characters in UTF-8, and sequences of bytes that are none (`Utf8Chunks` of the
-- standard library, one element for each sequence that it calls invalid).
pub data OsChar : Type 0 where
  utf8 : ℕ → OsChar
  invalid : List ℕ → OsChar

abbrev pub OsText : Type 0
OsText = List OsChar

abbrev pub os_text : Text → OsText
os_text = map utf8

unfoldable pub os_text_eq : Discrete OsText
unfolding ℕ_discrete
os_text_eq = hlevel ℕ_discrete

abbrev pub Pieces : Type 0
Pieces = List OsText

pub data FileType : Type 0 where
  symlink regular directory other : FileType

-- An entry: its path, its type and its canonical path, `none` where the system gives an error.
pub record Entry : Type 0 where
  pub path : Pieces
  pub file_type : Option FileType
  pub canonical : Option Pieces

pub data DirScanError : Type 0 where
  read_dir metadata path_escape queue_closed : DirScanError

-- What a turn meets: the flag, the next entry or an error, and whether a push goes through.
pub record Turn : Type 0 where
  pub cancelled : Bool
  pub entry : Option Entry
  pub queue_open : Bool

-- What a scan has pushed, and its error if it has one.
pub record Scanned : Type 0 where
  pub files : List Text
  pub dirs : List Pieces
  pub error : Option DirScanError

-- What an entry comes to.
pub data Found : Type 0 where
  found_file : Text → Found
  found_dir : Pieces → Found
  skipped : Found

unfoldable pub strip_prefix : Pieces → Pieces → Option Pieces
unfolding os_text_eq
strip_prefix [] path = some path
strip_prefix (m ∷ ms) [] = none
strip_prefix (m ∷ ms) (p ∷ ps) = if test (os_text_eq m p) then strip_prefix ms ps else none

-- U+FFFD stands for each invalid sequence.
unfoldable pub lossy : OsText → Text
lossy [] = []
lossy (utf8 c ∷ cs) = c ∷ lossy cs
lossy (invalid bytes ∷ cs) = 0xfffd ∷ lossy cs

unfoldable pub slashed : List Text → Text
slashed [] = []
slashed (p ∷ []) = p
slashed (p ∷ q ∷ ps) = p ++ slash ∷ slashed (q ∷ ps)

-- Of a relative path, name by name: a slash is a character and ends an invalid sequence.
unfoldable pub to_string_lossy : Pieces → Text
unfolding lossy slashed
to_string_lossy path = slashed (map lossy path)

unfoldable pub file_entry : Pieces → Option Pieces → Result DirScanError Found
unfolding strip_prefix to_string_lossy normalize_relative
file_entry mount canonical = do
  canon ← ok_or canonical metadata
  rel ← ok_or (strip_prefix mount canon) path_escape
  fs_path ← map_err (λ e. path_escape) (normalize_relative (to_string_lossy rel))
  ok (found_file fs_path)

unfoldable pub look_at : Pieces → Entry → FileType → Result DirScanError Found
unfolding file_entry strip_prefix
look_at mount e symlink = ok skipped
look_at mount e regular = file_entry mount e.canonical
look_at mount e directory = do
  rel ← ok_or (strip_prefix mount e.path) path_escape
  ok (found_dir rel)
look_at mount e other = do rel ← ok_or (strip_prefix mount e.path) path_escape; ok skipped

unfoldable pub turn_result : Pieces → Turn → Result DirScanError Found
unfolding look_at
turn_result mount t = do
  e ← ok_or t.entry read_dir
  kind ← ok_or e.file_type metadata
  look_at mount e kind

abbrev pub nothing_pushed : Option DirScanError → Scanned
nothing_pushed e = record { files = []; dirs = []; error = e }

-- The push of what was found, before the later turns.
unfoldable pub push_found : Bool → Scanned → Result DirScanError Found → Scanned
push_found queue_open later (err e) = nothing_pushed (some e)
push_found queue_open later (ok skipped) = later
push_found queue_open later (ok (found_file f)) =
    if queue_open
    then record later { files = f ∷ later.files }
    else nothing_pushed (some queue_closed)
push_found queue_open later (ok (found_dir d)) =
    if queue_open
    then record later { dirs = d ∷ later.dirs }
    else nothing_pushed (some queue_closed)

unfoldable pub scan_turns : Pieces → List Turn → Scanned
unfolding turn_result push_found
scan_turns mount [] = nothing_pushed none
scan_turns mount (t ∷ ts) =
    let later = scan_turns mount ts in
    if t.cancelled then nothing_pushed none else push_found t.queue_open later (turn_result mount t)

-- With the flag at the start and whether `read_dir` opens the directory.
unfoldable pub scan_one_dir : Bool → Bool → Pieces → List Turn → Scanned
unfolding scan_turns
scan_one_dir cancelled opens mount turns =
    if cancelled
    then nothing_pushed none
    else if opens
    then scan_turns mount turns
    else nothing_pushed (some read_dir)

-- How the reader of the list ends.
pub data ReaderEnd : Type 0 where
  reader_done : ReaderEnd
  reader_cancelled : ReaderEnd
  unsafe_line : ℕ → PathSafeError → ReaderEnd
  push_failed : ReaderEnd

-- The directories that the reader pushes, from the line with the index `idx` on.
unfoldable pub read_lines : (ℕ → Bool) → (ℕ → Bool) → ℕ → List Text → List Text × ReaderEnd
unfolding trim validate_relative
read_lines cancelled queue_open idx [] = ([], reader_done)
read_lines cancelled queue_open idx (line ∷ lines) =
    let trimmed = trim line in
    let (dirs, last) = read_lines cancelled queue_open (suc idx) lines in
    if cancelled idx
    then ([], reader_cancelled)
    else if is_empty trimmed || starts_with_char b'#' trimmed
    then (dirs, last)
    else elim (validate_relative trimmed) [
      | err e ↦ ([], unsafe_line (idx + 1) e)
      | ok u ↦ if queue_open idx then (trimmed ∷ dirs, last) else ([], push_failed)
    ]
