-- ===== src/Master/Scan/Inside.antt =====
-- What a scan of crates/cvd-master/src/manifest/dir_scan.rs pushes lies below the mount point.
mod Looks
use cvdbench.Base.{
  ◌≡◌, refl, sym, ap, ◌∙◌, subst, map, ℕ, Bool, true, false, List, [], ◌∷◌, ◌++◌, Option, none,
  some, Text, same, if◌then◌else◌, All, if_rule, ◌⊎◌, inl, inr, test, text_eq,
}
use cvdbench.Base.Results.{Result, ok, err, map_err, ok_or, ◌>>=◌}
use cvdbench.PathSafe.{PathSafeError, normalize_relative}
use cvdbench.Master.Scan.Entries.{
  Pieces, FileType, symlink, regular, directory, other, Entry, DirScanError, path_escape, metadata,
  read_dir, queue_closed, Turn, Scanned, Found, found_file, found_dir, skipped, strip_prefix,
  OsText, utf8, invalid, os_text, lossy, slashed, to_string_lossy, file_entry, look_at, turn_result,
  nothing_pushed, push_found, scan_turns, scan_one_dir,
}
use cvdbench.Master.Scan.Inside.Looks.{Right, look_at-Right}

-- One of the turns has an entry with the property.
abbrev pub AnyEntry : (Entry → Type 0) → List Turn → Type 0
AnyEntry P [] = ⊥
AnyEntry P (t ∷ ts) = ((e : Entry) × (t.entry ≡ some e) × P e) ⊎ AnyEntry P ts

-- Some name has bytes that are not UTF-8.
abbrev pub HasInvalid : Pieces → Type 0
HasInvalid path =
    (before : Pieces) × (after : Pieces) × (a : OsText) × (b : OsText) × (bytes : List ℕ) × (path
      ≡ before ++ (a ++ invalid bytes ∷ b) ∷ after)

-- A file's name is the normal form of the path; where a name on it is not UTF-8, of the path with
-- U+FFFD for what is not.
abbrev pub IsNamed : Pieces → Text → Type 0
IsNamed path f =
    ((names : List Text) × (path ≡ map os_text names) × (normalize_relative (slashed names) ≡ ok f))
    ⊎ (HasInvalid path × (normalize_relative (to_string_lossy path) ≡ ok f))

-- A regular file whose canonical path is below the mount point, and its name there.
abbrev pub IsFile : Pieces → Text → Entry → Type 0
IsFile mount f e =
    (e.file_type ≡ some regular)
    × ((rel : Pieces) × (e.canonical ≡ some (mount ++ rel)) × IsNamed rel f)

text_or_invalid :
    (cs : OsText)
    → ((t : Text) × (cs ≡ os_text t))
      ⊎ ((a : OsText) × (b : OsText) × (bytes : List ℕ) × (cs ≡ a ++ invalid bytes ∷ b))
text_or_invalid [] = inl ([], refl)
text_or_invalid (invalid bytes ∷ cs) = inr ([], cs, bytes, refl)
text_or_invalid (utf8 c ∷ cs) = elim (text_or_invalid cs) [
  | inl (t, e) ↦ inl (c ∷ t, ap (λ (x : OsText). utf8 c ∷ x) e)
  | inr (a, b, bytes, e) ↦ inr (utf8 c ∷ a, b, bytes, ap (λ (x : OsText). utf8 c ∷ x) e)
]

names_or_invalid :
    (path : Pieces) → ((names : List Text) × (path ≡ map os_text names)) ⊎ HasInvalid path
names_or_invalid [] = inl ([], refl)
names_or_invalid (n ∷ path) = elim (text_or_invalid n) [
  | inr (a, b, bytes, e) ↦ inr ([], path, a, b, bytes, ap (λ (x : OsText). x ∷ path) e)
  | inl (t, e) ↦ elim (names_or_invalid path) [
    | inl (names, g) ↦ inl (t ∷ names, rw (e, g) refl)
    | inr (before, after, a, b, bytes, g) ↦
        inr (n ∷ before, after, a, b, bytes, ap (λ (x : Pieces). n ∷ x) g)
  ]
]

lossy-os_text : (t : Text) → lossy (os_text t) ≡ t
unfolding lossy
lossy-os_text [] = refl
lossy-os_text (c ∷ t) = ap (λ (x : Text). c ∷ x) (lossy-os_text t)

map-lossy : (names : List Text) → map lossy (map os_text names) ≡ names
map-lossy [] = refl
map-lossy (t ∷ names) = rw (lossy-os_text t, map-lossy names) refl

named :
    (path : Pieces) (f : Text) → normalize_relative (to_string_lossy path) ≡ ok f → IsNamed path f
unfolding to_string_lossy
named path f h = elim (names_or_invalid path) [
  | inr i ↦ inr (i, h)
  | inl (names, e) ↦ inl (
    names,
    e,
    subst (λ (x : List Text). normalize_relative (slashed x) ≡ ok f)
        (ap (map lossy) e ∙ map-lossy names) h,
  )
]

-- A directory below the mount point.
abbrev pub IsDir : Pieces → Pieces → Entry → Type 0
IsDir mount d e = (e.file_type ≡ some directory) × (e.path ≡ mount ++ d)

abbrev pub Inside : Pieces → List Turn → Scanned → Type 0
Inside mount ts s =
    All (λ f. AnyEntry (IsFile mount f) ts) s.files × All (λ d. AnyEntry (IsDir mount d) ts) s.dirs

turn-Right :
    (mount : Pieces) (entry : Option Entry) (y : Found)
    → (ok_or entry read_dir >>= λ e. ok_or e.file_type metadata >>= λ kind. look_at mount e kind)
      ≡ ok y
    → (e : Entry) × (kind : FileType) × (entry ≡ some e)
      × (e.file_type ≡ some kind)
      × Right mount e kind y
turn-Right mount none y h = cc
turn-Right mount (some e) y h = typed e.file_type refl h
  where
    typed :
        (o : Option FileType)
        → e.file_type ≡ o
        → (ok_or o metadata >>= λ kind. look_at mount e kind) ≡ ok y
        → (e' : Entry) × (kind : FileType) × (some e ≡ some e')
          × (e'.file_type ≡ some kind)
          × Right mount e' kind y
    typed none g k = cc
    typed (some kind) g k = (e, kind, refl, g, look_at-Right mount e kind y k)

-- What the later turns push, they push with one turn more before them.
All-later :
    {A : Type 0} (P : A → Entry → Type 0) (t : Turn) (ts : List Turn) (xs : List A)
    → All (λ x. AnyEntry (P x) ts) xs
    → All (λ x. AnyEntry (P x) (t ∷ ts)) xs
All-later P t ts [] h = tt
All-later P t ts (x ∷ xs) h = (inr h.0, All-later P t ts xs h.1)

later-Inside :
    (mount : Pieces) (t : Turn) (ts : List Turn) (s : Scanned)
    → Inside mount ts s
    → Inside mount (t ∷ ts) s
later-Inside mount t ts s (f, d) =
    (All-later (IsFile mount) t ts s.files f, All-later (IsDir mount) t ts s.dirs d)

nothing-Inside :
    (mount : Pieces) (ts : List Turn) (e : Option DirScanError) → Inside mount ts (nothing_pushed e)
nothing-Inside mount ts e = (tt, tt)

push-Inside :
    (mount : Pieces) (t : Turn) (ts : List Turn) (s : Scanned) (r : Result DirScanError Found)
    → turn_result mount t ≡ r
    → Inside mount ts s
    → Inside mount (t ∷ ts) (push_found t.queue_open s r)
unfolding turn_result push_found
push-Inside mount t ts s (err e) g i = (tt, tt)
push-Inside mount t ts s (ok skipped) g i = later-Inside mount t ts s i
push-Inside mount t ts s (ok (found_file f)) g i =
    let (e, kind, a, b, c) = turn-Right mount t.entry (found_file f) g in
    let (rel, canonical, n) = c.1 in
    let (fs, ds) = later-Inside mount t ts s i in
    if_rule (Inside mount (t ∷ ts)) t.queue_open (record s { files = f ∷ s.files })
      (nothing_pushed (some queue_closed))
      (λ o. ((inl (e, a, (b ∙ ap some c.0, (rel, canonical, named rel f n))), fs), ds))
      (λ o. (tt, tt))
push-Inside mount t ts s (ok (found_dir d)) g i =
    let (e, kind, a, b, c) = turn-Right mount t.entry (found_dir d) g in
    let (fs, ds) = later-Inside mount t ts s i in
    if_rule (Inside mount (t ∷ ts)) t.queue_open (record s { dirs = d ∷ s.dirs })
      (nothing_pushed (some queue_closed)) (λ o. (fs, (inl (e, a, (b ∙ ap some c.0, c.1)), ds)))
      (λ o. (tt, tt))

scan_turns-Inside : (mount : Pieces) (ts : List Turn) → Inside mount ts (scan_turns mount ts)
unfolding scan_turns
scan_turns-Inside mount [] = (tt, tt)
scan_turns-Inside mount (t ∷ ts) =
    if_rule (Inside mount (t ∷ ts)) t.cancelled (nothing_pushed none)
      (push_found t.queue_open (scan_turns mount ts) (turn_result mount t)) (λ c. (tt, tt))
      (λ c.
        push-Inside mount t ts (scan_turns mount ts) (turn_result mount t) refl
          (scan_turns-Inside mount ts))

-- Whatever the entries of a directory, the errors of the system and the cancellation: each file that a
-- scan pushes, one of the entries is a regular file whose canonical path is the mount point followed
-- by a relative path, and what is pushed is the normal form of this path, or, if a name on it is not
-- UTF-8, of this path with U+FFFD for each sequence of bytes that is not; and for each directory that
-- it pushes, one of the entries is a directory whose path is the mount point followed by it.
pub scan_one_dir-Inside :
    (cancelled opens : Bool) (mount : Pieces) (turns : List Turn)
    → Inside mount turns (scan_one_dir cancelled opens mount turns)
unfolding scan_one_dir
scan_one_dir-Inside cancelled opens mount turns =
    if_rule (Inside mount turns) cancelled (nothing_pushed none) _ (λ c. (tt, tt))
      (λ c.
        if_rule (Inside mount turns) opens (scan_turns mount turns) (nothing_pushed (some read_dir))
          (λ o. scan_turns-Inside mount turns) (λ o. (tt, tt)))
