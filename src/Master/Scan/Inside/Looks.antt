-- ===== src/Master/Scan/Inside/Looks.antt =====
-- What one entry of a directory comes to in crates/cvd-master/src/manifest/dir_scan.rs.
use cvdbench.Base.{
  ◌≡◌, refl, sym, ap, ◌∙◌, Bool, true, false, [], ◌∷◌, ◌++◌, Option, none, some, Text,
  if◌then◌else◌, test,
}
use cvdbench.Base.Results.{Result, ok, err, map_err, ok_or, ◌>>=◌}
use cvdbench.PathSafe.{PathSafeError, normalize_relative}
use cvdbench.Master.Scan.Entries.{
  Pieces, FileType, symlink, regular, directory, other, Entry, path_escape, Found, found_file,
  found_dir, skipped, strip_prefix, to_string_lossy, os_text_eq, file_entry, look_at,
}

decided : {P : Type 0} (d : Dec P) → test d ≡ true → P
decided (yes p) h = p
decided (no p) h = cc

chosen :
    (b : Bool) (o : Option Pieces) (rel : Pieces)
    → (if b then o else none) ≡ some rel
    → (b ≡ true) × (o ≡ some rel)
chosen true o rel h = (refl, h)
chosen false o rel h = cc

strip_prefix-some :
    (mount path rel : Pieces) → strip_prefix mount path ≡ some rel → path ≡ mount ++ rel
unfolding strip_prefix
strip_prefix-some [] path rel h = cc
strip_prefix-some (m ∷ ms) [] rel h = cc
strip_prefix-some (m ∷ ms) (p ∷ ps) rel h =
    let (e, g) = chosen (test (os_text_eq m p)) (strip_prefix ms ps) rel h in
    ap (λ x. x ∷ ps) (sym (decided (os_text_eq m p) e))
    ∙ ap (λ (l : Pieces). m ∷ l) (strip_prefix-some ms ps rel g)

-- The steps of `file_entry` after the canonical path, which went well.
named :
    (r : Result PathSafeError Text) (f : Text)
    → (map_err (λ e. path_escape) r >>= λ fs_path. ok (found_file fs_path)) ≡ ok (found_file f)
    → r ≡ ok f
named (ok x) f h = cc
named (err e) f h = cc

stripped :
    (o : Option Pieces) (g : Pieces → Result PathSafeError Text) (f : Text)
    → (ok_or o path_escape >>= λ rel.
        map_err (λ e. path_escape) (g rel) >>= λ fs_path. ok (found_file fs_path))
      ≡ ok (found_file f)
    → (rel : Pieces) × (o ≡ some rel) × (g rel ≡ ok f)
stripped none g f h = cc
stripped (some rel) g f h = (rel, refl, named (g rel) f h)

file_entry-inside :
    (mount : Pieces) (canonical : Option Pieces) (f : Text)
    → file_entry mount canonical ≡ ok (found_file f)
    → (rel : Pieces) × (canonical ≡ some (mount ++ rel))
      × (normalize_relative (to_string_lossy rel) ≡ ok f)
unfolding file_entry
file_entry-inside mount none f h = cc
file_entry-inside mount (some canon) f h =
    let (rel, e, g) =
      stripped (strip_prefix mount canon) (λ rel. normalize_relative (to_string_lossy rel)) f h in
    (rel, ap some (strip_prefix-some mount canon rel e), g)

found_at :
    (o : Option Pieces) (x y : Found)
    → (ok_or o path_escape >>= λ (rel : Pieces). ok x) ≡ ok y
    → x ≡ y
found_at none x y h = cc
found_at (some rel) x y h = cc

dir_at :
    (o : Option Pieces) (y : Found)
    → (ok_or o path_escape >>= λ rel. ok (found_dir rel)) ≡ ok y
    → (rel : Pieces) × (o ≡ some rel) × (y ≡ found_dir rel)
dir_at none y h = cc
dir_at (some rel) y h = (rel, refl, cc)

named_found :
    (r : Result PathSafeError Text) (y : Found)
    → (map_err (λ e. path_escape) r >>= λ fs_path. ok (found_file fs_path)) ≡ ok y
    → (f : Text) × (y ≡ found_file f)
named_found (ok x) y h = (x, cc)
named_found (err e) y h = cc

file_found :
    (o : Option Pieces) (g : Pieces → Result PathSafeError Text) (y : Found)
    → (ok_or o path_escape >>= λ rel.
        map_err (λ e. path_escape) (g rel) >>= λ fs_path. ok (found_file fs_path))
      ≡ ok y
    → (f : Text) × (y ≡ found_file f)
file_found none g y h = cc
file_found (some rel) g y h = named_found (g rel) y h

file_entry-file :
    (mount : Pieces) (canonical : Option Pieces) (y : Found)
    → file_entry mount canonical ≡ ok y
    → (f : Text) × (y ≡ found_file f)
unfolding file_entry
file_entry-file mount none y h = cc
file_entry-file mount (some canon) y h =
    file_found (strip_prefix mount canon) (λ rel. normalize_relative (to_string_lossy rel)) y h

same_dir : (d rel : Pieces) → found_dir d ≡ found_dir rel → rel ≡ d
same_dir d rel h = cc

-- What an entry that is pushed is.
abbrev pub Right : Pieces → Entry → FileType → Found → Type 0
Right mount e kind (found_file f) =
    (kind ≡ regular)
    × ((rel : Pieces) × (e.canonical ≡ some (mount ++ rel))
        × (normalize_relative (to_string_lossy rel) ≡ ok f))
Right mount e kind (found_dir d) = (kind ≡ directory) × (e.path ≡ mount ++ d)
Right mount e kind skipped = Unit

pub look_at-Right :
    (mount : Pieces) (e : Entry) (kind : FileType) (y : Found)
    → look_at mount e kind ≡ ok y
    → Right mount e kind y
unfolding look_at file_entry
look_at-Right mount e symlink skipped h = tt
look_at-Right mount e symlink (found_file f) h = cc
look_at-Right mount e symlink (found_dir d) h = cc
look_at-Right mount e regular (found_file f) h = (refl, file_entry-inside mount e.canonical f h)
look_at-Right mount e regular (found_dir d) h =
    let (f, k) = file_entry-file mount e.canonical (found_dir d) h in cc
look_at-Right mount e regular skipped h = tt
look_at-Right mount e directory (found_dir d) h =
    let (rel, g, k) = dir_at (strip_prefix mount e.path) (found_dir d) h in
    (
      refl,
      strip_prefix-some mount e.path rel g ∙ ap (λ (r : Pieces). mount ++ r) (same_dir d rel k),
    )
look_at-Right mount e directory (found_file f) h =
    let (rel, g, k) = dir_at (strip_prefix mount e.path) (found_file f) h in cc
look_at-Right mount e directory skipped h = tt
look_at-Right mount e other (found_file f) h =
    let k = found_at (strip_prefix mount e.path) skipped (found_file f) h in cc
look_at-Right mount e other (found_dir d) h =
    let k = found_at (strip_prefix mount e.path) skipped (found_dir d) h in cc
look_at-Right mount e other skipped h = tt
