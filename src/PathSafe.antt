-- ===== src/PathSafe.antt =====
-- crates/cvd-common/src/path_safe.rs: which relative paths are safe, and their normal form.
use cvdbench.Base.{
  ℕ, Bool, false, List, [], ◌∷◌, Text, codes, if◌then◌else◌, has_char, starts_with_char, is_empty,
  same, ◌==◌, reverse,
}
use cvdbench.Base.Results.{Result, ok, err, ◌>>=◌}

pub data PathSafeError : Type 0 where
  empty : PathSafeError
  nul_byte : Text → PathSafeError
  must_be_relative : Text → PathSafeError
  forbidden_component : Text → Text → PathSafeError

abbrev pub slash : ℕ
slash = b'/'

-- `str::split`: the first segment and the others.
unfoldable pub split_at : ℕ → Text → Text × List Text
split_at sep [] = ([], [])
split_at sep (c ∷ s) =
    let (cur, rest) = split_at sep s in if c == sep then ([], cur ∷ rest) else (c ∷ cur, rest)

unfoldable pub split : ℕ → Text → List Text
unfolding split_at
split sep s = (split_at sep s).0 ∷ (split_at sep s).1

unfoldable pub check_segments : Text → List Text → Result PathSafeError (Unit {0})
check_segments path [] = ok tt
check_segments path (segment ∷ segments) =
    let rest = check_segments path segments in
    if same segment (codes ".")
    then err (forbidden_component path (codes "."))
    else if same segment (codes "..")
    then err (forbidden_component path (codes ".."))
    else rest

unfoldable pub validate_relative : Text → Result PathSafeError (Unit {0})
unfolding check_segments split
validate_relative path =
    if is_empty path
    then err empty
    else if has_char 0 path
    then err (nul_byte path)
    else if starts_with_char slash path
    then err (must_be_relative path)
    else check_segments path (split slash path)

-- The loop that folds repeated slashes; the flag is `prev_slash`.
unfoldable pub fold_slashes : Bool → Text → Text
fold_slashes prev_slash [] = []
fold_slashes prev_slash (c ∷ s) =
    let folded = fold_slashes (c == slash) s in
    if c == slash then (if prev_slash then folded else c ∷ folded) else c ∷ folded

-- `while out.ends_with('/') { out.pop(); }`.
unfoldable pub drop_slashes : Text → Text
drop_slashes [] = []
drop_slashes (c ∷ s) = let rest = drop_slashes s in if c == slash then rest else c ∷ s

unfoldable pub pop_slashes : Text → Text
unfolding drop_slashes
pop_slashes s = reverse (drop_slashes (reverse s))

unfoldable pub normalize_relative : Text → Result PathSafeError Text
unfolding validate_relative fold_slashes pop_slashes
normalize_relative path =
    if has_char b'\\' path then err (forbidden_component path (codes "\\")) else (do
      _ ← validate_relative path
      let out = pop_slashes (fold_slashes false path)
      if is_empty out then err empty else ok out)
