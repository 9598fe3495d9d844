-- ===== src/Parse/Size.antt =====
-- crates/cvd-common/src/parse/size.rs: a number of bytes with a unit.
use cvdbench.Base.{
  ℕ, ◌^◌, List, [], ◌∷◌, Option, none, some, Text, codes, if◌then◌else◌, trim, is_empty, same,
}
use cvdbench.Base.Results.{Result, ok, err, ◌>>=◌, ok_or}
use cvdbench.Parse.{Field, size, ParseError, missing_number, invalid_number, invalid_unit, overflow}
use cvdbench.Parse.Number.{split_leading_digits, parse_u64, checked_mul}

-- The first row whose unit is spelled so.
unfoldable pub find_unit : Text → List (Text × ℕ) → Option ℕ
find_unit unit [] = none
find_unit unit ((u, m) ∷ rows) =
    let rest = find_unit unit rows in if same unit u then some m else rest

abbrev pub units : List (Text × ℕ)
units =
    (codes "", 1)
    ∷ (codes "B", 1)
    ∷ (codes "K", 1_000)
    ∷ (codes "KB", 1_000)
    ∷ (codes "M", 1_000_000)
    ∷ (codes "MB", 1_000_000)
    ∷ (codes "G", 1_000_000_000)
    ∷ (codes "GB", 1_000_000_000)
    ∷ (codes "T", 1_000_000_000_000)
    ∷ (codes "TB", 1_000_000_000_000)
    ∷ (codes "Ki", 2 ^ 10)
    ∷ (codes "KiB", 2 ^ 10)
    ∷ (codes "Mi", 2 ^ 20)
    ∷ (codes "MiB", 2 ^ 20)
    ∷ (codes "Gi", 2 ^ 30)
    ∷ (codes "GiB", 2 ^ 30)
    ∷ (codes "Ti", 2 ^ 40)
    ∷ (codes "TiB", 2 ^ 40)
    ∷ []

unfoldable pub unit_multiplier : Text → Option ℕ
unfolding find_unit same
unit_multiplier unit = find_unit unit units

-- A number and a unit, as they are split off `trimmed`.
unfoldable pub scaled_number : Text → Field → Text → Text → Result ParseError ℕ
unfolding unit_multiplier checked_mul parse_u64
scaled_number input field num_str suffix = do
  n ← ok_or (parse_u64 num_str) (invalid_number field num_str input)
  multiplier ← ok_or (unit_multiplier suffix) (invalid_unit field suffix input)
  ok_or (checked_mul n multiplier) (overflow field input)

unfoldable pub size_of_trimmed : Text → Field → Text → Result ParseError (Option ℕ)
unfolding scaled_number split_leading_digits
size_of_trimmed input field trimmed =
    let (num_str, suffix) = split_leading_digits trimmed in
    if is_empty num_str
    then err (missing_number field input)
    else (do bytes ← scaled_number input field num_str suffix; ok (some bytes))

unfoldable pub parse_size_field : Text → Field → Result ParseError (Option ℕ)
unfolding size_of_trimmed trim
parse_size_field input field =
    if is_empty (trim input) then ok none else size_of_trimmed input field (trim input)

unfoldable pub parse_size : Text → Result ParseError (Option ℕ)
unfolding parse_size_field
parse_size input = parse_size_field input size
