-- ===== src/Parse/Duration.antt =====
-- crates/cvd-common/src/parse/duration.rs: numbers with the units h, m, s and ms in a row. The loop
-- has the length of the text for its fuel, and every round takes two characters at least.
pub mod Fuel
use cvdbench.Base.{
  ℕ, zero, suc, ◌*◌, [], ◌∷◌, Option, none, some, Text, codes, if◌then◌else◌, trim, strip_prefix,
  is_empty, is_alphabetic, same, length,
}
use cvdbench.Base.Results.{Result, ok, err, ◌>>=◌, ok_or}
use cvdbench.Parse.{
  duration, ParseError, missing_number, invalid_number, invalid_unit, overflow, invalid_shape,
}
use cvdbench.Parse.Number.{split_leading_digits, parse_u64, checked_mul, checked_add}

unfoldable pub single_letter_unit : Text → Text × Text
single_letter_unit [] = ([], [])
single_letter_unit (c ∷ s) = if is_alphabetic c then (c ∷ [], s) else ([], c ∷ s)

unfoldable pub split_leading_unit : Text → Text × Text
unfolding strip_prefix single_letter_unit
split_leading_unit s = elim (strip_prefix (codes "ms") s) [
  | some rest ↦ (codes "ms", rest)
  | none ↦ single_letter_unit s
]

unfoldable pub unit_ms : Text → Text → Result ParseError ℕ
unfolding same
unit_ms input unit =
    if same unit (codes "ms")
    then ok 1
    else if same unit (codes "s")
    then ok 1_000
    else if same unit (codes "m")
    then ok 60_000
    else if same unit (codes "h")
    then ok 3_600_000
    else if is_empty unit
    then err (invalid_shape duration input)
    else err (invalid_unit duration unit input)

-- One round, from a number and what stands behind it: the new sum and the rest.
unfoldable pub add_segment : Text → ℕ → Text → Text → Result ParseError (ℕ × Text)
unfolding unit_ms split_leading_unit parse_u64 checked_mul checked_add
add_segment input total_ms num_str after_num =
    let (unit, after_unit) = split_leading_unit after_num in
    if is_empty num_str then err (missing_number duration input) else (do
      n ← ok_or (parse_u64 num_str) (invalid_number duration num_str input)
      ms ← unit_ms input unit
      segment_ms ← ok_or (checked_mul n ms) (overflow duration input)
      total ← ok_or (checked_add total_ms segment_ms) (overflow duration input)
      ok (total, after_unit))

unfoldable pub sum_segments : Text → ℕ → ℕ → Text → Result ParseError ℕ
unfolding add_segment split_leading_digits
sum_segments input fuel total_ms [] = ok total_ms
sum_segments input zero total_ms (c ∷ s) = ok total_ms
sum_segments input (suc fuel) total_ms (c ∷ s) =
    let (num_str, after_num) = split_leading_digits (c ∷ s) in
    elim (add_segment input total_ms num_str after_num) [
      | err e ↦ err e
      | ok (total, rest) ↦ sum_segments input fuel total rest
    ]

-- The duration is in nanoseconds: `Duration::from_millis`.
unfoldable pub parse_duration : Text → Result ParseError (Option ℕ)
unfolding sum_segments trim
parse_duration input = if is_empty (trim input) then ok none else (do
  total_ms ← sum_segments input (length (trim input)) 0 (trim input)
  ok (some (total_ms * 1_000_000)))
