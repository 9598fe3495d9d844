-- ===== src/Parse/Number.antt =====
-- `split_leading_digits` of parse/size.rs and parse/duration.rs, and what they use of Rust's u64.
use cvdbench.Base.{
  ℕ, ◌+◌, ◌-◌, ◌*◌, ◌^◌, Bool, true, ◌&&◌, [], ◌∷◌, Option, none, some, Text, if◌then◌else◌, leb,
  is_digit, ◌==◌,
}

abbrev pub max_u64 : ℕ
max_u64 = 2 ^ 64 - 1

unfoldable pub split_leading_digits : Text → Text × Text
split_leading_digits [] = ([], [])
split_leading_digits (c ∷ s) =
    let (digits, rest) = split_leading_digits s in
    if is_digit c then (c ∷ digits, rest) else ([], c ∷ s)

-- The number that digits spell behind `n`.
abbrev pub value : ℕ → Text → ℕ
value n [] = n
value n (c ∷ s) = value (n * 10 + (c - b'0')) s

abbrev pub all_digits : Text → Bool
all_digits [] = true
all_digits (c ∷ s) = is_digit c && all_digits s

abbrev pub checked : ℕ → Option ℕ
checked n = if leb n max_u64 then some n else none

unfoldable pub parse_digits : Text → Option ℕ
parse_digits [] = none
parse_digits (c ∷ s) = if all_digits (c ∷ s) then checked (value 0 (c ∷ s)) else none

-- `str::parse::<u64>`: a plus sign may stand in front.
unfoldable pub parse_u64 : Text → Option ℕ
unfolding parse_digits
parse_u64 [] = none
parse_u64 (c ∷ s) = if c == b'+' then parse_digits s else parse_digits (c ∷ s)

unfoldable pub checked_mul : ℕ → ℕ → Option ℕ
checked_mul a b = checked (a * b)

unfoldable pub checked_add : ℕ → ℕ → Option ℕ
checked_add a b = checked (a + b)
