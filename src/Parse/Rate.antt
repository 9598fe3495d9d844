-- ===== src/Parse/Rate.antt =====
-- crates/cvd-common/src/parse/rate.rs: a throughput or a number of operations per second.
use cvdbench.Base.{
  ℕ, Option, none, some, Text, codes, if◌then◌else◌, trim, trim_end, strip_suffix, is_empty,
}
use cvdbench.Base.Results.{Result, ok, err, ◌>>=◌, ok_or}
use cvdbench.Parse.{rate_limit, ParseError, missing_number, invalid_number, invalid_shape}
use cvdbench.Parse.Number.{parse_u64}
use cvdbench.Parse.Size.{parse_size_field}

pub data RateLimit : Type 0 where
  throughput : ℕ → RateLimit
  iops : ℕ → RateLimit

unfoldable pub parse_iops : Text → Text → Result ParseError (Option RateLimit)
unfolding parse_u64
parse_iops input num_str = if is_empty num_str then err (missing_number rate_limit input) else (do
  ops ← ok_or (parse_u64 num_str) (invalid_number rate_limit num_str input)
  ok (some (iops ops)))

unfoldable pub parse_throughput : Text → Text → Result ParseError (Option RateLimit)
unfolding parse_size_field
parse_throughput input size_part = do
  bytes ← parse_size_field size_part rate_limit
  n ← ok_or bytes (missing_number rate_limit input)
  ok (some (throughput n))

unfoldable pub rate_of_trimmed : Text → Text → Result ParseError (Option RateLimit)
unfolding parse_iops parse_throughput strip_suffix trim_end
rate_of_trimmed input trimmed = elim (strip_suffix (codes "iops") trimmed) [
  | some num_str ↦ parse_iops input (trim_end num_str)
  | none ↦ elim (strip_suffix (codes "/s") trimmed) [
    | some size_part ↦ parse_throughput input size_part
    | none ↦ err (invalid_shape rate_limit input)
  ]
]

unfoldable pub parse_rate_limit : Text → Result ParseError (Option RateLimit)
unfolding rate_of_trimmed trim
parse_rate_limit input =
    if is_empty (trim input) then ok none else rate_of_trimmed input (trim input)
