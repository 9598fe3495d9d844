-- ===== src/Parse.antt =====
-- crates/cvd-common/src/parse.rs: the errors of the three parsers, and the reading of numbers.
pub mod Number
pub mod Size
pub mod Rate
pub mod Duration
use cvdbench.Base.{Text}

-- The field that an error names.
pub data Field : Type 0 where
  duration size rate_limit : Field

pub data ParseError : Type 0 where
  missing_number : Field → Text → ParseError
  invalid_number : Field → Text → Text → ParseError
  invalid_unit : Field → Text → Text → ParseError
  overflow : Field → Text → ParseError
  invalid_shape : Field → Text → ParseError
