-- ===== src/Metrics.antt =====
-- What crates/cvd-common/src/metrics takes from outside the repository: floating-point arithmetic and
-- the hdrhistogram crate. Both are parameters of the model.
pub mod Aggregate
use cvdbench.Base.{ℕ, Bool, Option}
use cvdbench.Base.Int.{ℤ}
use cvdbench.Proto.Reports.{F64, Bytes}

pub record Platform : Type 1 where
  -- hdrhistogram: `deserialize`, `serialize` (none on an error), `add` with its error ignored.
  pub Histogram : Type 0
  pub decode : Bytes → Option Histogram
  pub encode_v2_compressed : Histogram → Option Bytes
  pub merge : Histogram → Histogram → Histogram
  pub has_samples : Histogram → Bool
  pub value_at_quantile : Histogram → F64 → ℕ
  pub greatest : Histogram → ℕ
  pub mean : Histogram → F64
  -- f64: a conversion, a quotient, `> 0.0` and `is_finite`.
  pub of_int : ℤ → F64
  pub quotient : F64 → F64 → F64
  pub is_above_zero : F64 → Bool
  pub is_finite : F64 → Bool
