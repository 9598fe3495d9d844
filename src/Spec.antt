-- ===== src/Spec.antt =====
-- crates/cvd-common/src/spec.rs: the specification of a benchmark with its fields parsed. Durations
-- are in nanoseconds, sizes in bytes.
pub mod Convert
pub mod Redact
pub mod Validate
use cvdbench.Base.{ℕ, Bool, List, Option, Text}
use cvdbench.Base.Int.{ℤ}
use cvdbench.Parse.{ParseError}
use cvdbench.Parse.Rate.{RateLimit}

-- The message of a conversion error, by its format string.
pub data Reason : Type 0 where
  must_be_set must_fit negative neither_set mutually_exclusive : Reason
  unsupported : Text → Reason
  not_positive : ℤ → Reason

pub data SpecConvertError : Type 0 where
  parse : Text → ParseError → SpecConvertError
  bad : Text → Reason → SpecConvertError

pub data IoMode : Type 0 where
  seq rand : IoMode

pub data MetadataOp : Type 0 where
  create mkdir stat open_file readdir : MetadataOp

pub data SizeDistribution : Type 0 where
  uniform log_uniform : SizeDistribution

pub data WriteSize : Type 0 where
  fixed : ℕ → WriteSize
  range : ℕ → ℕ → SizeDistribution → WriteSize

pub data ReadSource : Type 0 where
  file_manifest : Text → ReadSource
  dir_manifest : Text → ReadSource

pub record ConsistencyConfig : Type 0 where
  pub bucket_name : Text
  pub bucket_url : Text
  pub access_key : Text
  pub secret_key : Text
  pub region : Text
  pub prefix : Text
  pub session_token : Text

pub record ReadConfig : Type 0 where
  pub concurrency : ℕ
  pub source : ReadSource
  pub think_time : Option ℕ
  pub rate_limit : Option RateLimit
  pub s3_consistency_check : Option ConsistencyConfig
  pub loop_files : Bool

pub record WriteConfig : Type 0 where
  pub concurrency : ℕ
  pub dir : Text
  pub size : WriteSize
  pub fsync : Bool
  pub cleanup : Bool
  pub think_time : Option ℕ
  pub rate_limit : Option RateLimit
  pub verify_after_write : Bool

pub record MetadataConfig : Type 0 where
  pub concurrency : ℕ
  pub dir : Text
  pub dir_manifest : Option Text
  pub ops : List MetadataOp
  pub read_only : Bool
  pub read_only_scan_limit : ℕ
  pub depth : ℕ
  pub width : ℕ
  pub files_per_dir : ℕ
  pub layout_concurrency : ℕ
  pub think_time : Option ℕ
  pub rate_limit : Option RateLimit

pub record BenchSpec : Type 0 where
  pub fs_name : Text
  pub io_mode : IoMode
  pub io_aligned : Bool
  pub direct_io : Bool
  pub block_size : ℕ
  pub duration : ℕ
  pub warmup : ℕ
  pub target_workers : ℕ
  pub read : Option ReadConfig
  pub write : Option WriteConfig
  pub metadata : Option MetadataConfig
