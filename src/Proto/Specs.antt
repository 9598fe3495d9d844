-- ===== src/Proto/Specs.antt =====
-- proto/master.proto: the benchmark specification as it is sent and stored.
use cvdbench.Base.{Bool, List, Option, Text}
use cvdbench.Base.Int.{ℤ}

pub record ConsistencyConfig : Type 0 where
  pub bucket_name : Text
  pub bucket_url : Text
  pub access_key : Text
  pub secret_key : Text
  pub region : Text
  pub prefix : Text
  pub session_token : Text

pub record S3CredentialMaterial : Type 0 where
  pub access_key : Text
  pub secret_key : Text
  pub session_token : Text

pub record ReadConfig : Type 0 where
  pub concurrency : ℤ
  pub file_manifest : Text
  pub dir_manifest : Text
  pub think_time : Text
  pub rate_limit : Text
  pub s3_consistency_check : Option ConsistencyConfig
  pub loop_files : Bool

pub record FileSizeRange : Type 0 where
  pub min : Text
  pub max : Text
  pub distribution : Text

pub record WriteConfig : Type 0 where
  pub concurrency : ℤ
  pub dir : Text
  pub file_size : Text
  pub file_size_range : Option FileSizeRange
  pub fsync : Bool
  pub cleanup : Bool
  pub think_time : Text
  pub rate_limit : Text
  pub verify_after_write : Bool

pub record MetadataConfig : Type 0 where
  pub concurrency : ℤ
  pub dir : Text
  pub ops : List Text
  pub depth : ℤ
  pub width : ℤ
  pub files_per_dir : ℤ
  pub think_time : Text
  pub rate_limit : Text
  pub layout_concurrency : ℤ
  pub read_only : Bool
  pub read_only_scan_limit : ℤ
  pub dir_manifest : Text

pub record BenchSpec : Type 0 where
  pub fs_name : Text
  pub io_mode : Text
  pub io_aligned : Bool
  pub direct_io : Bool
  pub block_size : Text
  pub duration : Text
  pub warmup : Text
  pub read : Option ReadConfig
  pub write : Option WriteConfig
  pub metadata : Option MetadataConfig
  pub target_workers : ℤ
