-- ===== src/Spec/Validate.antt =====
-- crates/cvd-common/src/spec/validate.rs: all violations of a specification, in the order of the
-- checks.
pub mod Layout
pub mod Accepted
use cvdbench.Base.{
  ℕ, zero, suc, ◌+◌, ◌*◌, ◌%◌, Bool, true, false, ◌&&◌, ◌||◌, not, List, [], ◌∷◌, ◌++◌, Option,
  none, some, Text, codes, if◌then◌else◌, is_empty, same, ltb, ◌==◌,
}
use cvdbench.Base.Map.{is_some}
use cvdbench.Base.Results.{Result, ok, err}
use cvdbench.Parse.Number.{max_u64}
use cvdbench.Parse.Rate.{RateLimit, throughput, iops}
use cvdbench.PathSafe.{PathSafeError, validate_relative}
use cvdbench.Spec.{
  MetadataOp, create, mkdir, stat, open_file, WriteSize, fixed, range, ReadSource, file_manifest,
  dir_manifest, ConsistencyConfig, ReadConfig, WriteConfig, MetadataConfig, BenchSpec,
}
use cvdbench.Spec.Redact.{redacted_mark}

-- The message of a violation, by its format string.
pub data Message : Type 0 where
  not_empty positive aligned needs_aligned_io needs_workload : Message
  below_duration min_above_max : ℕ → ℕ → Message
  needs_throughput needs_iops only_stat only_reads positive_for_files : Message
  soft_cap : ℕ → Message
  too_many_dirs too_many_files : ℕ → ℕ → Message
  unsafe_path : PathSafeError → Message

pub record Violation : Type 0 where
  pub field : Text
  pub message : Message

pub record LayoutCaps : Type 0 where
  pub max_depth : ℕ
  pub max_width : ℕ
  pub max_files_per_dir : ℕ
  pub max_total_dirs : ℕ
  pub max_total_files : ℕ

pub record ValidationContext : Type 0 where
  pub layout_caps : LayoutCaps
  pub allow_redacted_consistency_credentials : Bool

abbrev pub default_context : ValidationContext
default_context = record {
  layout_caps = record {
    max_depth = 8;
    max_width = 1_000;
    max_files_per_dir = 100_000;
    max_total_dirs = 100_000;
    max_total_files = 10_000_000;
  };
  allow_redacted_consistency_credentials = false;
}

-- `if wrong { r.push(Violation::new(field, message)) }`.
abbrev pub check : Bool → Text → Message → List Violation
check wrong field message = if wrong then record { field = field; message = message } ∷ [] else []

abbrev pub is_throughput : RateLimit → Bool
is_throughput (throughput n) = true
is_throughput (iops n) = false

abbrev pub wrong_rate : (RateLimit → Bool) → Option RateLimit → Bool
wrong_rate wanted none = false
wrong_rate wanted (some r) = not (wanted r)

unfoldable pub check_path : Text → Text → List Violation
check_path field path = elim (validate_relative path) [
  | ok _ ↦ []
  | err e ↦ record { field = field; message = unsafe_path e } ∷ []
]

unfoldable pub check_key : Bool → Text → Text → List Violation
check_key allow_redacted field key =
    check (is_empty key || (not allow_redacted && same key redacted_mark)) field not_empty

unfoldable pub validate_consistency : Bool → ConsistencyConfig → List Violation
unfolding check_key
validate_consistency allow s3 =
    check (is_empty s3.bucket_name) (codes "read.s3_consistency_check.bucket_name") not_empty
    ++ check (is_empty s3.bucket_url) (codes "read.s3_consistency_check.bucket_url") not_empty
    ++ check (is_empty s3.region) (codes "read.s3_consistency_check.region") not_empty
    ++ check_key allow (codes "read.s3_consistency_check.access_key") s3.access_key
    ++ check_key allow (codes "read.s3_consistency_check.secret_key") s3.secret_key

unfoldable pub check_source : ReadSource → List Violation
check_source (file_manifest path) = check (is_empty path) (codes "read.file_manifest") not_empty
check_source (dir_manifest path) = check (is_empty path) (codes "read.dir_manifest") not_empty

unfoldable pub validate_read : Bool → ReadConfig → List Violation
unfolding check_source validate_consistency
validate_read allow read =
    check (read.concurrency == 0) (codes "read.concurrency") positive
    ++ check_source read.source
    ++ check (wrong_rate is_throughput read.rate_limit) (codes "read.rate_limit") needs_throughput
    ++ (elim read.s3_consistency_check [ none ↦ [] | some s3 ↦ validate_consistency allow s3 ])

unfoldable pub check_size : WriteSize → List Violation
check_size (fixed bytes) = check (bytes == 0) (codes "write.file_size") positive
check_size (range least greatest distribution) =
    check (least == 0) (codes "write.file_size_range.min") positive
    ++ check (ltb greatest least) (codes "write.file_size_range") (min_above_max least greatest)

unfoldable pub validate_write : WriteConfig → List Violation
unfolding check_path check_size
validate_write write =
    check (write.concurrency == 0) (codes "write.concurrency") positive
    ++ check_path (codes "write.dir") write.dir
    ++ check_size write.size
    ++ check (wrong_rate is_throughput write.rate_limit) (codes "write.rate_limit") needs_throughput

unfoldable pub any_op : (MetadataOp → Bool) → List MetadataOp → Bool
any_op p [] = false
any_op p (op ∷ ops) = p op || any_op p ops

abbrev pub is_stat : MetadataOp → Bool
is_stat op = elim op [ stat ↦ true | _ ↦ false ]

abbrev pub makes_entry : MetadataOp → Bool
makes_entry op = elim op [ create ↦ true | mkdir ↦ true | _ ↦ false ]

abbrev pub needs_file : MetadataOp → Bool
needs_file op = elim op [ stat ↦ true | open_file ↦ true | _ ↦ false ]

abbrev pub saturating_add : ℕ → ℕ → ℕ
saturating_add a b = if ltb max_u64 (a + b) then max_u64 else a + b

abbrev pub saturating_mul : ℕ → ℕ → ℕ
saturating_mul a b = if ltb max_u64 (a * b) then max_u64 else a * b

-- The loop of `total_dirs`, with `sum` and `layer`.
unfoldable pub add_layers : ℕ → ℕ → ℕ → ℕ → ℕ
add_layers zero width sum layer = sum
add_layers (suc depth) width sum layer =
    let layer' = saturating_mul layer width in
    let sum' = saturating_add sum layer' in
    elim (sum' == max_u64) [ true ↦ sum' | false ↦ add_layers depth width sum' layer' ]

unfoldable pub total_dirs : ℕ → ℕ → ℕ
unfolding add_layers
total_dirs depth width = add_layers depth width 0 1

unfoldable pub check_dir : MetadataConfig → List Violation
unfolding check_path
check_dir meta = elim meta.dir_manifest [
  | some path ↦ check (is_empty path) (codes "metadata.dir_manifest") not_empty
  | none ↦ check_path (codes "metadata.dir") meta.dir
]

unfoldable pub check_ops : MetadataConfig → List Violation
unfolding any_op
check_ops meta =
    check (elim meta.ops [ [] ↦ true | o ∷ os ↦ false ]) (codes "metadata.ops") not_empty
    ++ check (is_some meta.dir_manifest && any_op (λ op. not (is_stat op)) meta.ops)
        (codes "metadata.ops") only_stat
    ++ check (meta.read_only && any_op makes_entry meta.ops) (codes "metadata.ops") only_reads

-- The layout is built: no manifest and not over existing files.
abbrev pub builds_layout : MetadataConfig → Bool
builds_layout meta = not (is_some meta.dir_manifest) && not meta.read_only

-- A bound that a built layout has below, and its cap.
unfoldable pub check_bound : Bool → Text → ℕ → ℕ → List Violation
check_bound builds field n cap =
    if builds && (n == 0)
    then record { field = field; message = positive } ∷ []
    else check (ltb cap n) field (soft_cap cap)

unfoldable pub check_totals : MetadataConfig → LayoutCaps → List Violation
unfolding total_dirs
check_totals meta caps =
    let dirs = total_dirs meta.depth meta.width in
    let files = saturating_mul dirs meta.files_per_dir in
    if ltb 0 meta.depth && ltb 0 meta.width
    then check (ltb caps.max_total_dirs dirs) (codes "metadata.layout")
        (too_many_dirs dirs caps.max_total_dirs)
      ++ check (ltb caps.max_total_files files) (codes "metadata.layout")
          (too_many_files files caps.max_total_files)
    else []

unfoldable pub check_layout : MetadataConfig → LayoutCaps → List Violation
unfolding check_bound check_totals any_op
check_layout meta caps =
    check (builds_layout meta && any_op needs_file meta.ops && (meta.files_per_dir == 0))
      (codes "metadata.files_per_dir") positive_for_files
    ++ check_bound (builds_layout meta) (codes "metadata.depth") meta.depth caps.max_depth
    ++ check_bound (builds_layout meta) (codes "metadata.width") meta.width caps.max_width
    ++ check (ltb caps.max_files_per_dir meta.files_per_dir) (codes "metadata.files_per_dir")
        (soft_cap caps.max_files_per_dir)
    ++ check_totals meta caps

unfoldable pub validate_metadata : MetadataConfig → LayoutCaps → List Violation
unfolding check_dir check_ops check_layout
validate_metadata meta caps =
    check (meta.concurrency == 0) (codes "metadata.concurrency") positive
    ++ check (meta.layout_concurrency == 0) (codes "metadata.layout_concurrency") positive
    ++ check_dir meta
    ++ check_ops meta
    ++ check_layout meta caps
    ++ check (wrong_rate (λ r. not (is_throughput r)) meta.rate_limit) (codes "metadata.rate_limit")
        needs_iops

unfoldable pub check_block_size : ℕ → List Violation
check_block_size n =
    if n == 0
    then record { field = codes "block_size"; message = positive } ∷ []
    else check (not (n % 512 == 0)) (codes "block_size") aligned

abbrev pub lacks {ℓ} : {A : Type ℓ} → Option A → Bool
lacks o = not (is_some o)

unfoldable pub check_common : BenchSpec → List Violation
unfolding check_block_size
check_common spec =
    check (is_empty spec.fs_name) (codes "fs_name") not_empty
    ++ check (spec.duration == 0) (codes "duration") positive
    ++ check (not (spec.warmup == 0) && not (ltb spec.warmup spec.duration)) (codes "warmup")
        (below_duration spec.warmup spec.duration)
    ++ check_block_size spec.block_size
    ++ check (spec.direct_io && not spec.io_aligned) (codes "direct_io") needs_aligned_io
    ++ check (lacks spec.read && lacks spec.write && lacks spec.metadata) (codes "spec")
        needs_workload

unfoldable pub violations : BenchSpec → ValidationContext → List Violation
unfolding check_common validate_read validate_write validate_metadata
violations spec ctx =
    check_common spec
    ++ (elim spec.read [
      | none ↦ []
      | some read ↦ validate_read ctx.allow_redacted_consistency_credentials read
    ])
    ++ (elim spec.write [ none ↦ [] | some write ↦ validate_write write ])
    ++ (elim spec.metadata [ none ↦ [] | some meta ↦ validate_metadata meta ctx.layout_caps ])

unfoldable pub report : List Violation → Result (List Violation) (Unit {0})
report [] = ok tt
report (v ∷ vs) = err (v ∷ vs)

unfoldable pub validate : BenchSpec → ValidationContext → Result (List Violation) (Unit {0})
unfolding report violations
validate spec ctx = report (violations spec ctx)
