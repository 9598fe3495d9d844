-- ===== src/Spec/Convert.antt =====
-- The conversions of crates/cvd-common/src/spec.rs, from the message to the parsed specification.
use cvdbench.Base.{
  ℕ, List, [], ◌∷◌, Option, none, some, Text, codes, if◌then◌else◌, is_empty, same, ltb, ◌||◌,
}
use cvdbench.Base.Int.{ℤ, pos, negsuc}
use cvdbench.Base.Results.{Result, ok, err, ◌>>=◌, map_err, ok_or, traverse}
use cvdbench.Parse.Size.{parse_size}
use cvdbench.Parse.Duration.{parse_duration}
use cvdbench.Parse.Rate.{RateLimit, parse_rate_limit}
use cvdbench.Proto.Specs
use cvdbench.Spec.{
  Reason, must_be_set, negative, neither_set, mutually_exclusive, unsupported, not_positive,
  SpecConvertError, parse, bad, IoMode, seq, rand, MetadataOp, create, mkdir, stat, open_file,
  readdir, SizeDistribution, uniform, log_uniform, WriteSize, fixed, range, ReadSource,
  file_manifest, dir_manifest, ConsistencyConfig, ReadConfig, WriteConfig, MetadataConfig,
  BenchSpec,
}

abbrev pub Converted {ℓ} : Type ℓ → Type ℓ
Converted A = Result SpecConvertError A

unfoldable pub io_mode_from : Text → Converted IoMode
io_mode_from s =
    if same s (codes "seq")
    then ok seq
    else if same s (codes "rand")
    then ok rand
    else err (bad (codes "io_mode") (unsupported s))

unfoldable pub metadata_op_from : Text → Converted MetadataOp
metadata_op_from s =
    if same s (codes "create")
    then ok create
    else if same s (codes "mkdir")
    then ok mkdir
    else if same s (codes "stat")
    then ok stat
    else if same s (codes "open")
    then ok open_file
    else if same s (codes "readdir")
    then ok readdir
    else err (bad (codes "metadata.ops") (unsupported s))

unfoldable pub distribution_from : Text → Converted SizeDistribution
distribution_from s =
    if is_empty s || same s (codes "log_uniform")
    then ok log_uniform
    else if same s (codes "uniform")
    then ok uniform
    else err (bad (codes "write.file_size_range.distribution") (unsupported s))

unfoldable pub parse_required_size : Text → Text → Converted ℕ
parse_required_size field raw = do
  v ← map_err (parse field) (parse_size raw)
  ok_or v (bad field must_be_set)

unfoldable pub parse_required_duration : Text → Text → Converted ℕ
parse_required_duration field raw = do
  v ← map_err (parse field) (parse_duration raw)
  ok_or v (bad field must_be_set)

unfoldable pub parse_optional_duration : Text → Text → Converted (Option ℕ)
parse_optional_duration field raw = map_err (parse field) (parse_duration raw)

unfoldable pub parse_optional_rate : Text → Text → Converted (Option RateLimit)
parse_optional_rate field raw = map_err (parse field) (parse_rate_limit raw)

-- An i32 that is positive fits a u32.
unfoldable pub convert_concurrency : Text → ℤ → Converted ℕ
convert_concurrency field (negsuc n) = err (bad field (not_positive (negsuc n)))
convert_concurrency field (pos n) = if ltb 0 n then ok n else err (bad field (not_positive (pos n)))

-- `u32::try_from` on an i32.
unfoldable pub to_u32 : Text → Reason → ℤ → Converted ℕ
to_u32 field reason (pos n) = ok n
to_u32 field reason (negsuc n) = err (bad field reason)

unfoldable pub source_from : Text → Text → Converted ReadSource
source_from file dir =
    if is_empty file
    then (if is_empty dir then err (bad (codes "read") neither_set) else ok (dir_manifest dir))
    else if is_empty dir
    then ok (file_manifest file)
    else err (bad (codes "read") mutually_exclusive)

unfoldable pub consistency_from_proto : Specs.ConsistencyConfig → ConsistencyConfig
consistency_from_proto c = record {
  bucket_name = c.bucket_name;
  bucket_url = c.bucket_url;
  access_key = c.access_key;
  secret_key = c.secret_key;
  region = c.region;
  prefix = c.prefix;
  session_token = c.session_token;
}

unfoldable pub read_from_proto : Specs.ReadConfig → Converted ReadConfig
unfolding source_from convert_concurrency parse_optional_duration parse_optional_rate
    consistency_from_proto
read_from_proto r = do
  source ← source_from r.file_manifest r.dir_manifest
  concurrency ← convert_concurrency (codes "read.concurrency") r.concurrency
  think_time ← parse_optional_duration (codes "read.think_time") r.think_time
  rate_limit ← parse_optional_rate (codes "read.rate_limit") r.rate_limit
  ok (record {
    concurrency = concurrency;
    source = source;
    think_time = think_time;
    rate_limit = rate_limit;
    s3_consistency_check = elim r.s3_consistency_check [
      | none ↦ none
      | some c ↦ some (consistency_from_proto c)
    ];
    loop_files = r.loop_files;
  })

unfoldable pub range_from : Specs.FileSizeRange → Converted WriteSize
unfolding parse_required_size distribution_from
range_from g = do
  least ← parse_required_size (codes "write.file_size_range.min") g.min
  greatest ← parse_required_size (codes "write.file_size_range.max") g.max
  distribution ← distribution_from g.distribution
  ok (range least greatest distribution)

unfoldable pub size_from : Text → Option Specs.FileSizeRange → Converted WriteSize
unfolding range_from parse_required_size
size_from file_size none =
    if is_empty file_size
    then err (bad (codes "write") neither_set)
    else (do bytes ← parse_required_size (codes "write.file_size") file_size; ok (fixed bytes))
size_from file_size (some g) =
    if is_empty file_size then range_from g else err (bad (codes "write") mutually_exclusive)

unfoldable pub write_from_proto : Specs.WriteConfig → Converted WriteConfig
unfolding size_from convert_concurrency parse_optional_duration parse_optional_rate
write_from_proto w = do
  size ← size_from w.file_size w.file_size_range
  concurrency ← convert_concurrency (codes "write.concurrency") w.concurrency
  think_time ← parse_optional_duration (codes "write.think_time") w.think_time
  rate_limit ← parse_optional_rate (codes "write.rate_limit") w.rate_limit
  ok (record {
    concurrency = concurrency;
    dir = w.dir;
    size = size;
    fsync = w.fsync;
    cleanup = w.cleanup;
    think_time = think_time;
    rate_limit = rate_limit;
    verify_after_write = w.verify_after_write;
  })

unfoldable pub ops_from : List Text → Converted (List MetadataOp)
unfolding metadata_op_from
ops_from [] = ok []
ops_from (s ∷ ss) =
    let rest = ops_from ss in (do op ← metadata_op_from s; ops ← rest; ok (op ∷ ops))

unfoldable pub layout_concurrency_from : ℤ → ℕ → ℕ
layout_concurrency_from (negsuc n) concurrency = concurrency
layout_concurrency_from (pos n) concurrency = if ltb 0 n then n else concurrency

unfoldable pub metadata_from_proto : Specs.MetadataConfig → Converted MetadataConfig
unfolding ops_from convert_concurrency layout_concurrency_from to_u32 parse_optional_duration
    parse_optional_rate
metadata_from_proto m = do
  ops ← ops_from m.ops
  concurrency ← convert_concurrency (codes "metadata.concurrency") m.concurrency
  depth ← to_u32 (codes "metadata.depth") negative m.depth
  width ← to_u32 (codes "metadata.width") negative m.width
  files_per_dir ← to_u32 (codes "metadata.files_per_dir") negative m.files_per_dir
  scan_limit ← to_u32 (codes "metadata.read_only_scan_limit") negative m.read_only_scan_limit
  think_time ← parse_optional_duration (codes "metadata.think_time") m.think_time
  rate_limit ← parse_optional_rate (codes "metadata.rate_limit") m.rate_limit
  ok (record {
    concurrency = concurrency;
    dir = m.dir;
    dir_manifest = if is_empty m.dir_manifest then none else some m.dir_manifest;
    ops = ops;
    read_only = m.read_only;
    read_only_scan_limit = scan_limit;
    depth = depth;
    width = width;
    files_per_dir = files_per_dir;
    layout_concurrency = layout_concurrency_from m.layout_concurrency concurrency;
    think_time = think_time;
    rate_limit = rate_limit;
  })

-- At least one worker.
abbrev pub normal_workers : ℤ → ℕ
normal_workers (negsuc n) = 1
normal_workers (pos n) = if ltb 0 n then n else 1

unfoldable pub try_from_proto : Specs.BenchSpec → Converted BenchSpec
unfolding io_mode_from parse_required_size parse_required_duration parse_optional_duration
    read_from_proto write_from_proto metadata_from_proto
try_from_proto p = do
  io_mode ← io_mode_from p.io_mode
  block_size ← parse_required_size (codes "block_size") p.block_size
  duration ← parse_required_duration (codes "duration") p.duration
  warmup ← parse_optional_duration (codes "warmup") p.warmup
  read ← traverse read_from_proto p.read
  write ← traverse write_from_proto p.write
  metadata ← traverse metadata_from_proto p.metadata
  ok (record {
    fs_name = p.fs_name;
    io_mode = io_mode;
    io_aligned = p.io_aligned;
    direct_io = p.direct_io;
    block_size = block_size;
    duration = duration;
    warmup = elim warmup [ none ↦ 0 | some w ↦ w ];
    target_workers = normal_workers p.target_workers;
    read = read;
    write = write;
    metadata = metadata;
  })
