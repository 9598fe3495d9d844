-- ===== src/Master/Config.antt =====
-- The master's configuration file: crates/cvd-master/src/config.rs. Parameters: the TOML reader, the
-- parser of addresses, `is_absolute` and the canonical path of a mount point (`none` for an error).
pub mod Accepted
use cvdbench.Base.{
  ℕ, ◌+◌, ◌*◌, Bool, true, false, List, [], ◌∷◌, Option, none, some, Text, codes, if◌then◌else◌,
  ◌==◌,
}
use cvdbench.Base.Map.{Map, lookup, insert}
use cvdbench.Base.Results.{Result, ok, err, ok_or, traverse, ◌>>=◌}
use cvdbench.Master.State.{SchedulerConfig, MasterConfig}

pub record RawScheduler : Type 0 where
  pub worker_staleness_secs : Option ℕ
  pub job_retention_secs : Option ℕ
  pub prepare_timeout_secs : Option ℕ
  pub start_delay_ms : Option ℕ
  pub file_queue_capacity : Option ℕ
  pub dir_queue_capacity : Option ℕ
  pub dir_scan_concurrency : Option ℕ

pub record RawFilesystem : Type 0 where
  pub name : Text
  pub mount_point : Text

pub record RawConfig : Type 0 where
  pub server_listen : Text
  pub metrics_listen : Option Text
  pub scheduler : RawScheduler
  pub filesystems : List RawFilesystem

pub data ConfigError : Type 0 where
  bad_toml no_filesystems : ConfigError
  bad_listen bad_metrics_listen duplicate_fs non_absolute_mount : Text → ConfigError
  invalid_scheduler : Text → ℕ → ConfigError

-- The addresses and the part that the state of the master keeps.
pub record Loaded (A : Type 0) : Type 0 where
  pub listen : A
  pub metrics_listen : Option A
  pub config : MasterConfig

-- `SchedulerConfig::default`, in nanoseconds.
abbrev pub default_scheduler : SchedulerConfig
default_scheduler = record {
  worker_staleness = 60_000_000_000;
  job_retention = 259_200_000_000_000;
  prepare_timeout = 600_000_000_000;
  start_delay = 5_000_000_000;
  file_queue_capacity = 100_000;
  dir_queue_capacity = 50_000;
  dir_scan_concurrency = 8;
}

abbrev pub or_else : ℕ → Option ℕ → ℕ → ℕ
or_else default none unit = default
or_else default (some v) unit = v * unit

unfoldable pub positive_or : ℕ → Text → Option ℕ → Result ConfigError ℕ
positive_or default field none = ok default
positive_or default field (some v) = if v == 0 then err (invalid_scheduler field v) else ok v

unfoldable pub apply_scheduler : SchedulerConfig → RawScheduler → Result ConfigError SchedulerConfig
unfolding positive_or
apply_scheduler out raw = do
  files ← positive_or out.file_queue_capacity (codes "file_queue_capacity") raw.file_queue_capacity
  dirs ← positive_or out.dir_queue_capacity (codes "dir_queue_capacity") raw.dir_queue_capacity
  scans ←
      positive_or out.dir_scan_concurrency (codes "dir_scan_concurrency") raw.dir_scan_concurrency
  ok (record {
    worker_staleness = or_else out.worker_staleness raw.worker_staleness_secs 1_000_000_000;
    job_retention = or_else out.job_retention raw.job_retention_secs 1_000_000_000;
    prepare_timeout = or_else out.prepare_timeout raw.prepare_timeout_secs 1_000_000_000;
    start_delay = or_else out.start_delay raw.start_delay_ms 1_000_000;
    file_queue_capacity = files;
    dir_queue_capacity = dirs;
    dir_scan_concurrency = scans;
  })

module _ (is_absolute : Text → Bool) (canonicalize : Text → Option Text) where
  unfoldable pub canonical_or_same : Text → Text
  canonical_or_same mount = elim (canonicalize mount) [ none ↦ mount | some c ↦ c ]

  unfoldable pub add_filesystems : Map Text → List RawFilesystem → Result ConfigError (Map Text)
  unfolding canonical_or_same insert lookup
  add_filesystems known [] = ok known
  add_filesystems known (fs ∷ rest) =
      let later = add_filesystems (insert fs.name (canonical_or_same fs.mount_point) known) rest in
      if is_absolute fs.mount_point
      then elim (lookup fs.name known) [ none ↦ later | some old ↦ err (duplicate_fs fs.name) ]
      else err (non_absolute_mount fs.name)

  unfoldable pub all_filesystems : List RawFilesystem → Result ConfigError (Map Text)
  unfolding add_filesystems
  all_filesystems [] = err no_filesystems
  all_filesystems (fs ∷ rest) = add_filesystems [] (fs ∷ rest)

  unfoldable pub parse_str :
      {A : Type 0}
      → (Text → Option RawConfig)
      → (Text → Option A)
      → Text
      → Result ConfigError (Loaded A)
  unfolding apply_scheduler all_filesystems
  parse_str from_str parse_address content = do
    raw ← ok_or (from_str content) bad_toml
    listen ← ok_or (parse_address raw.server_listen) (bad_listen raw.server_listen)
    metrics ← traverse (λ m. ok_or (parse_address m) (bad_metrics_listen m)) raw.metrics_listen
    scheduler ← apply_scheduler default_scheduler raw.scheduler
    filesystems ← all_filesystems raw.filesystems
    ok (record {
      listen = listen;
      metrics_listen = metrics;
      config = record { scheduler = scheduler; filesystems = filesystems };
    })
