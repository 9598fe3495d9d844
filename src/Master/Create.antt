-- ===== src/Master/Create.antt =====
-- `create_job` of crates/cvd-master/src/service/cli_rpc.rs. The file system's answer on a manifest and
-- the new job's UUID are arguments.
use cvdbench.Base.{Bool, Option, none, some, Text, codes, if◌then◌else◌, List}
use cvdbench.Base.Int.{pos, is_positive}
use cvdbench.Base.Map.{lookup, insert}
use cvdbench.Base.Results.{Result, ok, err, ◌>>=◌, map_err, ok_or}
use cvdbench.Proto.Specs
use cvdbench.Proto.Reports.{status_change}
use cvdbench.Spec.{SpecConvertError, BenchSpec, ReadSource, file_manifest, dir_manifest}
use cvdbench.Spec.Convert.{try_from_proto}
use cvdbench.Spec.Redact.{extract_credentials, redacted}
use cvdbench.Spec.Validate.{Violation, validate, default_context}
use cvdbench.Master.State.{JobRecord, MasterConfig, MasterState, Now}
use cvdbench.Master.Job.{new}
use cvdbench.Master.Pending.{push_back}
use cvdbench.Master.Events.{emit_for_job}

-- The errors of `create_job`, by their format strings.
pub data CreateError : Type 0 where
  spec_required : CreateError
  spec_parse : SpecConvertError → CreateError
  spec_validate : List Violation → CreateError
  unknown_fs : Text → CreateError
  not_regular_file : Text → Text → CreateError
  not_readable : Text → Text → CreateError

-- What the file system says of a path.
pub record Files : Type 0 where
  pub is_file : Text → Bool
  pub can_open : Text → Bool

abbrev pub Checked {ℓ} : Type ℓ → Type ℓ
Checked A = Result CreateError A

unfoldable pub ensure_readable_manifest : Files → Text → Text → Checked (Unit {0})
ensure_readable_manifest files kind path =
    if files.is_file path
    then (if files.can_open path then ok tt else err (not_readable kind path))
    else err (not_regular_file kind path)

unfoldable pub ensure_source : Files → ReadSource → Checked (Unit {0})
unfolding ensure_readable_manifest
ensure_source files (file_manifest path) =
    ensure_readable_manifest files (codes "file_manifest") path
ensure_source files (dir_manifest path) = ensure_readable_manifest files (codes "dir_manifest") path

unfoldable pub ensure_read : Files → BenchSpec → Checked (Unit {0})
unfolding ensure_source
ensure_read files spec = elim spec.read [ none ↦ ok tt | some r ↦ ensure_source files r.source ]

unfoldable pub ensure_metadata : Files → BenchSpec → Checked (Unit {0})
unfolding ensure_readable_manifest
ensure_metadata files spec = elim spec.metadata [
  | none ↦ ok tt
  | some m ↦ elim m.dir_manifest [
    | none ↦ ok tt
    | some path ↦ ensure_readable_manifest files (codes "metadata.dir_manifest") path
  ]
]

-- The specification as it is stored: no credentials, one worker at least.
unfoldable pub spec_for_storage : Specs.BenchSpec → Specs.BenchSpec
unfolding redacted
spec_for_storage p =
    let q = redacted p in
    if is_positive q.target_workers then q else record q { target_workers = pos 1 }

-- The record of the new job, if the request passes every check.
unfoldable pub new_record :
    Files → MasterConfig → Text → Now → Option Specs.BenchSpec → Checked JobRecord
unfolding ensure_read ensure_metadata spec_for_storage try_from_proto validate new
    extract_credentials
new_record files config job_id now request = do
  p ← ok_or request spec_required
  spec ← map_err spec_parse (try_from_proto p)
  _ ← map_err spec_validate (validate spec default_context)
  mount_point ← ok_or (lookup spec.fs_name config.filesystems) (unknown_fs spec.fs_name)
  _ ← ensure_read files spec
  _ ← ensure_metadata files spec
  ok (
      new job_id (spec_for_storage p) (extract_credentials p) mount_point spec.target_workers
        now.unix_ms)

-- Under the lock of the jobs: the record is stored and announced.
unfoldable pub store_job : Text → JobRecord → Now → MasterState → MasterState
store_job job_id r now s =
    emit_for_job (record s { jobs = insert job_id r s.jobs }) r status_change now

-- Under the lock of the queue.
unfoldable pub enqueue : Text → MasterState → MasterState
enqueue job_id s = record s { pending_queue = push_back s.pending_queue job_id }

unfoldable pub create_job :
    Files → Text → Now → Option Specs.BenchSpec → MasterState → Checked Text × MasterState
unfolding new_record store_job enqueue
create_job files job_id now request s = elim (new_record files s.config job_id now request) [
  | err e ↦ (err e, s)
  | ok r ↦ (ok job_id, enqueue job_id (store_job job_id r now s))
]
