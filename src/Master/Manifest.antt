-- ===== src/Master/Manifest.antt =====
-- crates/cvd-master/src/manifest.rs: where a job's files come from, and a reader's failure.
use cvdbench.Base.{Bool, true, false, Option, none, some, Text, is_empty, if◌then◌else◌}
use cvdbench.Base.Map.{lookup, insert, keys}
use cvdbench.Proto.Specs.{BenchSpec, ReadConfig, MetadataConfig}
use cvdbench.Proto.Reports.{failed, status_change}
use cvdbench.Queues.Bounded
use cvdbench.Metrics.{Platform}
use cvdbench.Master.State.{
  JobRecord, MasterConfig, MasterState, Now, ManifestTask, file_csv, dir_scan, manifest_reader,
}
use cvdbench.Master.Job.{is_terminal}
use cvdbench.Master.Events.{emit_for_job, finalize_stream}
use cvdbench.Master.Terminal.{finish, release_workers}

-- The manifest's path, whether it lists directories, and whether the files are read in a loop.
pub record Source : Type 0 where
  pub path : Text
  pub is_dir_manifest : Bool
  pub loop_files : Bool

unfoldable pub read_source : ReadConfig → Option Source
read_source read =
    if is_empty read.file_manifest
    then (if is_empty read.dir_manifest
        then none
        else some (record {
          path = read.dir_manifest;
          is_dir_manifest = true;
          loop_files = read.loop_files;
        }))
    else some (record {
      path = read.file_manifest;
      is_dir_manifest = false;
      loop_files = read.loop_files;
    })

unfoldable pub metadata_source : MetadataConfig → Option Source
metadata_source meta =
    if is_empty meta.dir_manifest
    then none
    else some (record { path = meta.dir_manifest; is_dir_manifest = true; loop_files = false })

unfoldable pub source_of : BenchSpec → Option Source
unfolding read_source metadata_source
source_of spec = elim spec.read [
  | some read ↦ read_source read
  | none ↦ elim spec.metadata [ some meta ↦ metadata_source meta | none ↦ none ]
]

unfoldable pub task_of : MasterConfig → Text → Source → ManifestTask
task_of config mount_point s =
    if s.is_dir_manifest
    then dir_scan s.path mount_point config.scheduler.dir_scan_concurrency s.loop_files
    else file_csv s.path s.loop_files

unfoldable pub start_for_file_queue_job : MasterConfig → JobRecord → JobRecord
unfolding source_of task_of
start_for_file_queue_job config r = elim (source_of r.spec_redacted) [
  | none ↦ r
  | some s ↦ record r {
    file_queue = some (Bounded.new config.scheduler.file_queue_capacity);
    manifest_handle = some (task_of config r.mount_point s);
  }
]

module _ ⦃pf : Platform⦄ where
  -- A reader that fails takes its job to FAILED and lets the workers go.
  unfoldable pub fail_job_due_to_manifest : Text → Text → Now → MasterState → MasterState
  unfolding finish finalize_stream
  fail_job_due_to_manifest job_id reason now s = elim (lookup job_id s.jobs) [
    | none ↦ s
    | some r ↦
        if is_terminal r
        then s
        else let r' = finish failed (some (manifest_reader reason)) now.unix_ms r in
          let s' =
            emit_for_job (record s { jobs = insert job_id r' s.jobs }) r' status_change now in
          finalize_stream
            (record s' {
              worker_active_jobs =
                  release_workers job_id (keys r'.worker_assignments) s'.worker_active_jobs;
            })
            job_id
  ]
