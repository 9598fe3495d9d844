-- ===== src/Master/Changes.antt =====
-- What the calls do to the records: the single operations, and chains of changes of the table of jobs.
pub mod Rounds
pub mod Barrier
pub mod Reports
pub mod Clients
use cvdbench.Base.{
  ℕ, ◌≡◌, ◌≢◌, refl, sym, ap, ◌⊎◌, List, [], ◌∷◌, Option, none, some, Text, Bool, true, false,
}
use cvdbench.Base.Map.{Map, lookup, insert, contains_key}
use cvdbench.Base.Sets.{contains}
use cvdbench.Proto.Reports.{JobStatus, failed, cancelled, WorkerResult, FileEntry}
use cvdbench.Queues.Bounded.{BoundedQueue}
use cvdbench.Metrics.{Platform}
use cvdbench.Master.State.{JobRecord, JobError, MasterConfig, SchedulerConfig, Now}
use cvdbench.Master.Job.{touch, give_slot, enter_preparing, slots_remaining, is_terminal}
use cvdbench.Master.Manifest.{start_for_file_queue_job}
use cvdbench.Master.Ready.{mark_ready}
use cvdbench.Master.Result.{conclude, takes_result}
use cvdbench.Master.Terminal.{finish}
use cvdbench.Master.Validity.{core}

-- The parts of a record that no operation ever changes.
pub record SameJob (r r' : JobRecord) : Type 0 where
  pub job_id : r'.job_id ≡ r.job_id
  pub created_at_ms : r'.created_at_ms ≡ r.created_at_ms
  pub credentials : r'.credentials ≡ r.credentials
  pub mount_point : r'.mount_point ≡ r.mount_point

module _ ⦃pf : Platform⦄ where
  pub data Op (r r' : JobRecord) : Type 0 where
    quiet : core r' ≡ core r → r'.error ≡ r.error → SameJob r r' → Op r r'
    slot :
        (w : Text) (now : ℕ)
        → r.status ≡ JobStatus.pending
        → slots_remaining r ≢ 0
        → r' ≡ give_slot w now r
        → Op r r'
    prepared : (now : ℕ) → r' ≡ enter_preparing now r → Op r r'
    reads : (c : MasterConfig) → is_terminal r ≡ false → r' ≡ start_for_file_queue_job c r → Op r r'
    marked :
        (c : SchedulerConfig) (w : Text) (now : Now)
        → contains_key w r.worker_assignments ≡ true
        → is_terminal r ≡ false
        → r' ≡ (mark_ready c w now r).0
        → Op r r'
    ended :
        (st : JobStatus) (error : Option JobError) (now : ℕ)
        → is_terminal r ≡ false
        → (st ≡ failed) ⊎ (st ≡ cancelled)
        → r' ≡ finish st error now r
        → Op r r'
    concluded :
        (x : WorkerResult) (now : ℕ)
        → takes_result r.status ≡ true
        → contains x.worker_id r.run_workers ≡ true
        → r' ≡ (conclude x now r).0
        → Op r r'
    queued :
        (q q' : BoundedQueue FileEntry)
        → r.file_queue ≡ some q
        → q'.closed ≡ q.closed
        → r' ≡ record r { file_queue = some q' }
        → Op r r'

  pub data Ops (r : JobRecord) : JobRecord → Type 0 where
    stop : Ops r r
    chain : {r' r'' : JobRecord} → Ops r r' → Op r' r'' → Ops r r''

  -- One record is replaced by what operations make of it.
  pub data Changes (jobs : Map JobRecord) : Map JobRecord → Type 0 where
    unchanged : Changes jobs jobs
    changed :
        {jobs' jobs'' : Map JobRecord} (k : Text) (r r' : JobRecord)
        → Changes jobs jobs'
        → lookup k jobs' ≡ some r
        → Ops r r'
        → jobs'' ≡ insert k r' jobs'
        → Changes jobs jobs''

  pub only :
      {jobs : Map JobRecord} (k : Text) (r r' : JobRecord)
      → lookup k jobs ≡ some r
      → Ops r r'
      → Changes jobs (insert k r' jobs)
  only k r r' e ops = changed k r r' unchanged e ops refl

  pub trans :
      {jobs jobs' jobs'' : Map JobRecord}
      → Changes jobs jobs'
      → Changes jobs' jobs''
      → Changes jobs jobs''
  trans c unchanged = c
  trans c (changed k r r' d e ops p) = changed k r r' (trans c d) e ops p

  -- A sign of life changes nothing else.
  pub touch-Op : (w : Text) (now : ℕ) (r : JobRecord) → Op r (touch w now r)
  unfolding touch
  touch-Op w now r =
      quiet refl refl
        (record { job_id = refl; created_at_ms = refl; credentials = refl; mount_point = refl })
