-- ===== src/Master/Events.antt =====
-- crates/cvd-master/src/events.rs and events/subscriber.rs: the events of a job and its watchers.
-- A watcher's channel stands in the registry as its sender, with the messages that wait in it.
use cvdbench.Base.{
  ℕ, ◌+◌, ◌%◌, ◌^◌, false, List, [], ◌∷◌, ◌++◌, none, some, Text, if◌then◌else◌, length, ltb,
}
use cvdbench.Base.Map.{Map, lookup, insert, remove, values}
use cvdbench.Proto.Reports.{EventKind}
use cvdbench.Master.State.{JobRecord, JobEvent, Message, event, EventSender, MasterState, Now}

abbrev pub subscriber_capacity : ℕ
subscriber_capacity = 64

pub data Sent : Type 0 where
  ok : EventSender → Sent
  closed : Sent
  full : Sent

unfoldable pub try_send : EventSender → Message → Sent
try_send tx m =
    if tx.receiver_closed
    then closed
    else if ltb (length tx.queued) subscriber_capacity
    then ok (record tx { queued = tx.queued ++ m ∷ [] })
    else full

-- `retain` over the watchers of one job: who is gone or too slow is dropped. The last word to a slow
-- watcher is tried and does not fit.
unfoldable pub retain_sent : Message → List EventSender → List EventSender
unfolding try_send
retain_sent m [] = []
retain_sent m (tx ∷ txs) =
    let rest = retain_sent m txs in
    elim (try_send tx m) [ ok tx' ↦ tx' ∷ rest | closed ↦ rest | full ↦ rest ]

unfoldable pub store_watchers :
    Text → List EventSender → Map (List EventSender) → Map (List EventSender)
store_watchers job_id [] m = remove job_id m
store_watchers job_id (tx ∷ txs) m = insert job_id (tx ∷ txs) m

unfoldable pub broadcast : Text → JobEvent → Map (List EventSender) → Map (List EventSender)
unfolding retain_sent store_watchers
broadcast job_id e m = elim (lookup job_id m) [
  | none ↦ m
  | some txs ↦ store_watchers job_id (retain_sent (event e) txs) m
]

unfoldable pub add_watcher : Text → EventSender → Map (List EventSender) → Map (List EventSender)
add_watcher job_id tx m =
    insert job_id (elim (lookup job_id m) [ none ↦ tx ∷ [] | some txs ↦ txs ++ tx ∷ [] ]) m

unfoldable pub subscribe_with_snapshot :
    Text → JobEvent → Map (List EventSender) → Map (List EventSender)
unfolding add_watcher
subscribe_with_snapshot job_id snapshot m =
    add_watcher job_id (record { queued = event snapshot ∷ []; receiver_closed = false }) m

unfoldable pub terminate : Text → Map (List EventSender) → Map (List EventSender)
terminate job_id m = remove job_id m

unfoldable pub next_event_seq : MasterState → ℕ × MasterState
next_event_seq s = (s.event_seq, record s { event_seq = (s.event_seq + 1) % 2 ^ 64 })

unfoldable pub build_event : MasterState → JobRecord → EventKind → Now → JobEvent × MasterState
unfolding next_event_seq
build_event s r kind now =
    let (seq, s') = next_event_seq s in
    (
      record {
        job_id = r.job_id;
        status = r.status;
        worker_progress = values r.latest_progress;
        aggregated = r.aggregated;
        error = r.error;
        timestamp = now.unix_ms;
        seq = seq;
        kind = kind;
        dirs_scanned = r.manifest_scan_stats.dirs_scanned;
        files_scanned = r.manifest_scan_stats.files_scanned;
        scan_duration_ms = r.manifest_scan_stats.scan_duration_ms;
      },
      s',
    )

unfoldable pub emit_for_job : MasterState → JobRecord → EventKind → Now → MasterState
unfolding build_event broadcast
emit_for_job s r kind now =
    let (e, s') = build_event s r kind now in
    record s' { subscribers = broadcast r.job_id e s'.subscribers }

unfoldable pub finalize_stream : MasterState → Text → MasterState
unfolding terminate
finalize_stream s job_id = record s { subscribers = terminate job_id s.subscribers }
