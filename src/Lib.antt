-- ===== src/Lib.antt =====
-- The master of cvdbench, the library it shares with the worker, and the worker's dealings with
-- the master and with its files, modelled from the Rust sources.
--
-- A client creates a job; workers fetch it, report that they are ready, fetch batches of files,
-- report progress and a result; watchers fail jobs whose workers are silent and drop old ones. The
-- parts:
-- Master.State and Master.Job are the in-memory state (crates/cvd-master/src/state.rs and
-- state/job.rs), Master.Pending the queue of waiting jobs (state/pending.rs), Master.Terminal the
-- way into a terminal status (aggregate.rs and the lines that follow it in each caller),
-- Master.Events the events and their watchers (events.rs, events/subscriber.rs).
-- Master.Fetch, Ready, Staleness and Gc are scheduler/fetch_job.rs, scheduler/ready.rs,
-- scheduler/staleness.rs and gc.rs; Batch, Progress and Result are the handlers of
-- service/worker_rpc.rs, Create, Delete and Watch those of service/cli_rpc.rs, and Replies their
-- answers. Master.Manifest is manifest.rs, Queues.Bounded the queue of manifest/queue.rs, and
-- Master.Scan the queue of directories of manifest/dir_scan.rs, with the reader and the scan of
-- one directory in its child Entries; Master.Config is config.rs.
-- Master.Calls puts them together: a call is an RPC, a tick of a watcher, a move of a manifest
-- task, or the interference of another thread between the critical sections; a run is a list of
-- calls with the readings of the clocks.
-- Spec, Parse, PathSafe, WorkerId and Metrics.Aggregate are crates/cvd-common/src/spec.rs, spec/,
-- parse/, path_safe.rs, id.rs and metrics/aggregate.rs; Proto is proto/master.proto.
-- Worker.Lifecycle is crates/cvd-worker/src/lifecycle.rs: the loops that call the master until it
-- answers, and in its child Assigned a job from the master's answer to its result. Worker.Clock
-- and Worker.Backoff are clock.rs, backoff.rs and client.rs of the same directory, Worker.FsIo is
-- fs_io.rs with fs_io/direct_io.rs, and Worker.Prebuild is prebuild/metadata.rs.
--
-- Correspondence. A handler is a function from the state to its answer and the new state; the
-- code's early returns are the branches, in its order. Where a handler takes several locks one
-- after the other, the model runs its sections in a row; other threads can only set the fields of
-- the other locks in between, and the call `interferes` lets them do so at any time between calls.
-- The parts of a record that a manifest task shares through `Arc` are fields of the record. One
-- reading of the clocks stands for all that a handler makes. Texts are lists of code points, the
-- names of a path that the system gives are characters and invalid sequences of bytes, maps are
-- association lists, i64 and f64 arithmetic is written out or, for f64 and the hdrhistogram crate,
-- a record of operations (Metrics.Platform) over which the theorems that need them are stated.
-- What the worker's surroundings do is given to its operations: the answers of the master in order
-- (none for a call that fails), the readings of the clock and of the flags, the bytes that each
-- read may give. An instant is a number of nanoseconds; the f64 factor of the backoff, the
-- generator of the file ranges and tokio's Notify are parameters, with their documented behaviour
-- as hypotheses or as the laws of an interface.
--
-- Fuel: the loop of parse_duration has the length of its text, and each round takes a digit and a
-- unit at least; the loops over a file's ranges and blocks have the length of the payload, and
-- each round goes on by a byte at least; the loops that retry have their number of attempts. A
-- wait at the barrier and a read end only if the list of what happens is long enough, and the
-- theorems say when it is.
--
-- Not modelled: the CLI crate, the worker's runners, rate limits, progress task and random or
-- unaligned reads, the reading of CSV manifests, the metrics endpoint, and the gRPC layer. They
-- are I/O for the most part; I/O errors of the worker's files are left out too, as they only end
-- the call.
--
-- Each proof stands with what it proves: Master.Validity and Master.Invariant say when a record is
-- valid and that each operation keeps it so, Master.Changes which operations a call makes,
-- Master.Runs, History and Timeline what follows for every run, Master.Retention and Silence what
-- the watchers do, Replay, Cancel, Listing and Watchers what single RPCs and events come to;
-- Spec.Validate.Layout and Accepted, WorkerId.Accepted and Parse.Duration.Fuel belong to the
-- modules they stand under. Worker.Clock.Estimate, Worker.Backoff.Sequence, the other children of
-- Worker.FsIo, Worker.Prebuild.Counts, Invariant, Waiting, Inside and Reader under Master.Scan,
-- Master.Config.Accepted, and Waits, Retries, Redacted, Assigned.Window and Assigned.Sent under
-- Worker.Lifecycle hold the proofs on these modules. Tests has concrete states and the theorems at
-- them.
mod Base
pub mod Proto
pub mod Parse
pub mod PathSafe
pub mod Spec
pub mod Metrics
pub mod Queues
pub mod Worker
pub mod WorkerId
pub mod Master
pub mod Tests
