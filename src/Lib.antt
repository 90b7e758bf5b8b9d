-- ===== src/Lib.antt =====
-- A model of durarun-operator, a Kubernetes operator in Go for durable agent jobs.
--
-- An AgentJob asks for a process to run; each try is an AgentAttempt with one pod. The job
-- controller (internal/controller/job_controller.go, attempt_reconciler.go) loads a snapshot of a
-- job with its attempts and pods and decides from it: it creates attempts and pods, follows their
-- state, and writes conditions (internal/state) back to the API server. Runners report results in
-- envelopes, which are fenced, classified and recorded. The runtime of an agent records its steps in
-- a write-ahead log, which tells after a restart which steps need not run again.
--
--   Prelude      shared names: numbers, strings, lists, Go's integers, printing
--   State        internal/state (job.go, attempt.go, terminal.go), and the phase functions of
--                api/v1alpha1; State.Snapshot is internal/state/invariants.go
--   Api          api/v1alpha1: the resources, defaults.go, validation.go
--   Controller   internal/controller: Pods (loss_detector.go), Fencing (fencing.go), Retry
--                (retry.go), Classify (error_classifier.go and internal/runner/result.go), Result
--                (result_reconciler.go), Deadline (deadline.go, ttl.go), Ownership (ownership.go,
--                cancel.go, the queries of job_snapshot.go), Attempt (attempt_reconciler.go), Job
--                (job_controller.go); Server and Sends are the API server and what is sent to it
--   Wal          wal: record.go and ReadAll of reader.go; Writing is writer.go, Manifest is
--                BuildManifest of reader.go with its queries; Files, Numbering, RoundTrip, Resume,
--                Faults and Manifest.Completed are proofs
--   Pool         internal/pool/pool.go; Claims, Size, Keeps and History are proofs
--   Webhook      internal/webhook: the admission of jobs; Updates and Capacity are proofs
--   Protect      protect/retry.go: the retry loop of a step; Runs is proofs
--   Model        internal/model/model.go: states, their tables of transitions, specs (Validation);
--                Names and Defaults are proofs
--   Isolation    internal/isolation/isolation.go; Resolved is proofs
--   Store        internal/store/store.go: the tables and the statements on Jobs, Attempts, Records,
--                Pools and Policies; Session is a process that uses them; View, Paths, Evolves,
--                Moves, Moved, Inserts, Saves and Follows say what statements and programs do to the
--                states; Once says that an attempt leaves New once; Claimed, Artifacts, Numbers and
--                Latest are proofs on single calls
--   Scheduler    internal/scheduler/reconciler.go; Refined, Handled and Scheduling are proofs
--   Worker       internal/worker/worker.go; Steps and Refined are proofs
--   Server       internal/api/server.go: the handlers of jobs, and Policies; Refined is proofs
--   Service      the three of them over one store; History is proofs
--
-- A Go function is a definition with its name in snake case. What it changes through a pointer is
-- in its result, and the clock is an argument. `ConditionApi` stands for SetStatusCondition of
-- k8s.io/apimachinery, with its documented laws, and has a concrete instance in State.Examples.
-- `ApiServer` stands for the API server: each reply is an arbitrary function of the calls before.
-- Go's int32, int64 and time.Duration wrap around where the code computes with them; a float64 that
-- no int64 holds is converted by a parameter.
--
-- In the log, a line's length is a parameter, sequence numbers stay below 2^63, and a write that fails
-- writes nothing. Files stand in the order of their names, which is the order of strings: file 10000
-- comes before file 9999. A record behind a last line without a newline becomes part of that line.
--
-- In the pool manager, identifiers come from a function `uuid`, and the float64 thresholds are
-- comparisons that the configuration gives.
--
-- The standalone service runs without Kubernetes: the HTTP interface writes jobs to a database, the
-- scheduler's reconciler makes attempts, and workers execute them. A statement or a transaction is one
-- step on the tables, its meaning is that of its SQL text, and an `Environment` says at which steps
-- the database refuses and what others did before each step; so a theorem on a program holds for
-- every interleaving whose other steps meet its hypothesis. What happens in one execution outside the
-- store and the pool, such as the sandbox's result, is a record, `Run`.
--
-- Loops over slices are recursions on lists and counted loops are recursions on their bound, so that
-- no fuel is used, save for the digits of a number, for which one more than its value is enough.
--
-- Not modelled: log lines other than the errors that the standalone service reports, metrics,
-- traces, events, the texts that messages print, the loading of
-- the snapshot, and the parts of the system that make no decisions (commands, wiring, generated
-- code). The pool controller, the artifact gateway and the runner are parts of their own that these
-- modules do not cover; of the standalone service the handlers of pools, steps, recovery and
-- metrics are left out, and what the sandbox does with its environment and its limits.
pub mod Prelude
pub mod State
pub mod Api
pub mod Controller
pub mod Wal
pub mod Pool
pub mod Webhook
pub mod Protect
pub mod Model
pub mod Isolation
pub mod Store
pub mod Scheduler
pub mod Worker
pub mod Server
pub mod Service
