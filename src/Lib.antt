-- ===== src/Lib.antt =====
-- Verification of latchkit's workflow control, its durable task lifecycle, its execution fence,
-- its scheduler, its choice of releases, and its installer's transactions.
--
-- latchkit runs coding agents under a workflow: a routing step chooses the phases of a piece of
-- work, a policy decides after each phase what may happen next, and a task store keeps what was
-- authorized, which run owns the work, what was observed, and whether the acceptance criteria are
-- shown. The installer changes several files in one transaction with a journal. The updater offers
-- the newest release. A scheduler claims the runs of recurring schedules and records how they end.
-- The knowledge records of a task move along a table of statuses, and a change of them is traced
-- over declared links. A fence lets one execution path at a time work on a task. The policy and
-- the routing are pure functions; the store is a document that every mutation reads, changes,
-- checks and writes under one lock.
--
-- - Base: the names all files share; Boolean tests, lists, identifiers, character classes, signed
--   numbers and the result of code that can fail.
-- - Workflow.Prompt and Workflow.Policy: src/workflows/policy.ts, the phases, the snapshot and
--   the outcome, and `next_step`.
-- - Workflow.Routing: src/workflows/routing.ts, `selection` and `selectRoute`. The regular
--   expressions are a parameter, `matches`: the engine that runs them is not in the repository.
-- - Workflow.Gate, Workflow.Progress, Workflow.Routes: what follows for the gate in front of
--   effects, for a workflow that walks its route, and for the routes.
-- - Task.Model: src/task-state/contracts.ts, the document. Times are milliseconds; an absent
--   optional field and null are `none`; the kind of a piece of evidence and the reason of a failed
--   verification are data in place of texts.
-- - Task.Store, Task.Operations, Task.Criteria, Task.Evidence: src/task-state/service.ts, one
--   function for each operation, with the guards in the source's order. A function takes the store
--   and gives the store and the committed task, or the error's code; nothing is written on an
--   error, since the source changes a copy that it then drops.
-- - Task.Relations: the relations that `validateTask` and `validateTaskState` check between the
--   parts. Task.Formats: the checks of the single fields, the whole validation of a write, and
--   `mutate`, which answers a repeated request from the events.
-- - Task.Mutations: ten of the exported mutations of a task as one operation, `perform`:
--   resuming, authorizing, pausing, checkpoints, evidence, completing, cancelling, the mode,
--   verifying and revising the criteria; and what it means that a call's new identifiers are new.
--   What creates a task, the enrolment in the enhanced workflow, the records and the reconciliation
--   are no cases of it. Task.Calls: calls in a row, and what they leave of a committed mutation.
-- - Task.Consistent, Task.Commit, Task.Lifecycle, Task.Commits, Task.Preserved: that the
--   mutations keep the relations. Task.Replay, Task.Promises, Task.Fencing, Task.Verified,
--   Task.Revised: what callers rely on.
-- - Transactions.Model and Transactions.Operations: src/installer/transactions.ts, the snapshots,
--   the journal, and classifying, inspecting, recovering and applying. The files are a function of
--   the path, the journal stands beside them, a snapshot keeps the bytes in place of their base64
--   text, and the digest is a parameter. Each call of the caller's `faultBoundary` may throw, which
--   `fails` decides. Resources are published one after the other; Rollback's interrupted disks have
--   any subset of them published, which covers the batches of the source. Transactions.Rollback,
--   Transactions.Publish, Transactions.Atomic, Transactions.Inspect: that an interrupted
--   transaction is taken back or kept whole.
-- - Fence.Operations: src/runtime/execution-fence.ts, the fences of the tasks and the operations
--   on them, each behind the check of the file, and calls in a row as the lock orders them;
--   Fence.Exclusion: that a claim keeps other paths out.
-- - Reuse.Operations: src/verification/contracts.ts, the decision to reuse a check's evidence and
--   the plan of a verification; Reuse.Soundness: what a reuse rests on.
-- - Scheduler.Model, Scheduler.Validate, Scheduler.Operations, Scheduler.Foreground:
--   src/scheduler/contracts.ts, store.ts and service.ts, the schedules with their checks, the
--   commands' operations, and the steps `recover`, `claim`, `finish` and the link of a run to its
--   task. `mutate` reads, changes, checks and writes the file; the digest, the time zones, path
--   resolution, the providers and the size of a state's text are parameters. Scheduler.Calls: calls
--   in a row, of whatever processes. Scheduler.Quarantine and Scheduler.Kept: schedules with an
--   interrupted run; Scheduler.Claims, Scheduler.Endings: starts and ends of runs; Scheduler.Writes
--   and Scheduler.Texts: when an end can be written; Scheduler.Sound: what a read has checked;
--   Scheduler.Runs: lists of runs.
-- - Records.Model and Records.Cycles: src/task-state/records.ts, the knowledge records of a task,
--   the table of their transitions, their dependencies and the search for a cycle; Records.Links
--   and Records.Operations: src/task-state/service.ts, normalizing a record's links and texts, and
--   creating, revising and transitioning a record of a task that was looked up; a file's digest is
--   a parameter. Records.Validate: src/task-state/contracts.ts, what a write checks of the records.
--   Records.Search, Records.Order, Records.Fuel: that the search decides; Records.Changes,
--   Records.Touched, Records.Lifecycle, Records.Limits: what becomes of a record.
-- - Versions.Semver and Versions.Releases: src/installation/updates/semver.ts and
--   release-source.ts, versions and their comparison, and which of the listed releases a check
--   offers; the source's answer is an argument. A numeral's number is the nearest double or
--   Infinity, and a comparison may be NaN. Versions.Order: the order of versions; Versions.Newest:
--   that the newest is offered.
-- - Impact.Traversal: src/task-state/reconcile.ts, the graph of declared links in
--   buildImpactGraph, and its bounded breadth-first traversal; Impact.Bounds: that it ends, and
--   within which bound; Impact.Reach and Impact.Complete: what it visits.
--
-- A call's `Context` holds what it takes from outside: one reading of the clock, its mutation id,
-- the digest of its request, the identifiers that `randomUUID` gives, the process, the snapshot of
-- the working tree, and the probe for a live process. Where a theorem needs new identifiers to be
-- new, it says so.
--
-- All functions are total: loops go over lists by structural recursion. The search for a cycle
-- among records takes one fuel for each nested call, and is given one more than there are ids in
-- the dependencies, counted with repetition; that suffices because the ids on its stack are
-- different. The traversal of the impact graph takes one fuel for each node of its queue, and is
-- given the bound on its nodes and the number of keys that it starts from. The search for the unit
-- of a double takes one fuel for each unit and is given the 972 that there are; a number beyond
-- them is Infinity. Elsewhere numbers are natural numbers without a bound, as the counters of the
-- source stay far below the range where its numbers lose precision; where the source checks for a
-- safe integer, so does the model.
--
-- Not modelled: the keys, the times and the enumerations of a document, which are the model's
-- types; plans of a task and, but for the traversal of their graph, its reconciliations, and
-- listing its records; the enrolment in the enhanced workflow; locks, files, processes and
-- terminals; providers, packs, the installer's planning, the reading and validating of a journal's
-- text, usage, reviews, spec imports and the command line.
pub mod Base
pub mod Fence
pub mod Impact
pub mod Records
pub mod Reuse
pub mod Scheduler
pub mod Task
pub mod Transactions
pub mod Versions
pub mod Workflow
