-- ===== src/Scheduler/Model.antt =====
-- scheduler/contracts.ts and scheduler/service.ts: schedules, their runs, and what the operations are
-- given. A time is its milliseconds.
use latchkit.Base.{ℕ, ℤ, String, Bool, true, false, List, Option}

pub data ScheduleRunState : Type 0 where
  running completed failed timed_out cancelled blocked interrupted skipped : ScheduleRunState

pub record RunResult : Type 0 where
  pub status : String
  pub exit_code : Option ℤ
  pub output_bytes : ℕ
  pub code : Option String

pub record ScheduleRun : Type 0 where
  pub id : String
  pub task_id : Option String
  pub cancel_requested_at : Option ℕ
  pub state : ScheduleRunState
  pub started_at : ℕ
  pub ended_at : Option ℕ
  pub reason : Option String
  pub result : Option RunResult

pub record Authorization : Type 0 where
  pub scope : String
  pub reference : String
  pub execution_authorized : Bool

pub record Limits : Type 0 where
  pub timeout_ms : ℕ
  pub output_limit_bytes : ℕ
  pub max_runs : ℕ

-- The parts that the digest covers stand in a record of their own.
pub record Definition : Type 0 where
  pub target_project : String
  pub provider_id : String
  pub timezone : String
  pub every_minutes : ℕ
  pub instructions : String
  pub authorization : Authorization
  pub limits : Limits

pub record Schedule : Type 0 where
  pub id : String
  pub revision : ℕ
  pub enabled : Bool
  pub definition : Definition
  pub next_run_at : ℕ
  pub authorized_definition_sha256 : String
  pub runs : List ScheduleRun
  pub created_at : ℕ
  pub updated_at : ℕ

pub record SchedulerState : Type 0 where
  pub project_id : String
  pub revision : ℕ
  pub schedules : List Schedule
  pub created_at : ℕ
  pub updated_at : ℕ

-- The codes of `SchedulerError`, and the type error of a run that is no longer there.
pub data SchedulerError : Type 0 where
  invalid redacted scope_changed not_found revision_conflict run_active orphan_review_required :
      SchedulerError
  provider_unavailable target_changed missing_run : SchedulerError

-- The digest of a definition, the time zones and the paths that the platform knows, the ids of the
-- registered providers, and how many bytes the JSON text of a state takes.
pub record Host : Type 0 where
  pub digest : Definition → String
  pub is_timezone : String → Bool
  pub local_timezone : String
  pub resolve : String → String
  pub providers : List String
  pub size : SchedulerState → ℕ

-- The project, the clock and the random ids of one call.
pub record CallContext : Type 0 where
  pub root : String
  pub at : ℕ
  pub fresh_id : String
  pub fresh_project_id : String

pub record PartialLimits : Type 0 where
  pub timeout_ms : Option ℕ
  pub output_limit_bytes : Option ℕ
  pub max_runs : Option ℕ

pub record Input : Type 0 where
  pub timezone : Option String
  pub every_minutes : ℕ
  pub provider_id : String
  pub instructions : String
  pub authorization : Authorization
  pub limits : PartialLimits

pub record Patch : Type 0 where
  pub expected_revision : Option ℕ
  pub timezone : Option String
  pub every_minutes : Option ℕ
  pub provider_id : Option String
  pub instructions : Option String
  pub authorization : Option Authorization
  pub limits : PartialLimits

-- runtime/process-runner.ts: how an owned process ended.
pub data ProcessStatus : Type 0 where
  refused spawn_failed timed_out_process cancelled_process output_limit exited : ProcessStatus

pub record ProcessRunResult : Type 0 where
  pub status : ProcessStatus
  pub code : Option String
  pub exit_code : Option ℤ
  pub output_bytes : Option ℕ

abbrev pub status_text : ProcessStatus → String
status_text refused = "refused"
status_text spawn_failed = "spawn-failed"
status_text timed_out_process = "timed-out"
status_text cancelled_process = "cancelled"
status_text output_limit = "output-limit"
status_text exited = "exited"

abbrev pub is_running_run : ScheduleRunState → Bool
is_running_run running = true
is_running_run _ = false

abbrev pub is_interrupted_run : ScheduleRunState → Bool
is_interrupted_run interrupted = true
is_interrupted_run _ = false

abbrev pub stops_schedule : ScheduleRunState → Bool
stops_schedule blocked = true
stops_schedule failed = true
stops_schedule _ = false
