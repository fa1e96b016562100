-- ===== src/Records/Model.antt =====
-- task-state/records.ts: records, their statuses, and the table of their transitions. A path is the
-- codes of its characters, and a time its milliseconds.
use latchkit.Base.{ℕ, String, Bool, false, ◌||◌, List, [], ◌∷◌, Option, none, some, eqb, any}
use latchkit.Task.Model.{Task, TaskError}

pub data RecordKind : Type 0 where
  decision assumption observation question : RecordKind

pub data RecordStatus : Type 0 where
  proposed accepted tentative confirmed contradicted unverified verified stale opened answered :
      RecordStatus
  withdrawn retracted superseded : RecordStatus

pub data RecordProvenanceKind : Type 0 where
  direct_user agent_inferred imported execution_observed : RecordProvenanceKind

pub record TaskRecordProvenance : Type 0 where
  pub kind : RecordProvenanceKind
  pub reference : String

pub data RecordLink : Type 0 where
  record_link criterion_link : String → ℕ → RecordLink
  evidence_link : String → RecordLink
  memory_link : String → ℕ → RecordLink
  source_link : List ℕ → Option String → ℕ → RecordLink

pub data HistoryAction : Type 0 where
  created revised transitioned : HistoryAction

pub record TaskRecordHistoryEntry : Type 0 where
  pub revision : ℕ
  pub status : RecordStatus
  pub text : String
  pub action : HistoryAction
  pub reason : Option String
  pub authorization_id : Option String
  pub created_at : ℕ

pub record TaskRecord : Type 0 where
  pub id : String
  pub kind : RecordKind
  pub revision : ℕ
  pub status : RecordStatus
  pub text : String
  pub provenance : TaskRecordProvenance
  pub links : List RecordLink
  pub supersedes : Option String
  pub superseded_by : Option String
  pub history : List TaskRecordHistoryEntry
  pub created_at : ℕ
  pub updated_at : ℕ

-- A task with its records.
pub record RecordedTask : Type 0 where
  pub task : Task
  pub records : List TaskRecord

-- The codes that the records add; the others are the task's.
pub data RecordError : Type 0 where
  invalid text_too_large limit_exceeded record_not_found record_stale link_invalid source_missing :
      RecordError
  record_transition_invalid evidence_required record_authorization_invalid : RecordError
  authority_required : RecordError
  record_cycle : List String → RecordError
  task_error : TaskError → RecordError

abbrev pub kind_code : RecordKind → ℕ
kind_code decision = 0
kind_code assumption = 1
kind_code observation = 2
kind_code question = 3

abbrev pub same_kind : RecordKind → RecordKind → Bool
same_kind a b = eqb (kind_code a) (kind_code b)

abbrev pub status_code : RecordStatus → ℕ
status_code proposed = 0
status_code accepted = 1
status_code tentative = 2
status_code confirmed = 3
status_code contradicted = 4
status_code unverified = 5
status_code verified = 6
status_code stale = 7
status_code opened = 8
status_code answered = 9
status_code withdrawn = 10
status_code retracted = 11
status_code superseded = 12

abbrev pub same_status : RecordStatus → RecordStatus → Bool
same_status a b = eqb (status_code a) (status_code b)

abbrev pub includes : List RecordStatus → RecordStatus → Bool
includes statuses s = any (same_status s) statuses

abbrev pub record_statuses : RecordKind → List RecordStatus
record_statuses decision = proposed ∷ accepted ∷ retracted ∷ superseded ∷ []
record_statuses assumption = tentative ∷ confirmed ∷ contradicted ∷ retracted ∷ superseded ∷ []
record_statuses observation = unverified ∷ verified ∷ stale ∷ retracted ∷ superseded ∷ []
record_statuses question = opened ∷ answered ∷ withdrawn ∷ superseded ∷ []

abbrev pub record_initial_status : RecordKind → RecordStatus
record_initial_status decision = proposed
record_initial_status assumption = tentative
record_initial_status observation = unverified
record_initial_status question = opened

abbrev pub authoritative_status : RecordKind → Option RecordStatus
authoritative_status decision = some accepted
authoritative_status assumption = some confirmed
authoritative_status observation = none
authoritative_status question = some answered

abbrev pub record_terminal_statuses : List RecordStatus
record_terminal_statuses = retracted ∷ superseded ∷ []

unfoldable pub allowed_record_transitions : RecordKind → RecordStatus → List RecordStatus
allowed_record_transitions decision proposed = accepted ∷ retracted ∷ superseded ∷ []
allowed_record_transitions decision accepted = retracted ∷ superseded ∷ []
allowed_record_transitions assumption tentative =
    confirmed ∷ contradicted ∷ retracted ∷ superseded ∷ []
allowed_record_transitions assumption confirmed = contradicted ∷ retracted ∷ superseded ∷ []
allowed_record_transitions assumption contradicted = retracted ∷ superseded ∷ []
allowed_record_transitions observation unverified = verified ∷ stale ∷ retracted ∷ superseded ∷ []
allowed_record_transitions observation verified = stale ∷ retracted ∷ superseded ∷ []
allowed_record_transitions observation stale = verified ∷ retracted ∷ superseded ∷ []
allowed_record_transitions question opened = answered ∷ withdrawn ∷ superseded ∷ []
allowed_record_transitions question answered = withdrawn ∷ superseded ∷ []
allowed_record_transitions _ _ = []

abbrev pub is_record_transition_valid : RecordKind → RecordStatus → RecordStatus → Bool
is_record_transition_valid kind from to = includes (allowed_record_transitions kind from) to

abbrev pub is_record_status_terminal : RecordStatus → Bool
is_record_status_terminal = includes record_terminal_statuses

abbrev pub is_status : RecordStatus → Option RecordStatus → Bool
is_status s none = false
is_status s (some t) = same_status s t

abbrev pub is_record_authoritative_status : RecordKind → RecordStatus → Bool
is_record_authoritative_status kind s = is_status s (authoritative_status kind)

abbrev pub record_transition_requires_authority : RecordKind → RecordStatus → RecordStatus → Bool
record_transition_requires_authority kind from to =
    is_record_authoritative_status kind from || is_record_authoritative_status kind to

abbrev pub max_record_text_bytes : ℕ
max_record_text_bytes = 4096

abbrev pub max_record_reason_bytes : ℕ
max_record_reason_bytes = 2048

abbrev pub max_record_reference_bytes : ℕ
max_record_reference_bytes = 1024

abbrev pub max_record_links : ℕ
max_record_links = 32

abbrev pub max_record_history : ℕ
max_record_history = 40

abbrev pub max_records_per_task : ℕ
max_records_per_task = 500
