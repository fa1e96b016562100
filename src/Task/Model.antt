-- ===== src/Task/Model.antt =====
-- task-state/contracts.ts: the task-state document. Times are milliseconds, an absent optional
-- field and null are `none`. Of a task, the records and the reconciliations are left out, and so
-- is the store's project; a check's definition is an opaque text.
use latchkit.Base.{ℕ, String, Bool, true, false, List, Option, ◌&&◌, same_option}

pub data TaskStatus : Type 0 where
  planned running awaiting_decision blocked cancelled completed verified : TaskStatus

pub data RunState : Type 0 where
  running interrupted cancelled completed : RunState

pub data EvidenceOutcome : Type 0 where
  passed failed timed_out cancelled skipped unsupported missing : EvidenceOutcome

-- `enhanced-check:<id>` is `enhanced_check id`; `other_kind` is any text of another form.
pub data EvidenceKind : Type 0 where
  check approval : EvidenceKind
  enhanced_check other_kind : String → EvidenceKind

pub data VerificationMode : Type 0 where
  fast standard : VerificationMode

pub data ProvenanceKind : Type 0 where
  direct_request explicit_cli : ProvenanceKind

pub record SourceSnapshot : Type 0 where
  pub revision : Option String
  pub dirty_fingerprint : Option String

pub record Authorization : Type 0 where
  pub id : String
  pub scope : String
  pub kind : ProvenanceKind
  pub reference : String
  pub granted_at : ℕ

pub record Criterion : Type 0 where
  pub id : String
  pub revision : ℕ
  pub description : String
  pub required : Bool
  pub approval_required : Bool
  pub created_at : ℕ
  pub updated_at : ℕ

pub record ProcessIdentity : Type 0 where
  pub pid : ℕ
  pub hostname : String
  pub platform : String
  pub runtime : String

pub record TaskRun : Type 0 where
  pub id : String
  pub owner_id : String
  pub state : RunState
  pub started_at : ℕ
  pub ended_at : Option ℕ
  pub process : ProcessIdentity
  pub source : SourceSnapshot

pub record TaskCheckpoint : Type 0 where
  pub id : String
  pub run_id : String
  pub task_revision : ℕ
  pub summary : String
  pub source : SourceSnapshot
  pub created_at : ℕ

pub record TaskEnvironment : Type 0 where
  pub platform : String
  pub runtime : String
  pub node : String
  pub cwd : String
  pub details : Option String

pub record TaskEvidence : Type 0 where
  pub id : String
  pub criterion_id : String
  pub criterion_revision : ℕ
  pub run_id : String
  pub kind : EvidenceKind
  pub command : Option String
  pub environment : TaskEnvironment
  pub outcome : EvidenceOutcome
  pub artifact : Option String
  pub source : SourceSnapshot
  pub authorization_id : Option String
  pub created_at : ℕ
  -- The workflow revision and the definition's digest.
  pub enhanced : Option (ℕ × String)

pub record TaskEvent : Type 0 where
  pub id : String
  pub type : String
  pub request_hash : String
  pub task_revision : ℕ
  pub run_id : Option String
  pub created_at : ℕ

pub record TaskOwner : Type 0 where
  pub run_id : String
  pub owner_id : String
  pub revision : ℕ
  pub acquired_at : ℕ

pub record TaskImport : Type 0 where
  pub path : String
  pub sha256 : String
  pub imported_at : ℕ

pub record EnhancedArtifact : Type 0 where
  pub path : String
  pub sha256 : String
  pub template_version : ℕ

pub data CheckType : Type 0 where
  cli http browser manual : CheckType

pub record EnhancedCheck : Type 0 where
  pub id : String
  pub criterion_id : String
  pub type : CheckType
  pub definition_sha256 : String
  pub definition : Option String

pub record EnhancedWorkflow : Type 0 where
  pub revision : ℕ
  pub enrolled_at : ℕ
  pub updated_at : ℕ
  pub prd : EnhancedArtifact
  pub technical_plan : EnhancedArtifact
  pub checks : List EnhancedCheck

pub record Task : Type 0 where
  pub id : String
  pub title : String
  pub state : TaskStatus
  pub revision : ℕ
  pub created_at : ℕ
  pub updated_at : ℕ
  pub authorization_required : Bool
  pub authorizations : List Authorization
  pub owner : Option TaskOwner
  pub criteria : List Criterion
  pub runs : List TaskRun
  pub checkpoints : List TaskCheckpoint
  pub evidence : List TaskEvidence
  pub events : List TaskEvent
  pub imported : Option TaskImport
  pub enhanced_workflow : Option EnhancedWorkflow
  pub verification_mode : Option VerificationMode

pub record TaskState : Type 0 where
  pub schema_version : ℕ
  pub revision : ℕ
  pub created_at : ℕ
  pub updated_at : ℕ
  pub tasks : List Task

-- The reasons of `verificationFailures`, which the source writes as texts.
pub data FailureReason : Type 0 where
  missing_current_evidence approval_missing missing_required_criterion missing_check_mapping :
      FailureReason
  bad_outcome : EvidenceOutcome → FailureReason
  missing_check stale_check : String → FailureReason
  bad_check_outcome : String → EvidenceOutcome → FailureReason

pub record VerificationFailure : Type 0 where
  pub criterion_id : String
  pub reason : FailureReason

-- The codes of `TaskStateError`, with what the error carries.
pub data TaskError : Type 0 where
  revision_required not_found transition_invalid idempotency_conflict authorization_required
        authorization_invalid run_active ownership_conflict state_invalid evidence_rejected
        evidence_stale migration_required migration_unsupported :
      TaskError
  revision_conflict : ℕ → ℕ → TaskError
  not_verifiable : List VerificationFailure → TaskError

abbrev pub is_running : TaskStatus → Bool
is_running TaskStatus.running = true
is_running _ = false

abbrev pub is_active : RunState → Bool
is_active RunState.running = true
is_active _ = false

abbrev pub is_passed : EvidenceOutcome → Bool
is_passed passed = true
is_passed _ = false

abbrev pub is_approval : EvidenceKind → Bool
is_approval approval = true
is_approval _ = false

abbrev pub source_equal : SourceSnapshot → SourceSnapshot → Bool
source_equal left right =
    same_option left.revision right.revision
    && same_option left.dirty_fingerprint right.dirty_fingerprint
