-- ===== src/Task/Formats.antt =====
-- task-state/contracts.ts: the checks of the single fields of the task-state document, and the
-- validation that a write makes, which is these checks and the relations between the parts; and
-- task-state/service.ts: `mutate`, which runs a mutation once for each mutation id. That a
-- time is one, that no key is missing or unknown, and that a value is one of a list is the model's
-- types; the records, the reconciliations and the project are not part of the model's document.
use latchkit.Base.{
  ℕ, String, Bool, true, false, not, ◌&&◌, ◌||◌, List, [], ◌∷◌, Option, none, some, all, any, leb,
  eqb, codes, between, is_blank, is_lower_hex, is_some, matches_shape, replicate, strip_prefix,
  if◌then◌else◌, Result, ok, guard, ◌>>=◌, ◌>>◌,
}
use latchkit.Task.Model.{
  Task, TaskState, TaskRun, TaskOwner, TaskCheckpoint, TaskEvidence, TaskEvent, TaskImport,
  Criterion, Authorization, EnhancedWorkflow, EnhancedArtifact, EnhancedCheck, SourceSnapshot,
  ProcessIdentity, TaskEnvironment, EvidenceKind, check, approval, enhanced_check, other_kind,
  TaskError, state_invalid,
}
use latchkit.Task.Store.{Context, is_stable_id, find_prior_mutation}
use latchkit.Task.Evidence.{is_check_id}
use latchkit.Task.Relations.{relations_valid}

-- `string`.
abbrev is_text : String → Bool
is_text text = not (is_blank text)

-- `hash`.
unfoldable pub is_digest : String → Bool
is_digest text = matches_shape (replicate 64 is_lower_hex) (codes text)

abbrev absent_or {ℓ} : {A : Type ℓ} → (A → Bool) → Option A → Bool
absent_or p none = true
absent_or p (some a) = p a

abbrev source_valid : SourceSnapshot → Bool
source_valid source = absent_or is_digest source.dirty_fingerprint

abbrev authorization_valid : Authorization → Bool
authorization_valid item =
    is_stable_id "authorization" item.id && (is_text item.scope && is_text item.reference)

abbrev criterion_valid : Criterion → Bool
criterion_valid item =
    is_stable_id "criterion" item.id && (leb 1 item.revision && is_text item.description)

abbrev process_valid : ProcessIdentity → Bool
process_valid process =
    leb 1 process.pid
    && (is_text process.hostname && (is_text process.platform && is_text process.runtime))

abbrev run_valid : TaskRun → Bool
run_valid run =
    is_stable_id "run" run.id
    && (is_stable_id "owner" run.owner_id && (process_valid run.process && source_valid run.source))

abbrev checkpoint_format : TaskCheckpoint → Bool
checkpoint_format item =
    is_stable_id "checkpoint" item.id
    && (is_stable_id "run" item.run_id
        && (leb 1 item.task_revision && (is_text item.summary && source_valid item.source)))

abbrev environment_valid : TaskEnvironment → Bool
environment_valid e = is_text e.platform && (is_text e.runtime && (is_text e.node && is_text e.cwd))

abbrev kind_valid : EvidenceKind → Bool
kind_valid check = true
kind_valid approval = true
kind_valid (enhanced_check id) = is_check_id id
kind_valid (other_kind text) = false

-- The workflow revision and the digest of the definition.
abbrev enhanced_valid : ℕ × String → Bool
enhanced_valid (revision, digest) = leb 1 revision && is_digest digest

unfoldable pub evidence_format : TaskEvidence → Bool
evidence_format item =
    is_stable_id "evidence" item.id
    && (is_stable_id "criterion" item.criterion_id
        && (leb 1 item.criterion_revision
            && (is_stable_id "run" item.run_id
                && (kind_valid item.kind
                    && (environment_valid item.environment
                        && (source_valid item.source
                            && (absent_or (is_stable_id "authorization") item.authorization_id
                                && absent_or enhanced_valid item.enhanced)))))))

abbrev event_valid : TaskEvent → Bool
event_valid event =
    is_stable_id "event" event.id
    && (is_text event.type
        && (is_digest event.request_hash
            && (leb 1 event.task_revision && absent_or (is_stable_id "run") event.run_id)))

abbrev owner_format : TaskOwner → Bool
owner_format owner =
    is_stable_id "run" owner.run_id && (is_stable_id "owner" owner.owner_id && leb 1 owner.revision)

abbrev import_valid : TaskImport → Bool
import_valid imported = is_text imported.path && is_digest imported.sha256

-- The line ends, which `.` does not match.
abbrev is_line_end : ℕ → Bool
is_line_end c = eqb c 10 || (eqb c 13 || between 8232 8233 c)

-- `.+\.md$`.
abbrev is_markdown_name : List ℕ → Bool
is_markdown_name [] = false
is_markdown_name (c ∷ cs) =
    not (is_line_end c)
    && (matches_shape (eqb b'.' ∷ eqb b'm' ∷ eqb b'd' ∷ []) cs || is_markdown_name cs)

abbrev markdown_rest : Option (List ℕ) → Bool
markdown_rest none = false
markdown_rest (some rest) = is_markdown_name rest

-- `PLAN_ARTIFACT_PATH_PATTERN`.
unfoldable pub is_plan_path : String → Bool
is_plan_path path =
    markdown_rest (strip_prefix (codes "docs/plans/") (codes path))
    || markdown_rest (strip_prefix (codes ".latchkit/notes/") (codes path))

abbrev artifact_valid : EnhancedArtifact → Bool
artifact_valid artifact =
    is_text artifact.path
    && (is_plan_path artifact.path
        && (is_digest artifact.sha256 && leb 1 artifact.template_version))

abbrev check_valid : EnhancedCheck → Bool
check_valid item =
    is_check_id item.id
    && (is_stable_id "criterion" item.criterion_id && is_digest item.definition_sha256)

abbrev workflow_format : EnhancedWorkflow → Bool
workflow_format workflow =
    leb 1 workflow.revision
    && (artifact_valid workflow.prd
        && (artifact_valid workflow.technical_plan && all check_valid workflow.checks))

abbrev is_enhanced : TaskEvidence → Bool
is_enhanced item = elim item.kind [
  | check ↦ false
  | approval ↦ false
  | enhanced_check id ↦ true
  | other_kind text ↦ false
]

-- What a task may have at a schema version: enhanced checks from 2 on, and a mode from 3 on.
abbrev version_valid : ℕ → Task → Bool
version_valid version task =
    (leb 2 version || not (any is_enhanced task.evidence || is_some task.enhanced_workflow))
    && (if leb 3 version
        then is_some task.verification_mode
        else not (is_some task.verification_mode))

-- The fields of one task, as `validateTask` checks them.
unfoldable pub task_format : ℕ → Task → Bool
task_format version task =
    is_stable_id "task" task.id
    && (is_text task.title
        && (leb 1 task.revision
            && (all authorization_valid task.authorizations
                && (all criterion_valid task.criteria
                    && (all run_valid task.runs
                        && (all checkpoint_format task.checkpoints
                            && (all evidence_format task.evidence
                                && (all event_valid task.events
                                    && (absent_or owner_format task.owner
                                        && (absent_or import_valid task.imported
                                            && (absent_or workflow_format task.enhanced_workflow
                                                && version_valid version task)))))))))))

-- `validateTaskState`.
unfoldable pub validate_task_state : TaskState → Bool
validate_task_state state =
    (between 1 5 state.schema_version && all (task_format state.schema_version) state.tasks)
    && relations_valid state

-- A mutation whose id was committed before returns that task and writes nothing; any other runs its
-- operation, and what it writes is checked.
unfoldable pub mutate :
    Context
    → (TaskState → Result TaskError (TaskState × Task))
    → TaskState
    → Result TaskError (TaskState × Task)
mutate ctx operation state = do
  prior ← find_prior_mutation state.tasks ctx.mutation_id ctx.hash
  elim prior [
    | some task ↦ ok (state, task)
    | none ↦ do done ← operation state; guard (validate_task_state done.0) state_invalid; ok done
  ]
