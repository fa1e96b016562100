-- ===== src/Task/Mutations.antt =====
-- Ten mutations of a task that exists, as one operation, and the identifiers that a call draws.
use latchkit.Base.{ℕ, String, Bool, true, false, not, List, ◌&&◌, Option, all, contains, Result}
use latchkit.Task.Model.{Task, TaskState, TaskStatus, TaskError, VerificationMode}
use latchkit.Task.Store.{Context}
use latchkit.Task.Operations.{
  AuthorizationInput, resume_task, authorize_task, pause_task, checkpoint_task, complete_task,
  cancel_task, set_verification_mode,
}
use latchkit.Task.Evidence.{EvidenceInput, record_evidence, verify_task}
use latchkit.Task.Criteria.{CriterionInput, revise_criteria}
use latchkit.Task.Relations.{run_ids, authorization_ids, checkpoint_ids, evidence_ids, event_ids}

-- The requests of `resumeTask`, `authorizeTask`, `pauseTask`, `checkpointTask`, `recordEvidence`,
-- `completeTask`, `cancelTask`, `setVerificationMode`, `verifyTask` and `reviseCriteria`. What creates
-- a task, the enrolment in the enhanced workflow, the records and the reconciliation are no cases.
pub data Mutation : Type 0 where
  resume : Option String → Mutation
  authorize : Option AuthorizationInput → Mutation
  pause : TaskStatus → Mutation
  checkpoint : String → String → Mutation
  evidence : EvidenceInput → Mutation
  complete : String → Mutation
  cancel : Option String → Mutation
  set_mode : VerificationMode → Mutation
  verify : Mutation
  revise : List CriterionInput → Mutation

abbrev pub is_revision : Mutation → Bool
is_revision (revise input) = true
is_revision _ = false

-- The function that answers a request for a task at the revision that the caller expects.
unfoldable pub perform :
    Context → Mutation → String → ℕ → TaskState → Result TaskError (TaskState × Task)
perform ctx (resume owner) task_id expected = resume_task ctx task_id expected owner
perform ctx (authorize input) task_id expected = authorize_task ctx task_id expected input
perform ctx (pause status) task_id expected = pause_task ctx task_id expected status
perform ctx (checkpoint run_id summary) task_id expected =
    checkpoint_task ctx task_id expected run_id summary
perform ctx (evidence input) task_id expected = record_evidence ctx task_id expected input
perform ctx (complete run_id) task_id expected = complete_task ctx task_id expected run_id
perform ctx (cancel reason) task_id expected = cancel_task ctx task_id expected reason
perform ctx (set_mode mode) task_id expected = set_verification_mode ctx task_id expected mode
perform ctx verify task_id expected = verify_task ctx task_id expected
perform ctx (revise input) task_id expected = revise_criteria ctx task_id expected input

-- The identifiers that `randomUUID` gives to this call occur nowhere in the task.
abbrev pub is_fresh : Context → Task → Bool
is_fresh ctx task =
    not (contains (run_ids task.runs) (ctx.fresh "run" 0))
    && (not (contains (authorization_ids task.authorizations) (ctx.fresh "authorization" 0))
        && (not (contains (checkpoint_ids task.checkpoints) (ctx.fresh "checkpoint" 0))
            && (not (contains (evidence_ids task.evidence) (ctx.fresh "evidence" 0))
                && not (contains (event_ids task.events) ctx.mutation_id))))

abbrev pub all_fresh : Context → TaskState → Bool
all_fresh ctx state = all (is_fresh ctx) state.tasks
