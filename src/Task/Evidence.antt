-- ===== src/Task/Evidence.antt =====
-- task-state/service.ts: recording evidence for a criterion, and verifying a completed task.
use latchkit.Base.{
  ℕ, String, Bool, true, false, not, ◌&&◌, ◌||◌, List, [], ◌∷◌, ◌++◌, Option, none, some, find,
  find_last, keep, any, length, is_empty, is_some, ◌==◌, eqb, leb, between, codes, is_digit, all,
  if◌then◌else◌, Result, ok, err, guard, or_fail, ◌>>=◌, ◌>>◌,
}
use latchkit.Task.Model.{
  TaskStatus, completed, verified, Criterion, Task, TaskState, TaskRun, TaskEvidence, TaskError,
  Authorization, direct_request, EvidenceOutcome, EvidenceKind, check, approval, enhanced_check,
  other_kind, SourceSnapshot, EnhancedCheck, EnhancedWorkflow, VerificationFailure, FailureReason,
  missing_current_evidence, approval_missing, missing_required_criterion, missing_check_mapping,
  bad_outcome, missing_check, stale_check, bad_check_outcome, is_passed, is_approval, source_equal,
  state_invalid, authorization_required, evidence_rejected, evidence_stale, transition_invalid,
  not_verifiable,
}
use latchkit.Task.Store.{Context, commit_event, open_task}
use latchkit.Task.Operations.{AuthorizationInput, normalize_authorization, active_run}
use latchkit.Task.Criteria.{has_criterion_id}

pub record EvidenceInput : Type 0 where
  pub run_id : String
  pub criterion_id : String
  pub criterion_revision : ℕ
  pub kind : Option EvidenceKind
  pub outcome : EvidenceOutcome
  pub command : Option String
  pub environment_details : Option String
  pub artifact : Option String
  pub authorization : Option AuthorizationInput
  pub enhanced : Option (ℕ × String)

abbrev is_word : ℕ → Bool
is_word c = is_digit c || between b'a' b'z' c

abbrev is_name_part : ℕ → Bool
is_name_part c = is_word c || (eqb c b'.' || (eqb c b'_' || eqb c b'-'))

-- `^[a-z0-9][a-z0-9._-]{0,127}$`.
abbrev is_check_name : List ℕ → Bool
is_check_name [] = false
is_check_name (c ∷ cs) = is_word c && (leb (length cs) 127 && all is_name_part cs)

unfoldable pub is_check_id : String → Bool
is_check_id id = is_check_name (codes id)

abbrev pub evidence_kind : Option EvidenceKind → EvidenceKind
evidence_kind none = check
evidence_kind (some kind) = kind

abbrev pub has_check_id : String → EnhancedCheck → Bool
has_check_id id item = item.id == id

abbrev pub is_registered : Option EnhancedWorkflow → String → Bool
is_registered none id = false
is_registered (some workflow) id = any (has_check_id id) workflow.checks

-- The authorizations of the task and the id that the evidence refers to, once its kind is accepted.
unfoldable pub accept_kind :
    Context
    → Task
    → Option AuthorizationInput
    → EvidenceKind
    → Result TaskError (List Authorization × Option String)
unfolding normalize_authorization is_check_id
accept_kind ctx task input approval = do
  grant ← normalize_authorization ctx input direct_request
  ok (task.authorizations ++ grant ∷ [], some grant.id)
accept_kind ctx task input check = ok (task.authorizations, none)
accept_kind ctx task input (enhanced_check id) = do
  guard (is_check_id id) state_invalid
  guard (is_registered task.enhanced_workflow id) evidence_rejected
  ok (task.authorizations, none)
accept_kind ctx task input (other_kind text) = err state_invalid

abbrev pub new_evidence :
    Context → EvidenceInput → Criterion → TaskRun → Option String → TaskEvidence
new_evidence ctx input criterion run authorization_id = record {
  id = ctx.fresh "evidence" 0;
  criterion_id = criterion.id;
  criterion_revision = criterion.revision;
  run_id = run.id;
  kind = evidence_kind input.kind;
  command = input.command;
  environment = record (ctx.environment) { details = input.environment_details };
  outcome = input.outcome;
  artifact = input.artifact;
  source = ctx.source;
  authorization_id = authorization_id;
  created_at = ctx.at;
  enhanced = input.enhanced;
}

abbrev pub with_evidence : TaskEvidence → List Authorization → Task → Task
with_evidence item grants task = record task {
  authorizations = grants;
  evidence = task.evidence ++ item ∷ [];
}

unfoldable pub record_evidence :
    Context → String → ℕ → EvidenceInput → TaskState → Result TaskError (TaskState × Task)
unfolding open_task commit_event
record_evidence ctx task_id expected input state = do
  task ← open_task state task_id expected
  run ← active_run task input.run_id
  criterion ← or_fail (find (has_criterion_id input.criterion_id) task.criteria) evidence_rejected
  guard (eqb input.criterion_revision criterion.revision) evidence_stale
  guard (not (criterion.approval_required && not (is_approval (evidence_kind input.kind))))
      authorization_required
  accepted ← accept_kind ctx task input.authorization (evidence_kind input.kind)
  ok (
      commit_event ctx "evidence.recorded" (some run.id) state
        (with_evidence (new_evidence ctx input criterion run accepted.1) accepted.0 task))

-- Evidence for the criterion as it now stands.
abbrev pub is_for : Criterion → TaskEvidence → Bool
is_for criterion item =
    item.criterion_id == criterion.id && eqb item.criterion_revision criterion.revision

abbrev pub is_current : Criterion → SourceSnapshot → TaskEvidence → Bool
is_current criterion source item = is_for criterion item && source_equal item.source source

abbrev pub has_authorization : List Authorization → Option String → Bool
has_authorization grants none = false
has_authorization grants (some id) = any (λ grant. grant.id == id) grants

-- The first half of `verificationFailures`: why a required criterion is not shown.
unfoldable pub criterion_failure : Task → SourceSnapshot → Criterion → Option FailureReason
criterion_failure task source criterion =
    elim (find_last (is_current criterion source) task.evidence) [
      | none ↦ some missing_current_evidence
      | some item ↦
          if not (is_passed item.outcome)
          then some (bad_outcome item.outcome)
          else if criterion.approval_required
              && (not (is_approval item.kind)
                  || not (has_authorization task.authorizations item.authorization_id))
          then some approval_missing
          else none
    ]

abbrev pub failure_at : String → Option FailureReason → List VerificationFailure
failure_at id none = []
failure_at id (some reason) = record { criterion_id = id; reason = reason } ∷ []

unfoldable pub criteria_failures : Task → SourceSnapshot → List Criterion → List VerificationFailure
unfolding criterion_failure
criteria_failures task source [] = []
criteria_failures task source (criterion ∷ rest) =
    failure_at criterion.id (criterion_failure task source criterion)
    ++ criteria_failures task source rest

abbrev pub is_check_kind : String → EvidenceKind → Bool
is_check_kind id (enhanced_check other) = other == id
is_check_kind id _ = false

abbrev pub matches_definition : EnhancedWorkflow → EnhancedCheck → Option (ℕ × String) → Bool
matches_definition workflow item none = false
matches_definition workflow item (some (revision, digest)) =
    eqb revision workflow.revision && digest == item.definition_sha256

-- Why an enhanced check of a required criterion is not shown.
unfoldable pub check_failure :
    Task → SourceSnapshot → EnhancedWorkflow → Criterion → EnhancedCheck → Option FailureReason
check_failure task source workflow criterion item =
    elim (find_last (λ e. is_current criterion source e && is_check_kind item.id e.kind)
      task.evidence) [
        | none ↦ some (missing_check item.id)
        | some found ↦
            if not (is_passed found.outcome)
            then some (bad_check_outcome item.id found.outcome)
            else if is_some item.definition && not (matches_definition workflow item found.enhanced)
            then some (stale_check item.id)
            else none
      ]

unfoldable pub checks_failures :
    Task
    → SourceSnapshot
    → EnhancedWorkflow
    → Criterion
    → List EnhancedCheck
    → List VerificationFailure
unfolding check_failure
checks_failures task source workflow criterion [] = []
checks_failures task source workflow criterion (item ∷ rest) =
    failure_at criterion.id (check_failure task source workflow criterion item)
    ++ checks_failures task source workflow criterion rest

abbrev pub checks_of : EnhancedWorkflow → Criterion → List EnhancedCheck
checks_of workflow criterion = keep (λ item. item.criterion_id == criterion.id) workflow.checks

abbrev mapped_failures :
    Task
    → SourceSnapshot
    → EnhancedWorkflow
    → Criterion
    → List EnhancedCheck
    → List VerificationFailure
mapped_failures task source workflow criterion [] =
    failure_at criterion.id (some missing_check_mapping)
mapped_failures task source workflow criterion items =
    checks_failures task source workflow criterion items

unfoldable pub workflow_failures :
    Task → SourceSnapshot → EnhancedWorkflow → List Criterion → List VerificationFailure
unfolding checks_failures
workflow_failures task source workflow [] = []
workflow_failures task source workflow (criterion ∷ rest) =
    mapped_failures task source workflow criterion (checks_of workflow criterion)
    ++ workflow_failures task source workflow rest

abbrev pub required_criteria : Task → List Criterion
required_criteria task = keep (λ c. c.required) task.criteria

unfoldable pub enhanced_failures :
    Task → SourceSnapshot → Option EnhancedWorkflow → List VerificationFailure
unfolding workflow_failures
enhanced_failures task source none = []
enhanced_failures task source (some workflow) =
    (if is_empty (required_criteria task)
      then failure_at "enhanced-workflow" (some missing_required_criterion)
      else [])
    ++ workflow_failures task source workflow (required_criteria task)

unfoldable pub verification_failures : Task → SourceSnapshot → List VerificationFailure
unfolding criteria_failures enhanced_failures
verification_failures task source =
    criteria_failures task source (required_criteria task)
    ++ enhanced_failures task source task.enhanced_workflow

abbrev pub is_completed : TaskStatus → Bool
is_completed completed = true
is_completed _ = false

unfoldable pub verify_task : Context → String → ℕ → TaskState → Result TaskError (TaskState × Task)
unfolding open_task commit_event
verify_task ctx task_id expected state = do
  task ← open_task state task_id expected
  guard (is_completed task.state) transition_invalid
  guard (is_empty (verification_failures task ctx.source))
      (not_verifiable (verification_failures task ctx.source))
  ok (commit_event ctx "task.verified" none state (record task { state = verified }))
