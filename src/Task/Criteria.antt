-- ===== src/Task/Criteria.antt =====
-- task-state/service.ts: creating a task and revising its criteria.
use latchkit.Base.{
  ℕ, suc, String, Bool, true, false, not, ◌&&◌, ◌||◌, List, [], ◌∷◌, ◌++◌, Option, none, some, find,
  is_empty, is_some, ◌==◌, leb, map, distinct, is_blank, if◌then◌else◌, Result, ok, guard, ◌>>=◌,
  ◌>>◌,
}
use latchkit.Task.Model.{
  TaskStatus, planned, awaiting_decision, completed, Criterion, Task, TaskState, TaskImport,
  TaskError, Authorization, direct_request, VerificationMode, standard, state_invalid,
}
use latchkit.Task.Store.{
  Context, validate_stable_id, committed, advance, commit_event, open_mutable_task,
}
use latchkit.Task.Operations.{AuthorizationInput, normalize_authorization}

pub record CriterionInput : Type 0 where
  pub id : Option String
  pub description : String
  pub required : Option Bool
  pub approval_required : Option Bool

abbrev pub or_default {ℓ} : {A : Type ℓ} → Option A → A → A
or_default none d = d
or_default (some a) d = a

-- The id that the caller gives, checked. The empty text counts as absent.
unfoldable pub supplied_id : Option String → Result TaskError (Option String)
supplied_id none = ok none
supplied_id (some id) =
    if id == "" then ok none else (validate_stable_id "criterion" id >> ok (some id))

abbrev pub new_criterion : Context → ℕ → Option String → CriterionInput → Criterion
new_criterion ctx index id input = record {
  id = or_default id (ctx.fresh "criterion" index);
  revision = 1;
  description = input.description;
  required = or_default input.required true;
  approval_required = or_default input.approval_required false;
  created_at = ctx.at;
  updated_at = ctx.at;
}

unfoldable pub normalize_criteria :
    Context → ℕ → List CriterionInput → Result TaskError (List Criterion)
unfolding supplied_id
normalize_criteria ctx index [] = ok []
normalize_criteria ctx index (input ∷ rest) = do
  guard (not (is_blank input.description)) state_invalid
  id ← supplied_id input.id
  later ← normalize_criteria ctx (suc index) rest
  ok (new_criterion ctx index id input ∷ later)

abbrev pub same_flag : Bool → Bool → Bool
same_flag true b = b
same_flag false b = not b

-- Whether an input changes what the criterion asks.
abbrev pub is_changed : Criterion → CriterionInput → Bool
is_changed previous input =
    not (previous.description == input.description)
    || (not (same_flag previous.required (or_default input.required true))
        || not (same_flag previous.approval_required (or_default input.approval_required false)))

-- A criterion that stays: its revision grows when its content changes, and then only.
abbrev pub revised : Context → Criterion → CriterionInput → Criterion
revised ctx previous input = record previous {
  description = input.description;
  required = or_default input.required true;
  approval_required = or_default input.approval_required false;
  revision = if is_changed previous input then suc previous.revision else previous.revision;
  updated_at = if is_changed previous input then ctx.at else previous.updated_at;
}

abbrev pub has_criterion_id : String → Criterion → Bool
has_criterion_id id criterion = criterion.id == id

abbrev pub find_previous : List Criterion → Option String → Option Criterion
find_previous current none = none
find_previous current (some id) = find (has_criterion_id id) current

abbrev pub reconciled : Context → List Criterion → ℕ → Option String → CriterionInput → Criterion
reconciled ctx current index id input = elim (find_previous current id) [
  | none ↦ new_criterion ctx index id input
  | some previous ↦ revised ctx previous input
]

unfoldable pub reconcile_each :
    Context → List Criterion → ℕ → List CriterionInput → Result TaskError (List Criterion)
unfolding supplied_id
reconcile_each ctx current index [] = ok []
reconcile_each ctx current index (input ∷ rest) = do
  guard (not (is_blank input.description)) state_invalid
  id ← supplied_id input.id
  later ← reconcile_each ctx current (suc index) rest
  ok (reconciled ctx current index id input ∷ later)

abbrev pub criterion_ids : List Criterion → List String
criterion_ids = map λ c. c.id

unfoldable pub reconcile_criteria :
    Context → List Criterion → List CriterionInput → Result TaskError (List Criterion)
reconcile_criteria ctx current input = do
  next ← reconcile_each ctx current 0 input
  guard (distinct (criterion_ids next)) state_invalid
  ok next

abbrev pub planned_if_completed : TaskStatus → TaskStatus
planned_if_completed completed = planned
planned_if_completed status = status

unfoldable pub revise_criteria :
    Context → String → ℕ → List CriterionInput → TaskState → Result TaskError (TaskState × Task)
unfolding open_mutable_task reconcile_criteria commit_event
revise_criteria ctx task_id expected input state = do
  task ← open_mutable_task state task_id expected
  criteria ← reconcile_criteria ctx task.criteria input
  ok (
      commit_event ctx "criteria.revised" none state
        (record task { criteria = criteria; state = planned_if_completed task.state }))

pub record CreateTaskInput : Type 0 where
  pub title : String
  pub criteria : List CriterionInput
  pub authorization_required : Option Bool
  pub authorization : Option AuthorizationInput
  pub verification_mode : Option VerificationMode
  pub imported : Option TaskImport

unfoldable pub initial_authorizations :
    Context → Option AuthorizationInput → Result TaskError (List Authorization)
unfolding normalize_authorization
initial_authorizations ctx none = ok []
initial_authorizations ctx (some input) = do
  grant ← normalize_authorization ctx (some input) (or_default input.provenance_kind direct_request)
  ok (grant ∷ [])

abbrev pub new_task : Context → CreateTaskInput → ℕ → List Authorization → List Criterion → Task
new_task ctx input schema_version grants criteria = record {
  id = ctx.fresh "task" 0;
  title = input.title;
  state =
      if or_default input.authorization_required true && is_empty grants
      then awaiting_decision
      else planned;
  revision = 0;
  created_at = ctx.at;
  updated_at = ctx.at;
  authorization_required = or_default input.authorization_required true;
  authorizations = grants;
  owner = none;
  criteria = criteria;
  runs = [];
  checkpoints = [];
  evidence = [];
  events = [];
  imported = input.imported;
  enhanced_workflow = none;
  verification_mode =
      if leb 3 schema_version then some (or_default input.verification_mode standard) else none;
}

unfoldable pub create_task :
    Context → CreateTaskInput → TaskState → Result TaskError (TaskState × Task)
unfolding initial_authorizations normalize_criteria
create_task ctx input state = do
  guard (not (is_blank input.title)) state_invalid
  grants ← initial_authorizations ctx input.authorization
  criteria ← normalize_criteria ctx 0 input.criteria
  let type = if is_some input.imported then "task.imported" else "task.created"
  let task = committed ctx type none (new_task ctx input state.schema_version grants criteria)
  ok (advance ctx state (state.tasks ++ task ∷ []), task)
