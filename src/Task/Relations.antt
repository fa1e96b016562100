-- ===== src/Task/Relations.antt =====
-- task-state/contracts.ts: the relations between the parts of a task that every write of the store
-- checks. The checks of single fields stand in Task.Formats.
use latchkit.Base.{
  ℕ, suc, ◌+◌, String, Bool, true, false, not, ◌&&◌, List, [], ◌∷◌, Option, none, some, find, keep,
  any, all, length, is_empty, is_some, ◌==◌, eqb, leb, map, contains, distinct,
}
use latchkit.Task.Model.{
  Task, TaskState, TaskRun, TaskOwner, TaskCheckpoint, TaskEvidence, TaskEvent, Criterion,
  Authorization, EnhancedWorkflow, EnhancedCheck, is_running, is_active, is_approval,
}
use latchkit.Task.Operations.{has_run_id}
use latchkit.Task.Criteria.{has_criterion_id, criterion_ids, same_flag}

abbrev pub run_ids : List TaskRun → List String
run_ids = map λ r. r.id

abbrev pub authorization_ids : List Authorization → List String
authorization_ids = map λ a. a.id

abbrev pub checkpoint_ids : List TaskCheckpoint → List String
checkpoint_ids = map λ c. c.id

abbrev pub evidence_ids : List TaskEvidence → List String
evidence_ids = map λ e. e.id

abbrev pub event_ids : List TaskEvent → List String
event_ids = map λ e. e.id

abbrev pub check_ids : List EnhancedCheck → List String
check_ids = map λ c. c.id

abbrev pub is_active_run : TaskRun → Bool
is_active_run run = is_active run.state

abbrev pub owner_count : Option TaskOwner → ℕ
owner_count none = 0
owner_count (some owner) = 1

abbrev pub owns : ℕ → TaskOwner → TaskRun → Bool
owns revision owner run =
    run.owner_id == owner.owner_id && (is_active run.state && leb owner.revision revision)

abbrev pub owner_valid : ℕ → List TaskRun → Option TaskOwner → Bool
owner_valid revision runs none = true
owner_valid revision runs (some owner) = elim (find (has_run_id owner.run_id) runs) [
  | none ↦ false
  | some run ↦ owns revision owner run
]

abbrev pub checkpoint_valid : ℕ → List String → TaskCheckpoint → Bool
checkpoint_valid revision runs item = contains runs item.run_id && leb item.task_revision revision

abbrev pub criterion_known : List Criterion → String → ℕ → Bool
criterion_known criteria id revision = elim (find (has_criterion_id id) criteria) [
  | none ↦ false
  | some criterion ↦ leb revision criterion.revision
]

abbrev pub reference_known : List String → Option String → Bool
reference_known ids none = true
reference_known ids (some id) = contains ids id

abbrev pub evidence_valid : List String → List Criterion → List String → TaskEvidence → Bool
evidence_valid runs criteria grants item =
    contains runs item.run_id
    && (criterion_known criteria item.criterion_id item.criterion_revision
        && (reference_known grants item.authorization_id
            && same_flag (is_approval item.kind) (is_some item.authorization_id)))

-- `index` is the position of the first event.
abbrev pub events_valid : ℕ → List String → List TaskEvent → Bool
events_valid index runs [] = true
events_valid index runs (event ∷ events) =
    (eqb event.task_revision (suc index) && reference_known runs event.run_id)
    && events_valid (suc index) runs events

abbrev pub workflow_valid : List Criterion → Option EnhancedWorkflow → Bool
workflow_valid criteria none = true
workflow_valid criteria (some workflow) =
    not (is_empty workflow.checks)
    && (distinct (check_ids workflow.checks)
        && (all (λ item. contains (criterion_ids criteria) item.criterion_id) workflow.checks
            && all (λ c. any (λ item. item.criterion_id == c.id) workflow.checks)
                (keep (λ c. c.required) criteria)))

-- The relations of everything but the events; `revision` bounds what refers to a revision.
unfoldable pub body_valid : ℕ → Task → Bool
body_valid revision task =
    distinct (authorization_ids task.authorizations)
    && (distinct (criterion_ids task.criteria)
        && (distinct (run_ids task.runs)
            && (distinct (checkpoint_ids task.checkpoints)
                && (distinct (evidence_ids task.evidence)
                    && (workflow_valid task.criteria task.enhanced_workflow
                        && (same_flag (is_running task.state) (is_some task.owner)
                            && (eqb (length (keep is_active_run task.runs)) (owner_count task.owner)
                                && (owner_valid revision task.runs task.owner
                                    && (all (checkpoint_valid revision (run_ids task.runs))
                                          task.checkpoints
                                        && all
                                            (evidence_valid (run_ids task.runs) task.criteria
                                              (authorization_ids task.authorizations))
                                            task.evidence)))))))))

-- The events number the revisions of the task from 1 on.
unfoldable pub history_valid : Task → Bool
history_valid task =
    distinct (event_ids task.events)
    && (events_valid 0 (run_ids task.runs) task.events && eqb (length task.events) task.revision)

-- The relations of `validateTask`.
unfoldable pub is_consistent : Task → Bool
is_consistent task = body_valid task.revision task && history_valid task

abbrev pub task_ids : List Task → List String
task_ids = map λ t. t.id

abbrev pub total_revision : List Task → ℕ
total_revision [] = 0
total_revision (task ∷ tasks) = task.revision + total_revision tasks

-- The relations of `validateTaskState`.
unfoldable pub relations_valid : TaskState → Bool
relations_valid state =
    all is_consistent state.tasks
    && (distinct (task_ids state.tasks) && eqb state.revision (total_revision state.tasks))
