-- ===== src/Task/Operations.antt =====
-- task-state/service.ts: the mutations that move a task through its lifecycle. Each takes the
-- store, and returns the store and the task that it committed.
use latchkit.Base.{
  ℕ, suc, String, Bool, true, false, not, ◌&&◌, List, [], ◌∷◌, ◌++◌, Option, none, some, find,
  update_first, is_empty, ◌==◌, ltb, concat, is_blank, if◌then◌else◌, Result, ok, err, guard,
  or_fail, ◌>>=◌, ◌>>◌,
}
use latchkit.Task.Model.{
  TaskStatus, planned, awaiting_decision, blocked, completed, RunState, interrupted, Task,
  TaskState, TaskRun, TaskOwner, TaskError, Authorization, ProvenanceKind, direct_request,
  VerificationMode, fast, standard, is_active, authorization_required, authorization_invalid,
  run_active, ownership_conflict, state_invalid, transition_invalid, migration_required,
}
use latchkit.Task.Store.{Context, validate_stable_id, commit_event, open_task, open_mutable_task}

pub record AuthorizationInput : Type 0 where
  pub by_user : Bool
  pub scope : String
  pub reference : String
  pub provenance_kind : Option ProvenanceKind

unfoldable pub normalize_authorization :
    Context → Option AuthorizationInput → ProvenanceKind → Result TaskError Authorization
normalize_authorization ctx none kind = err authorization_invalid
normalize_authorization ctx (some input) kind = do
  guard (input.by_user && not (is_blank input.scope)) authorization_invalid
  guard (not (is_blank input.reference)) authorization_invalid
  ok (record {
    id = ctx.fresh "authorization" 0;
    scope = input.scope;
    kind = kind;
    reference = input.reference;
    granted_at = ctx.at;
  })

abbrev pub has_run_id : String → TaskRun → Bool
has_run_id id run = run.id == id

abbrev end_if_active : RunState → ℕ → TaskRun → TaskRun
end_if_active to at run =
    if is_active run.state then record run { state = to; ended_at = some at } else run

-- The run of this id ends, if it is running.
unfoldable pub end_run : String → RunState → ℕ → List TaskRun → List TaskRun
end_run id to at = update_first (has_run_id id) (end_if_active to at)

-- The owner's run ends.
unfoldable pub end_owned_run : Option TaskOwner → RunState → ℕ → List TaskRun → List TaskRun
unfolding end_run
end_owned_run none to at runs = runs
end_owned_run (some owner) to at runs = end_run owner.run_id to at runs

-- `activeRun && await processProbe(activeRun)`.
abbrev pub owner_is_live : Context → Option TaskOwner → List TaskRun → Bool
owner_is_live ctx none runs = false
owner_is_live ctx (some owner) runs = elim (find (has_run_id owner.run_id) runs) [
  | none ↦ false
  | some run ↦ ctx.is_live run
]

-- The owner that the caller names, or a new one. The empty text counts as absent.
unfoldable pub resumed_owner : Context → Option String → Result TaskError String
resumed_owner ctx none = ok (ctx.fresh "owner" 0)
resumed_owner ctx (some owner_id) =
    if owner_id == ""
    then ok (ctx.fresh "owner" 0)
    else (validate_stable_id "owner" owner_id >> ok owner_id)

abbrev pub new_run : Context → String → TaskRun
new_run ctx owner_id = record {
  id = ctx.fresh "run" 0;
  owner_id = owner_id;
  state = RunState.running;
  started_at = ctx.at;
  ended_at = none;
  process = ctx.process;
  source = ctx.source;
}

abbrev pub new_owner : Context → String → Task → TaskOwner
new_owner ctx owner_id task = record {
  run_id = ctx.fresh "run" 0;
  owner_id = owner_id;
  revision = suc task.revision;
  acquired_at = ctx.at;
}

-- The task with its former run ended, and a new run that owns it.
abbrev pub resumed : Context → String → Task → Task
resumed ctx owner_id task = record task {
  runs = end_owned_run task.owner interrupted ctx.at task.runs ++ new_run ctx owner_id ∷ [];
  state = TaskStatus.running;
  owner = some (new_owner ctx owner_id task);
}

unfoldable pub resume_task :
    Context → String → ℕ → Option String → TaskState → Result TaskError (TaskState × Task)
unfolding open_mutable_task resumed_owner commit_event end_owned_run
resume_task ctx task_id expected owner state = do
  task ← open_mutable_task state task_id expected
  guard (not (task.authorization_required && is_empty task.authorizations)) authorization_required
  guard (not (owner_is_live ctx task.owner task.runs)) run_active
  owner_id ← resumed_owner ctx owner
  ok (commit_event ctx "task.resumed" (some (ctx.fresh "run" 0)) state (resumed ctx owner_id task))

abbrev pub planned_if_waiting : TaskStatus → TaskStatus
planned_if_waiting awaiting_decision = planned
planned_if_waiting status = status

abbrev pub authorized : Authorization → Task → Task
authorized grant task = record task {
  authorizations = task.authorizations ++ grant ∷ [];
  state = planned_if_waiting task.state;
}

unfoldable pub authorize_task :
    Context
    → String
    → ℕ
    → Option AuthorizationInput
    → TaskState
    → Result TaskError (TaskState × Task)
unfolding open_mutable_task normalize_authorization commit_event
authorize_task ctx task_id expected input state = do
  task ← open_mutable_task state task_id expected
  grant ← normalize_authorization ctx input direct_request
  ok (commit_event ctx "authorization.recorded" none state (authorized grant task))

abbrev pub is_pause_state : TaskStatus → Bool
is_pause_state awaiting_decision = true
is_pause_state blocked = true
is_pause_state _ = false

abbrev pub status_name : TaskStatus → String
status_name planned = "planned"
status_name TaskStatus.running = "running"
status_name awaiting_decision = "awaiting-decision"
status_name blocked = "blocked"
status_name TaskStatus.cancelled = "cancelled"
status_name completed = "completed"
status_name TaskStatus.verified = "verified"

-- The task without its owner, in another state, its run ended.
abbrev pub stopped : Context → RunState → TaskStatus → Task → Task
stopped ctx run_state status task = record task {
  runs = end_owned_run task.owner run_state ctx.at task.runs;
  owner = none;
  state = status;
}

unfoldable pub pause_task :
    Context → String → ℕ → TaskStatus → TaskState → Result TaskError (TaskState × Task)
unfolding open_mutable_task commit_event end_owned_run
pause_task ctx task_id expected status state = do
  task ← open_mutable_task state task_id expected
  guard (is_pause_state status) transition_invalid
  ok (
      commit_event ctx (concat ("task." ∷ status_name status ∷ [])) none state
        (stopped ctx interrupted status task))

-- The run that owns the task, still running.
unfoldable pub active_run : Task → String → Result TaskError TaskRun
active_run task run_id = do
  validate_stable_id "run" run_id
  owner ← or_fail task.owner ownership_conflict
  guard (owner.run_id == run_id) ownership_conflict
  run ← or_fail (find (has_run_id run_id) task.runs) ownership_conflict
  guard (is_active run.state) ownership_conflict
  ok run

abbrev pub with_checkpoint : Context → String → String → Task → Task
with_checkpoint ctx run_id summary task = record task {
  checkpoints =
      task.checkpoints
      ++ record {
        id = ctx.fresh "checkpoint" 0;
        run_id = run_id;
        task_revision = suc task.revision;
        summary = summary;
        source = ctx.source;
        created_at = ctx.at;
      }
        ∷ [];
}

unfoldable pub checkpoint_task :
    Context → String → ℕ → String → String → TaskState → Result TaskError (TaskState × Task)
unfolding open_task active_run commit_event
checkpoint_task ctx task_id expected run_id summary state = do
  task ← open_task state task_id expected
  run ← active_run task run_id
  guard (not (is_blank summary)) state_invalid
  ok (
      commit_event ctx "checkpoint.recorded" (some run_id) state
        (with_checkpoint ctx run_id summary task))

-- The active run ends, whatever else it was; the owner goes.
abbrev pub finished : Context → TaskRun → Task → Task
finished ctx run task = record task {
  runs = end_run run.id RunState.completed ctx.at task.runs;
  owner = none;
  state = completed;
}

unfoldable pub complete_task :
    Context → String → ℕ → String → TaskState → Result TaskError (TaskState × Task)
unfolding open_task active_run commit_event end_run
complete_task ctx task_id expected run_id state = do
  task ← open_task state task_id expected
  run ← active_run task run_id
  ok (commit_event ctx "task.completed" (some run.id) state (finished ctx run task))

abbrev pub cancel_type : Option String → String
cancel_type none = "task.cancelled"
cancel_type (some reason) =
    if reason == "" then "task.cancelled" else concat ("task.cancelled:" ∷ reason ∷ [])

unfoldable pub cancel_task :
    Context → String → ℕ → Option String → TaskState → Result TaskError (TaskState × Task)
unfolding open_mutable_task commit_event end_owned_run
cancel_task ctx task_id expected reason state = do
  task ← open_mutable_task state task_id expected
  ok (
      commit_event ctx (cancel_type reason) none state
        (stopped ctx RunState.cancelled TaskStatus.cancelled task))

abbrev pub mode_name : VerificationMode → String
mode_name fast = "fast"
mode_name standard = "standard"

unfoldable pub set_verification_mode :
    Context → String → ℕ → VerificationMode → TaskState → Result TaskError (TaskState × Task)
unfolding open_mutable_task commit_event
set_verification_mode ctx task_id expected mode state = do
  guard (not (ltb state.schema_version 3)) migration_required
  task ← open_mutable_task state task_id expected
  ok (
      commit_event ctx (concat ("verification-mode.changed:" ∷ mode_name mode ∷ [])) none state
        (record task { verification_mode = some mode }))
