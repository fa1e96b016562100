-- ===== src/Task/Tests.antt =====
-- The task store at concrete tasks: a running one, a completed one and a cancelled one.
use latchkit.Base.{
  ◌&&◌, is_empty, is_blank, ℕ, ◌≡◌, ◌≢◌, ◌⊎◌, concat, refl, String, true, false, List, find, [],
  ◌∷◌, none, some, ok, err, Option, ◌==◌, eq_iff, if◌then◌else◌, arith,
}
use mathlib.Core.List.{Memᴰ}
use latchkit.Task.Model.{
  Task, TaskState, TaskStatus, completed, blocked, RunState, interrupted, TaskRun, TaskEvent,
  TaskEvidence, TaskEnvironment, SourceSnapshot, ProcessIdentity, Criterion, revision_conflict,
  idempotency_conflict, passed, check, standard, missing_current_evidence,
}
use latchkit.Task.Store.{
  Context, has_id, commit_event, is_stable_id, find_task, assert_expected, ensure_mutable,
  open_task, open_mutable_task,
}
use latchkit.Task.Operations.{stopped, pause_task, end_run, end_owned_run}
use latchkit.Task.Criteria.{
  CriterionInput, revised, revise_criteria, reconcile_criteria, reconcile_each, supplied_id,
}
use latchkit.Task.Evidence.{
  verify_task, verification_failures, criteria_failures, criterion_failure, enhanced_failures,
  is_completed, is_check_id,
}
use latchkit.Task.Relations.{body_valid, history_valid, is_consistent, relations_valid}
use latchkit.Task.Formats.{mutate, validate_task_state, task_format, evidence_format, is_digest}
use latchkit.Task.Mutations.{pause, cancel, revise, perform}
use latchkit.Task.Preserved.{perform-valid}
use latchkit.Task.Calls.{TaskCall, store_after_all}
use latchkit.Task.Promises.{mutate-replay, perform-second_writer, perform-terminal}
use latchkit.Task.Verified.{IsShown, verify_task-IsShown}
use latchkit.Task.Fencing.{resume-fences}
use latchkit.Task.Evidence.{EvidenceInput}
use latchkit.Task.Operations.{resumed, resume_task, resumed_owner, owner_is_live}
use latchkit.Task.Model.{ownership_conflict}
use latchkit.Task.Mutations.{resume, checkpoint, complete, evidence}
use latchkit.Task.Revised.{SameContent, revise_criteria-unshown}

abbrev task_id : String
task_id = "task_00000000-0000-4000-8000-000000000001"

abbrev run_id : String
run_id = "run_00000000-0000-4000-8000-000000000002"

abbrev digest : String
digest = "0123456789abcdef0123456789abcdef0123456789abcdef0123456789abcdef"

abbrev other_digest : String
other_digest = "f0123456789abcdef0123456789abcdef0123456789abcdef0123456789abcde"

abbrev criterion_id : String
criterion_id = "criterion_00000000-0000-4000-8000-000000000003"

abbrev process : ProcessIdentity
process = record { pid = 42; hostname = "build"; platform = "linux"; runtime = "cli" }

abbrev environment : TaskEnvironment
environment = record {
  platform = "linux";
  runtime = "cli";
  node = "v22";
  cwd = "/work";
  details = none;
}

abbrev source : SourceSnapshot
source = record { revision = some "4f2a"; dirty_fingerprint = none }

abbrev fresh_id : String → ℕ → String
fresh_id prefix n = concat (prefix ∷ "_90000000-0000-4000-8000-000000000009" ∷ [])

abbrev ctx : Context
ctx = record {
  at = 1000;
  mutation_id = "event_00000000-0000-4000-8000-000000000003";
  hash = digest;
  fresh = fresh_id;
  process = process;
  environment = environment;
  source = source;
  is_live = λ _. false;
}

abbrev later : Context
later = record ctx { at = 2000; hash = other_digest }

abbrev run : TaskRun
run = record {
  id = run_id;
  owner_id = "owner_00000000-0000-4000-8000-000000000001";
  state = RunState.running;
  started_at = 20;
  ended_at = none;
  process = process;
  source = source;
}

abbrev criterion : Criterion
criterion = record {
  id = criterion_id;
  revision = 1;
  description = "the tests pass";
  required = true;
  approval_required = false;
  created_at = 10;
  updated_at = 10;
}

abbrev event : String → String → ℕ → Option String → TaskEvent
event id type n run_of = record {
  id = id;
  type = type;
  request_hash = digest;
  task_revision = n;
  run_id = run_of;
  created_at = n;
}

abbrev item : TaskEvidence
item = record {
  id = "evidence_00000000-0000-4000-8000-000000000001";
  criterion_id = criterion_id;
  criterion_revision = 1;
  run_id = run_id;
  kind = check;
  command = some "npm test";
  environment = environment;
  outcome = passed;
  artifact = none;
  source = source;
  authorization_id = none;
  created_at = 30;
  enhanced = none;
}

abbrev running_task : Task
running_task = record {
  id = task_id;
  title = "ship it";
  state = TaskStatus.running;
  revision = 2;
  created_at = 10;
  updated_at = 20;
  authorization_required = false;
  authorizations = [];
  owner = some (record {
    run_id = run_id;
    owner_id = "owner_00000000-0000-4000-8000-000000000001";
    revision = 2;
    acquired_at = 20;
  });
  criteria = criterion ∷ [];
  runs = run ∷ [];
  checkpoints = [];
  evidence = item ∷ [];
  events =
      event "event_00000000-0000-4000-8000-000000000001" "task.created" 1 none
      ∷ event "event_00000000-0000-4000-8000-000000000002" "task.resumed" 2 (some run_id)
      ∷ [];
  imported = none;
  enhanced_workflow = none;
  verification_mode = some standard;
}

abbrev with_task : Task → TaskState
with_task task = record {
  schema_version = 3;
  revision = 2;
  created_at = 10;
  updated_at = 20;
  tasks = task ∷ [];
}

abbrev store : TaskState
store = with_task running_task

abbrev paused : TaskState × Task
unfolding commit_event end_owned_run end_run
paused = commit_event ctx "task.blocked" none store (stopped ctx interrupted blocked running_task)

store-written : validate_task_state store ≡ true
unfolding validate_task_state relations_valid is_consistent body_valid history_valid task_format
    evidence_format is_digest is_stable_id is_blank is_check_id
store-written = refl

store-valid : relations_valid store ≡ true
unfolding relations_valid is_consistent body_valid history_valid
store-valid = refl

pauses : perform ctx (pause blocked) task_id 2 store ≡ ok paused
unfolding perform pause_task open_mutable_task open_task find_task assert_expected ensure_mutable
    is_stable_id commit_event end_owned_run end_run
pauses = refl

perform-valid_example : relations_valid paused.0 ≡ true
perform-valid_example =
    perform-valid ctx (pause blocked) task_id 2 store paused store-valid refl refl pauses

abbrev another : Context
another = record later { mutation_id = "event_00000000-0000-4000-8000-000000000004" }

abbrev again : Context
again = record ctx { at = 3000 }

abbrev later_calls : List TaskCall
later_calls =
    record { ctx = another; mutation = revise []; task_id = task_id; expected = 3 }
    ∷ record { ctx = ctx; mutation = cancel none; task_id = task_id; expected = 3 }
    ∷ []

mutate-replay_example :
    (task : Task) × (find (has_id task_id) (store_after_all later_calls paused.0).tasks ≡ some task)
    × (mutate again (perform again (cancel none) task_id 3) (store_after_all later_calls paused.0)
        ≡ (if ctx.hash == again.hash
            then ok (store_after_all later_calls paused.0, task)
            else err idempotency_conflict))
mutate-replay_example =
    mutate-replay ctx again (pause blocked) task_id 2 store paused later_calls
      (perform again (cancel none) task_id 3) refl pauses refl

perform-second_writer_example :
    perform later (cancel none) task_id 2 paused.0 ≡ err (revision_conflict 2 3)
perform-second_writer_example =
    perform-second_writer ctx later (pause blocked) (cancel none) task_id 2 store paused
      (ground arith) pauses

abbrev ended_run : RunState → TaskRun
ended_run status = record run { state = status; ended_at = some 30 }

abbrev cancelled_task : Task
cancelled_task = record running_task {
  state = TaskStatus.cancelled;
  owner = none;
  runs = ended_run RunState.cancelled ∷ [];
}

cancelled-valid : relations_valid (with_task cancelled_task) ≡ true
unfolding relations_valid is_consistent body_valid history_valid
cancelled-valid = refl

perform-terminal_example :
    perform ctx (pause blocked) task_id 2 (with_task cancelled_task) ≢ ok paused
perform-terminal_example =
    perform-terminal ctx (pause blocked) task_id 2 (with_task cancelled_task) cancelled_task paused
      cancelled-valid refl refl

abbrev completed_task : Task
completed_task = record running_task {
  state = completed;
  owner = none;
  runs = ended_run RunState.completed ∷ [];
}

abbrev verified_store : TaskState × Task
unfolding commit_event
verified_store =
    commit_event ctx "task.verified" none (with_task completed_task)
      (record completed_task { state = TaskStatus.verified })

verifies : verify_task ctx task_id 2 (with_task completed_task) ≡ ok verified_store
unfolding verify_task open_task find_task assert_expected is_stable_id commit_event
    verification_failures criteria_failures criterion_failure enhanced_failures
verifies = refl

verify_task-IsShown_example :
    (is_completed completed ≡ true) × IsShown completed_task source criterion
verify_task-IsShown_example =
    verify_task-IsShown ctx task_id 2 (with_task completed_task) completed_task verified_store
      criterion refl verifies (Memᴰ.head refl) refl

abbrev other_text : CriterionInput
other_text = record {
  id = some criterion_id;
  description = "the tests and the linter pass";
  required = none;
  approval_required = none;
}

abbrev revised_store : TaskState × Task
unfolding commit_event
revised_store =
    commit_event ctx "criteria.revised" none store
      (record running_task { criteria = revised ctx criterion other_text ∷ [] })

revises : revise_criteria ctx task_id 2 (other_text ∷ []) store ≡ ok revised_store
unfolding revise_criteria reconcile_criteria reconcile_each supplied_id open_mutable_task is_blank
    open_task find_task assert_expected ensure_mutable is_stable_id commit_event
revises = refl

revise_criteria-unshown_example :
    SameContent (revised ctx criterion other_text) criterion
    ⊎ (criterion_failure revised_store.1 source (revised ctx criterion other_text)
        ≡ some missing_current_evidence)
unfolding revised_store
revise_criteria-unshown_example =
    revise_criteria-unshown ctx task_id 2 (other_text ∷ []) store running_task revised_store
      (revised ctx criterion other_text) criterion source store-valid refl (λ k. refl) revises
      (Memᴰ.head refl) refl

abbrev resumed_store : TaskState × Task
unfolding commit_event end_owned_run end_run
resumed_store =
    commit_event ctx "task.resumed" (some (ctx.fresh "run" 0)) store
      (resumed ctx (ctx.fresh "owner" 0) running_task)

resumes : perform ctx (resume none) task_id 2 store ≡ ok resumed_store
unfolding perform resume_task resumed_owner open_mutable_task open_task find_task assert_expected
    ensure_mutable is_stable_id commit_event end_owned_run end_run
resumes = refl

abbrev late_evidence : EvidenceInput
late_evidence = record {
  run_id = run_id;
  criterion_id = criterion_id;
  criterion_revision = 1;
  kind = none;
  outcome = passed;
  command = none;
  environment_details = none;
  artifact = none;
  authorization = none;
  enhanced = none;
}

other_run : run_id ≢ ctx.fresh "run" 0
other_run e =
    let same : (run_id == ctx.fresh "run" 0) ≡ true = (eq_iff run_id (ctx.fresh "run" 0)).1 e in
    let other : (run_id == ctx.fresh "run" 0) ≡ false = refl in ground (arith, same, other)

resume-fences_example :
    ((running_task.authorization_required && is_empty running_task.authorizations) ≡ false)
    × (owner_is_live ctx running_task.owner running_task.runs ≡ false)
    × (perform later (checkpoint run_id "half done") task_id 3 resumed_store.0
        ≡ err ownership_conflict)
    × (perform later (complete run_id) task_id 3 resumed_store.0 ≡ err ownership_conflict)
    × (perform later (evidence late_evidence) task_id 3 resumed_store.0 ≡ err ownership_conflict)
unfolding is_stable_id
resume-fences_example =
    resume-fences ctx later task_id 2 store running_task resumed_store none run_id "half done"
      late_evidence refl resumes refl other_run refl
