-- ===== src/Task/Promises.antt =====
-- What the task store promises to its callers about writes, repeated requests and second writers.
use latchkit.Base.{
  ℕ, suc, List, ◌≤◌, ◌≡◌, ◌≢◌, String, true, false, some, find, is_some, ◌==◌, if◌then◌else◌, arith,
  Result, ok, err,
}
use latchkit.Task.Model.{
  Task, TaskState, TaskError, idempotency_conflict, revision_conflict, is_running,
}
use latchkit.Task.Store.{Context, has_id, is_stable_id, is_terminal}
use latchkit.Task.Operations.{
  resume_task, authorize_task, pause_task, checkpoint_task, complete_task, cancel_task,
  set_verification_mode, active_run,
}
use latchkit.Task.Criteria.{revise_criteria}
use latchkit.Task.Evidence.{record_evidence, verify_task}
use latchkit.Task.Relations.{relations_valid, is_consistent}
use latchkit.Task.Formats.{mutate}
use latchkit.Task.Mutations.{Mutation, resume, perform, all_fresh}
use latchkit.Task.Consistent.{consistent_parts}
use latchkit.Task.Commit.{all-find}
use latchkit.Task.Calls.{
  TaskCall, store_after_all, store_after_all-IsRecorded, committed-IsRecorded, IsRecorded-prior,
  committed_task,
}
use latchkit.Task.Replay.{perform-Committed}

-- Once one of the ten mutations of `Mutation` has succeeded under a new id, and whatever calls of these
-- mutations follow it, a request with its mutation id leaves the store alone and gets the task that was changed, as it is by then,
-- when the request's digest is the same, and is refused when the digest is another, whatever the
-- request asks for.
pub mutate-replay :
    (ctx later : Context) (m : Mutation) (task_id : String) (n : ℕ) (state : TaskState)
    (done : TaskState × Task) (calls : List TaskCall)
    (operation : TaskState → Result TaskError (TaskState × Task))
    → all_fresh ctx state ≡ true
    → perform ctx m task_id n state ≡ ok done
    → later.mutation_id ≡ ctx.mutation_id
    → (task : Task) × (find (has_id task_id) (store_after_all calls done.0).tasks ≡ some task)
      × (mutate later operation (store_after_all calls done.0) ≡ (
          if ctx.hash == later.hash
          then ok (store_after_all calls done.0, task)
          else err idempotency_conflict))
unfolding mutate
mutate-replay ctx later m task_id n state done calls operation fresh h same =
    let c = perform-Committed ctx m task_id n state done h in
    let k =
      store_after_all-IsRecorded calls task_id ctx.mutation_id ctx.hash done.0
        (committed-IsRecorded ctx task_id n state done c fresh) in
    (
      k.task,
      k.found,
      ground (
        arith,
        IsRecorded-prior task_id ctx.mutation_id ctx.hash later.hash
            (store_after_all calls done.0).tasks k,
      ),
    )

pub perform-opened :
    (ctx : Context) (m : Mutation) (task_id : String) (n : ℕ) (state : TaskState)
    (done : TaskState × Task)
    → perform ctx m task_id n state ≡ ok done
    → (is_stable_id "task" task_id ≡ true) × (1 ≤ n)
unfolding perform resume_task authorize_task pause_task checkpoint_task complete_task cancel_task
    set_verification_mode record_evidence verify_task revise_criteria
perform-opened ctx (resume o) task_id n state done h = ground arith
perform-opened ctx _ task_id n state done h = ground arith

perform-conflict :
    (ctx : Context) (m : Mutation) (task_id : String) (n : ℕ) (state : TaskState) (task : Task)
    → (is_stable_id "task" task_id ≡ true) × (1 ≤ n)
    → find (has_id task_id) state.tasks ≡ some task
    → task.revision ≡ suc n
    → 3 ≤ state.schema_version
    → perform ctx m task_id n state ≡ err (revision_conflict n (suc n))
unfolding perform resume_task authorize_task pause_task checkpoint_task complete_task cancel_task
    set_verification_mode record_evidence verify_task revise_criteria
perform-conflict ctx (resume o) task_id n state task h f r v = ground arith
perform-conflict ctx _ task_id n state task h f r v = ground arith

-- After a mutation of a task has succeeded, a second one that expects the same revision is refused and
-- told both revisions, in a store of schema version 3 or later, where each of the two resumes,
-- authorizes, pauses, completes, cancels or verifies the task, sets its mode, revises its criteria, or
-- records a checkpoint or evidence.
pub perform-second_writer :
    (ctx later : Context) (m next : Mutation) (task_id : String) (n : ℕ) (state : TaskState)
    (done : TaskState × Task)
    → 3 ≤ state.schema_version
    → perform ctx m task_id n state ≡ ok done
    → perform later next task_id n done.0 ≡ err (revision_conflict n (suc n))
perform-second_writer ctx later m next task_id n state done v h =
    let c = perform-Committed ctx m task_id n state done h in
    let (found, revision, version) = committed_task ctx task_id n state done c in
    perform-conflict later next task_id n done.0 done.1
      (perform-opened ctx m task_id n state done h) found revision (omega (arith, version))

perform-not_final :
    (ctx : Context) (m : Mutation) (task_id : String) (n : ℕ) (state : TaskState) (task : Task)
    (done : TaskState × Task)
    → is_running task.state ≡ is_some task.owner
    → find (has_id task_id) state.tasks ≡ some task
    → perform ctx m task_id n state ≡ ok done
    → is_terminal task.state ≡ false
unfolding perform resume_task authorize_task pause_task checkpoint_task complete_task cancel_task
    set_verification_mode record_evidence verify_task revise_criteria active_run
perform-not_final ctx (resume o) task_id n state task done owned f h = ground arith
perform-not_final ctx _ task_id n state task done owned f h = ground arith

-- A cancelled or verified task of a store whose relations hold is final: it is not resumed,
-- authorized, paused, completed, cancelled or verified, its mode is not set, its criteria are not
-- revised, and no checkpoint and no evidence is recorded for it.
pub perform-terminal :
    (ctx : Context) (m : Mutation) (task_id : String) (n : ℕ) (state : TaskState) (task : Task)
    (done : TaskState × Task)
    → relations_valid state ≡ true
    → find (has_id task_id) state.tasks ≡ some task
    → is_terminal task.state ≡ true
    → perform ctx m task_id n state ≢ ok done
unfolding relations_valid
perform-terminal ctx m task_id n state task done valid found final h =
    let sound = all-find is_consistent (has_id task_id) state.tasks task (ground arith) found in
    ground (
      arith,
      perform-not_final ctx m task_id n state task done (consistent_parts task sound).0.owned found
          h,
    )
