-- ===== src/Task/Fencing.antt =====
-- Resuming a task takes it away from the run that owned it.
use latchkit.Base.{
  ℕ, suc, ◌≡◌, ◌≢◌, String, true, false, ◌&&◌, is_empty, Option, find, some, none, ok, err, arith,
  eq_iff,
}
use latchkit.Task.Model.{Task, TaskState, ownership_conflict}
use latchkit.Task.Store.{Context, has_id, is_stable_id, commit_event}
use latchkit.Task.Operations.{
  owner_is_live, resume_task, checkpoint_task, complete_task, active_run, resumed,
}
use latchkit.Task.Evidence.{EvidenceInput, record_evidence}
use latchkit.Task.Mutations.{resume, checkpoint, complete, evidence, perform}
use latchkit.Task.Commits.{resume-commits, chosen_owner}
use latchkit.Task.Replay.{perform-Committed}
use latchkit.Task.Calls.{committed_task}
use latchkit.Task.Promises.{perform-opened}

resumed-authorized :
    (ctx : Context) (task_id : String) (n : ℕ) (state : TaskState) (task : Task)
    (done : TaskState × Task) (owner : Option String)
    → find (has_id task_id) state.tasks ≡ some task
    → resume_task ctx task_id n owner state ≡ ok done
    → (task.authorization_required && is_empty task.authorizations) ≡ false
unfolding resume_task
resumed-authorized ctx task_id n state task done none found h = ground arith
resumed-authorized ctx task_id n state task done (some owner) found h = ground arith

-- The task after a resumption takes nothing from another run than the new one.
resumed-refuses :
    (ctx : Context) (task : Task) (owner run_id : String) (state : TaskState)
    (done : TaskState × Task)
    → done
      ≡ commit_event ctx "task.resumed" (some (ctx.fresh "run" 0)) state (resumed ctx owner task)
    → is_stable_id "run" run_id ≡ true
    → run_id ≢ ctx.fresh "run" 0
    → active_run done.1 run_id ≡ err ownership_conflict
unfolding active_run commit_event
resumed-refuses ctx task owner run_id state done answer stable other =
    ground (arith, eq_iff (ctx.fresh "run" 0) run_id)

refused :
    (later : Context) (task_id : String) (n : ℕ) (state : TaskState) (task : Task)
    (run_id summary : String) (input : EvidenceInput)
    → (is_stable_id "task" task_id ≡ true)
    → find (has_id task_id) state.tasks ≡ some task
    → task.revision ≡ suc n
    → active_run task run_id ≡ err ownership_conflict
    → input.run_id ≡ run_id
    → (perform later (checkpoint run_id summary) task_id (suc n) state ≡ err ownership_conflict)
      × (perform later (complete run_id) task_id (suc n) state ≡ err ownership_conflict)
      × (perform later (evidence input) task_id (suc n) state ≡ err ownership_conflict)
unfolding perform checkpoint_task complete_task record_evidence
refused later task_id n state task run_id summary input stable found revision refusal same =
    (ground arith, ground arith, ground arith)

-- A task is resumed only if it has the authorization that it needs and its former run is not live,
-- and the store that this leaves refuses every other run than the new one, whose id is well formed,
-- its checkpoints, its completion and its evidence, even when it knows the revision.
pub resume-fences :
    (ctx later : Context) (task_id : String) (n : ℕ) (state : TaskState) (task : Task)
    (done : TaskState × Task) (owner : Option String) (run_id summary : String)
    (input : EvidenceInput)
    → find (has_id task_id) state.tasks ≡ some task
    → perform ctx (resume owner) task_id n state ≡ ok done
    → is_stable_id "run" run_id ≡ true
    → run_id ≢ ctx.fresh "run" 0
    → input.run_id ≡ run_id
    → ((task.authorization_required && is_empty task.authorizations) ≡ false)
      × (owner_is_live ctx task.owner task.runs ≡ false)
      × (perform later (checkpoint run_id summary) task_id (suc n) done.0 ≡ err ownership_conflict)
      × (perform later (complete run_id) task_id (suc n) done.0 ≡ err ownership_conflict)
      × (perform later (evidence input) task_id (suc n) done.0 ≡ err ownership_conflict)
unfolding perform
resume-fences ctx later task_id n state task done owner run_id summary input found h stable other
      same =
    let (is_dead, answer) = resume-commits ctx task_id n state task done found owner h in
    let c = perform-Committed ctx (resume owner) task_id n state done h in
    let (found_after, revision, version) = committed_task ctx task_id n state done c in
    let refusal : active_run done.1 run_id ≡ err ownership_conflict =
      resumed-refuses ctx task (chosen_owner ctx owner) run_id state done answer stable other in
    let (no_checkpoint, no_completion, no_evidence) =
      refused later task_id n done.0 done.1 run_id summary input
        (perform-opened ctx (resume owner) task_id n state done h).0 found_after revision refusal
        same in
    (
      resumed-authorized ctx task_id n state task done owner found h,
      is_dead,
      no_checkpoint,
      no_completion,
      no_evidence,
    )
