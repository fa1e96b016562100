-- ===== src/Task/Preserved.antt =====
-- The mutations that keep the relations of a store.
use latchkit.Base.{
  ℕ, suc, ◌≡◌, refl, sym, String, true, false, List, [], ◌∷◌, ◌++◌, Option, none, some, find,
  is_some, contains, distinct, arith, eq_iff, find-holds, Option-cases, inl, inr, ok, subst, ◌∙◌,
  distinct-append_fresh, contains-append,
}
use mathlib.Core.List.{map-append}
use latchkit.Task.Model.{
  Task, TaskState, TaskStatus, TaskRun, RunState, is_running, interrupted, completed,
  VerificationMode, is_active, Authorization, Criterion, EvidenceKind, is_approval, verified,
}
use latchkit.Task.Store.{Context, has_id, commit_event}
use latchkit.Task.Operations.{
  resume_task, authorize_task, pause_task, checkpoint_task, complete_task, cancel_task,
  set_verification_mode, resumed, stopped, finished, authorized, with_checkpoint,
}
use latchkit.Task.Evidence.{
  EvidenceInput, record_evidence, verify_task, with_evidence, new_evidence, evidence_kind,
  is_completed,
}
use latchkit.Task.Criteria.{has_criterion_id, same_flag, revise_criteria}
use latchkit.Task.Relations.{
  run_ids, authorization_ids, is_consistent, reference_known, relations_valid,
}
use latchkit.Task.Mutations.{
  Mutation, resume, authorize, pause, checkpoint, evidence, complete, cancel, set_mode, verify,
  revise, is_revision, perform, is_fresh, all_fresh,
}
use latchkit.Task.Consistent.{
  IsBody, consistent_parts, commit-is_consistent, run_ids-end_owned_run, run_ids-end_run,
  events_valid_mono, Includes, Includes-append, Includes-refl,
}
use latchkit.Task.Commits.{
  IsOwnedBy, active_run-IsOwnedBy, find-contains, chosen_owner, Accepted, accept_kind-Accepted,
  resume-commits, authorize-commits, pause-commits, checkpoint-commits, complete-commits,
  cancel-commits, set_mode-commits, verify-commits, evidence-commits,
}
use latchkit.Task.Lifecycle.{
  IsBody-suc, resumed-runs, Includes-of_eq, stopped-IsBody, resumed-IsBody, finished-stopped,
  authorized-IsBody, with_checkpoint-IsBody, with_evidence-IsBody,
}
use latchkit.Task.Commit.{all-find, commit_event-valid}

module _ (ctx : Context) (task_id : String) (state : TaskState) (task : Task)
    (found : find (has_id task_id) state.tasks ≡ some task) (valid : relations_valid state ≡ true)
    (fresh : all_fresh ctx state ≡ true) where
  task_consistent : is_consistent task ≡ true
  unfolding relations_valid
  task_consistent = all-find is_consistent (has_id task_id) state.tasks task (ground arith) found

  task-IsBody : IsBody task.revision task
  task-IsBody = (consistent_parts task task_consistent).0

  task_fresh : is_fresh ctx task ≡ true
  task_fresh = all-find (is_fresh ctx) (has_id task_id) state.tasks task fresh found

  task_same : task.id ≡ task_id
  task_same = (eq_iff task.id task_id).0 (find-holds (has_id task_id) state.tasks task found)

  change-valid :
      (type : String) (run_id : Option String) (changed : Task)
      → changed.id ≡ task.id
      → changed.revision ≡ task.revision
      → changed.events ≡ task.events
      → Includes (run_ids task.runs) (run_ids changed.runs)
      → reference_known (run_ids changed.runs) run_id ≡ true
      → IsBody (suc changed.revision) changed
      → relations_valid (commit_event ctx type run_id state changed).0 ≡ true
  change-valid type run_id changed i r e more known body =
      let h = (consistent_parts task task_consistent).1 in
      commit_event-valid ctx type run_id state changed task
        (subst (λ id. find (has_id id) state.tasks ≡ some task) (sym (i ∙ task_same)) found) (sym r)
        (commit-is_consistent ctx type run_id changed body
          (record {
            unique_events = rw e h.unique_events;
            numbered = rw e (
                events_valid_mono 0 (run_ids task.runs) (run_ids changed.runs) task.events more
                  h.numbered);
            counted = rw (e, r) h.counted;
          })
          (rw e (ground (arith, task_fresh))) known)
        valid

  same_runs : Includes (run_ids task.runs) (run_ids task.runs)
  same_runs = Includes-refl (run_ids task.runs)

  stopped-valid :
      (type : String) (to : RunState) (status : TaskStatus)
      → is_active to ≡ false
      → is_running status ≡ false
      → relations_valid (commit_event ctx type none state (stopped ctx to status task)).0 ≡ true
  stopped-valid type to status t s =
      change-valid type none (stopped ctx to status task) refl refl refl
        (Includes-of_eq (run_ids-end_owned_run task.owner to ctx.at task.runs)) refl
        (stopped-IsBody task.revision ctx to status task t s task-IsBody)

  resumed-valid :
      (owner_id : String)
      → relations_valid
          (commit_event ctx "task.resumed"
            (some (ctx.fresh "run" 0))
            state
            (resumed ctx owner_id task)).0
        ≡ true
  resumed-valid owner_id =
      let more = resumed-runs ctx owner_id task in
      change-valid "task.resumed" (some (ctx.fresh "run" 0)) (resumed ctx owner_id task) refl refl
        refl more.0 more.1
        (resumed-IsBody ctx owner_id task (ground (arith, task_fresh)) task-IsBody)

  finished-valid :
      (run_id : String) (run : TaskRun)
      → IsOwnedBy task run_id run
      → relations_valid
          (commit_event ctx "task.completed" (some run.id) state (finished ctx run task)).0
        ≡ true
  finished-valid run_id run owned =
      let same = run_ids-end_run run.id RunState.completed ctx.at task.runs in
      change-valid "task.completed" (some run.id) (finished ctx run task) refl refl refl
        (Includes-of_eq same)
        (rw (same, owned.same_id) (find-contains run_id task.runs run owned.found))
        (rw
          (finished-stopped ctx task owned.owner run owned.owned (owned.same_id ∙ sym owned.named))
          (stopped-IsBody task.revision ctx RunState.completed completed task refl refl
            task-IsBody))

  authorized-valid :
      (type : String) (grant : Authorization)
      → grant.id ≡ ctx.fresh "authorization" 0
      → relations_valid (commit_event ctx type none state (authorized grant task)).0 ≡ true
  authorized-valid type grant e =
      change-valid type none (authorized grant task) refl refl refl same_runs refl (
        authorized-IsBody (suc task.revision) grant task (rw e (ground (arith, task_fresh)))
          (IsBody-suc task.revision task task-IsBody))

  with_checkpoint-valid :
      (run_id summary : String) (run : TaskRun)
      → IsOwnedBy task run_id run
      → relations_valid
          (commit_event ctx "checkpoint.recorded"
            (some run_id)
            state
            (with_checkpoint ctx run_id summary task)).0
        ≡ true
  with_checkpoint-valid run_id summary run owned =
      let known = find-contains run_id task.runs run owned.found in
      change-valid "checkpoint.recorded" (some run_id) (with_checkpoint ctx run_id summary task)
        refl refl refl same_runs known
        (with_checkpoint-IsBody ctx run_id summary task (ground (arith, task_fresh)) known
          task-IsBody)

  verified-valid :
      is_completed task.state ≡ true
      → relations_valid
          (commit_event ctx "task.verified" none state (record task { state = verified })).0
        ≡ true
  verified-valid done =
      let b = IsBody-suc task.revision task task-IsBody in
      change-valid "task.verified" none (record task { state = verified }) refl refl refl same_runs
        refl
        (record {
          unique_authorizations = b.unique_authorizations;
          unique_criteria = b.unique_criteria;
          unique_runs = b.unique_runs;
          unique_checkpoints = b.unique_checkpoints;
          unique_evidence = b.unique_evidence;
          workflow = b.workflow;
          owned = ground (arith, b.owned);
          one_run = b.one_run;
          owner_active = b.owner_active;
          checkpoints = b.checkpoints;
          evidence = b.evidence;
        })

  set_mode-valid :
      (type : String) (mode : VerificationMode)
      → relations_valid
          (commit_event ctx type none state (record task { verification_mode = some mode })).0
        ≡ true
  set_mode-valid type mode =
      change-valid type none (record task { verification_mode = some mode }) refl refl refl
        same_runs refl (assumption (IsBody-suc task.revision task task-IsBody))

  Accepted-grants :
      (kind : EvidenceKind) (accepted : List Authorization × Option String)
      → Accepted ctx task kind accepted
      → (distinct (authorization_ids accepted.0) ≡ true)
        × Includes (authorization_ids task.authorizations) (authorization_ids accepted.0)
        × (reference_known (authorization_ids accepted.0) accepted.1 ≡ true)
        × (same_flag (is_approval kind) (is_some accepted.1) ≡ true)
  Accepted-grants kind accepted (inl (k, e)) =
      rw (e, k)
        (
          task-IsBody.unique_authorizations,
          Includes-refl (authorization_ids task.authorizations),
          refl,
          refl,
        )
  Accepted-grants kind accepted (inr (grant, id, k, e)) =
      let grants = authorization_ids task.authorizations in
      let ids : authorization_ids (task.authorizations ++ grant ∷ []) ≡ grants ++ grant.id ∷ [] =
        rw map-append in
      rw (e, k, ids)
        (
          distinct-append_fresh grants grant.id (rw id (ground (arith, task_fresh)))
              task-IsBody.unique_authorizations,
          Includes-append grants (grant.id ∷ []),
          ground (arith, contains-append grants (grant.id ∷ []) grant.id, eq_iff grant.id grant.id),
          refl,
        )

  with_evidence-valid :
      (input : EvidenceInput) (run : TaskRun) (criterion : Criterion)
      (accepted : List Authorization × Option String)
      → IsOwnedBy task input.run_id run
      → find (has_criterion_id input.criterion_id) task.criteria ≡ some criterion
      → Accepted ctx task (evidence_kind input.kind) accepted
      → relations_valid
          (commit_event ctx "evidence.recorded"
            (some run.id)
            state
            (with_evidence (new_evidence ctx input criterion run accepted.1) accepted.0 task)).0
        ≡ true
  with_evidence-valid input run criterion accepted owned c a =
      let item = new_evidence ctx input criterion run accepted.1 in
      let g = Accepted-grants (evidence_kind input.kind) accepted a in
      let known : contains (run_ids task.runs) run.id ≡ true =
        rw owned.same_id (find-contains input.run_id task.runs run owned.found) in
      let same =
        (eq_iff criterion.id input.criterion_id).0
          (find-holds (has_criterion_id input.criterion_id) task.criteria criterion c) in
      change-valid "evidence.recorded" (some run.id) (with_evidence item accepted.0 task) refl refl
        refl same_runs known
        (with_evidence-IsBody (suc task.revision) item accepted.0 task (ground (arith, task_fresh))
          g.0 g.1 (ground (arith, known, same, c, g.2, g.3))
          (IsBody-suc task.revision task task-IsBody))

module _ (ctx : Context) (task_id : String) (n : ℕ) (state : TaskState) (task : Task)
    (done : TaskState × Task) (found : find (has_id task_id) state.tasks ≡ some task)
    (valid : relations_valid state ≡ true) (fresh : all_fresh ctx state ≡ true) where
  perform_found-valid :
      (m : Mutation)
      → is_revision m ≡ false
      → perform ctx m task_id n state ≡ ok done
      → relations_valid done.0 ≡ true
  unfolding perform
  perform_found-valid (resume owner) x h =
      rw (resume-commits ctx task_id n state task done found owner h).1
        (resumed-valid ctx task_id state task found valid fresh (chosen_owner ctx owner))
  perform_found-valid (authorize input) x h =
      let (grant, id, e) = authorize-commits ctx task_id n state task done found input h in
      rw e (
        authorized-valid ctx task_id state task found valid fresh "authorization.recorded" grant id)
  perform_found-valid (pause status) x h =
      let (paused, e) = pause-commits ctx task_id n state task done found status h in
      rw e (
        stopped-valid ctx task_id state task found valid fresh _ interrupted status refl
          (ground arith))
  perform_found-valid (checkpoint run_id summary) x h =
      let (run, e, a) = checkpoint-commits ctx task_id n state task done found run_id summary h in
      rw a (
        with_checkpoint-valid ctx task_id state task found valid fresh run_id summary run
          (active_run-IsOwnedBy task run_id run e))
  perform_found-valid (evidence input) x h =
      let (run, criterion, accepted, e, c, k, a) =
        evidence-commits ctx task_id n state task done found input h in
      rw a (
        with_evidence-valid ctx task_id state task found valid fresh input run criterion accepted
          (active_run-IsOwnedBy task input.run_id run e) c
          (accept_kind-Accepted ctx task input.authorization (evidence_kind input.kind) accepted k))
  perform_found-valid (complete run_id) x h =
      let (run, e, a) = complete-commits ctx task_id n state task done found run_id h in
      rw a (
        finished-valid ctx task_id state task found valid fresh run_id run
          (active_run-IsOwnedBy task run_id run e))
  perform_found-valid (cancel reason) x h =
      rw (cancel-commits ctx task_id n state task done found reason h) (
        stopped-valid ctx task_id state task found valid fresh _ RunState.cancelled
          TaskStatus.cancelled refl refl)
  perform_found-valid (set_mode mode) x h =
      rw (set_mode-commits ctx task_id n state task done found mode h)
        (set_mode-valid ctx task_id state task found valid fresh _ mode)
  perform_found-valid verify x h =
      let (is_done, nothing_missing, e) = verify-commits ctx task_id n state task done found h in
      rw e (verified-valid ctx task_id state task found valid fresh is_done)
  perform_found-valid (revise input) x h = cc

-- A mutation that succeeds found its task.
pub perform-found :
    (ctx : Context) (m : Mutation) (task_id : String) (n : ℕ) (state : TaskState)
    (done : TaskState × Task)
    → perform ctx m task_id n state ≡ ok done
    → is_some (find (has_id task_id) state.tasks) ≡ true
unfolding perform resume_task authorize_task pause_task checkpoint_task complete_task cancel_task
    set_verification_mode record_evidence verify_task revise_criteria
perform-found ctx (resume o) task_id n state done h = ground arith
perform-found ctx _ task_id n state done h = ground arith

-- Resuming, authorizing, pausing, completing, cancelling or verifying a task, setting its mode, and
-- recording a checkpoint or evidence keep the relations between the parts of the tasks, whenever they
-- succeed on a store with these relations and draw identifiers that are new to it. A revision of the
-- criteria is left out; it may drop a criterion that evidence refers to.
pub perform-valid :
    (ctx : Context) (m : Mutation) (task_id : String) (n : ℕ) (state : TaskState)
    (done : TaskState × Task)
    → relations_valid state ≡ true
    → all_fresh ctx state ≡ true
    → is_revision m ≡ false
    → perform ctx m task_id n state ≡ ok done
    → relations_valid done.0 ≡ true
perform-valid ctx m task_id n state done valid fresh kind h =
    elim (Option-cases (find (has_id task_id) state.tasks)) [
      | inl missing ↦ absurd (ground (arith, perform-found ctx m task_id n state done h))
      | inr (task, found) ↦
          perform_found-valid ctx task_id n state task done found valid fresh m kind h
    ]
