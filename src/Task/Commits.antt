-- ===== src/Task/Commits.antt =====
-- What a mutation that succeeds has done: for each function, the change that it committed and the
-- conditions that it found.
use latchkit.Base.{
  ℕ, ◌≡◌, refl, String, true, false, List, [], ◌∷◌, ◌++◌, Option, none, some, find, is_empty, ◌==◌,
  contains, if◌then◌else◌, arith, concat, ◌↔◌, eq_iff, find-holds, Option-cases, inl, inr, ◌⊎◌, ok,
  Result-cases,
}
use latchkit.Task.Model.{
  Task, TaskState, TaskStatus, TaskRun, TaskOwner, RunState, is_active, interrupted, verified,
  VerificationMode, Authorization, ProvenanceKind, direct_request, Criterion, is_approval,
  EvidenceKind, approval,
}
use latchkit.Task.Store.{Context, has_id, commit_event}
use latchkit.Task.Operations.{
  AuthorizationInput, normalize_authorization, resume_task, authorize_task, pause_task,
  checkpoint_task, complete_task, cancel_task, set_verification_mode, active_run, has_run_id,
  owner_is_live, resumed, stopped, finished, authorized, with_checkpoint, status_name,
  is_pause_state, cancel_type, mode_name,
}
use latchkit.Task.Criteria.{
  CriterionInput, has_criterion_id, revise_criteria, reconcile_criteria, planned_if_completed,
}
use latchkit.Task.Evidence.{
  EvidenceInput, record_evidence, verify_task, with_evidence, new_evidence, evidence_kind,
  accept_kind, verification_failures, is_completed,
}
use latchkit.Task.Relations.{run_ids}

-- The task's owner names the run, and the run is running.
pub record IsOwnedBy (task : Task) (run_id : String) (run : TaskRun) : Type 0 where
  pub owner : TaskOwner
  pub owned : task.owner ≡ some owner
  pub named : owner.run_id ≡ run_id
  pub found : find (has_run_id run_id) task.runs ≡ some run
  pub active : is_active run.state ≡ true
  pub same_id : run.id ≡ run_id

pub active_run-IsOwnedBy :
    (task : Task) (run_id : String) (run : TaskRun)
    → active_run task run_id ≡ ok run
    → IsOwnedBy task run_id run
unfolding active_run
active_run-IsOwnedBy task run_id run h = elim (Option-cases task.owner) [
  | inl e ↦ absurd (ground arith)
  | inr (owner, e) ↦ record {
    owner = owner;
    owned = e;
    named = ground (arith, eq_iff owner.run_id run_id);
    found = ground arith;
    active = ground arith;
    same_id =
        (eq_iff run.id run_id).0 (find-holds (has_run_id run_id) task.runs run (ground arith));
  }
]

pub find-contains :
    (id : String) (runs : List TaskRun) (run : TaskRun)
    → find (has_run_id id) runs ≡ some run
    → contains (run_ids runs) id ≡ true
find-contains id [] run h = cc
find-contains id (x ∷ runs) run h = ground (arith, find-contains id runs run)

pub normalize_authorization-id :
    (ctx : Context) (input : Option AuthorizationInput) (kind : ProvenanceKind)
    (grant : Authorization)
    → normalize_authorization ctx input kind ≡ ok grant
    → grant.id ≡ ctx.fresh "authorization" 0
unfolding normalize_authorization
normalize_authorization-id ctx none kind grant h = cc
normalize_authorization-id ctx (some input) kind grant h = ground arith

-- An accepted kind either leaves the authorizations alone, or is an approval and adds one.
abbrev pub Accepted : Context → Task → EvidenceKind → List Authorization × Option String → Type 0
Accepted ctx task kind accepted =
    ((is_approval kind ≡ false) × (accepted ≡ (task.authorizations, none)))
    ⊎ ((grant : Authorization) × (grant.id ≡ ctx.fresh "authorization" 0)
        × (is_approval kind ≡ true)
        × (accepted ≡ (task.authorizations ++ grant ∷ [], some grant.id)))

pub accept_kind-Accepted :
    (ctx : Context) (task : Task) (input : Option AuthorizationInput) (kind : EvidenceKind)
    (accepted : List Authorization × Option String)
    → accept_kind ctx task input kind ≡ ok accepted
    → Accepted ctx task kind accepted
unfolding accept_kind
accept_kind-Accepted ctx task input approval accepted h =
    elim (Result-cases (normalize_authorization ctx input direct_request)) [
      | inl (grant, e) ↦
          inr
            (grant, normalize_authorization-id ctx input direct_request grant e, refl, ground arith)
      | inr (error, e) ↦ absurd (ground arith)
    ]
accept_kind-Accepted ctx task input _ accepted h = inl (ground arith)

is_empty_iff : {A : Type 0} (xs : List A) → (is_empty xs ≡ true) ↔ (xs ≡ [])
is_empty_iff [] = ground arith
is_empty_iff (x ∷ xs) = ground arith

-- The owner that a resumed task gets.
abbrev pub chosen_owner : Context → Option String → String
chosen_owner ctx none = ctx.fresh "owner" 0
chosen_owner ctx (some id) = if id == "" then ctx.fresh "owner" 0 else id

module _ (ctx : Context) (task_id : String) (n : ℕ) (state : TaskState) (task : Task)
    (done : TaskState × Task) (found : find (has_id task_id) state.tasks ≡ some task) where
  pub resume-commits :
      (owner : Option String)
      → resume_task ctx task_id n owner state ≡ ok done
      → (owner_is_live ctx task.owner task.runs ≡ false)
        × (done
            ≡ commit_event ctx "task.resumed"
                (some (ctx.fresh "run" 0))
                state
                (resumed ctx (chosen_owner ctx owner) task))
  unfolding resume_task
  resume-commits none h = ground arith
  resume-commits (some owner) h = ground arith

  pub revise-commits :
      (input : List CriterionInput)
      → revise_criteria ctx task_id n input state ≡ ok done
      → (criteria : List Criterion) × (done
          ≡ commit_event ctx "criteria.revised" none state
              (record task { criteria = criteria; state = planned_if_completed task.state }))
  unfolding revise_criteria
  revise-commits input h = elim (Result-cases (reconcile_criteria ctx task.criteria input)) [
    | inl (criteria, e) ↦ (criteria, ground arith)
    | inr (error, e) ↦ absurd (ground arith)
  ]

  pub authorize-commits :
      (input : Option AuthorizationInput)
      → authorize_task ctx task_id n input state ≡ ok done
      → (grant : Authorization) × (grant.id ≡ ctx.fresh "authorization" 0)
        × (done ≡ commit_event ctx "authorization.recorded" none state (authorized grant task))
  unfolding authorize_task
  authorize-commits input h =
      elim (Result-cases (normalize_authorization ctx input direct_request)) [
        | inl (grant, e) ↦
            (grant, normalize_authorization-id ctx input direct_request grant e, ground arith)
        | inr (error, e) ↦ absurd (ground arith)
      ]

  pub pause-commits :
      (status : TaskStatus)
      → pause_task ctx task_id n status state ≡ ok done
      → (is_pause_state status ≡ true)
        × (done
            ≡ commit_event ctx
                (concat ("task." ∷ status_name status ∷ []))
                none
                state
                (stopped ctx interrupted status task))
  unfolding pause_task
  pause-commits status h = ground arith

  pub checkpoint-commits :
      (run_id summary : String)
      → checkpoint_task ctx task_id n run_id summary state ≡ ok done
      → (run : TaskRun) × (active_run task run_id ≡ ok run)
        × (done
            ≡ commit_event ctx "checkpoint.recorded"
                (some run_id)
                state
                (with_checkpoint ctx run_id summary task))
  unfolding checkpoint_task
  checkpoint-commits run_id summary h = elim (Result-cases (active_run task run_id)) [
    | inl (run, e) ↦ (run, e, ground arith)
    | inr (error, e) ↦ absurd (ground arith)
  ]

  pub complete-commits :
      (run_id : String)
      → complete_task ctx task_id n run_id state ≡ ok done
      → (run : TaskRun) × (active_run task run_id ≡ ok run)
        × (done ≡ commit_event ctx "task.completed" (some run.id) state (finished ctx run task))
  unfolding complete_task
  complete-commits run_id h = elim (Result-cases (active_run task run_id)) [
    | inl (run, e) ↦ (run, e, ground arith)
    | inr (error, e) ↦ absurd (ground arith)
  ]

  pub cancel-commits :
      (reason : Option String)
      → cancel_task ctx task_id n reason state ≡ ok done
      → done
        ≡ commit_event ctx
            (cancel_type reason)
            none
            state
            (stopped ctx RunState.cancelled TaskStatus.cancelled task)
  unfolding cancel_task
  cancel-commits reason h = ground arith

  pub set_mode-commits :
      (mode : VerificationMode)
      → set_verification_mode ctx task_id n mode state ≡ ok done
      → done
        ≡ commit_event ctx
            (concat ("verification-mode.changed:" ∷ mode_name mode ∷ []))
            none
            state
            (record task { verification_mode = some mode })
  unfolding set_verification_mode
  set_mode-commits mode h = ground arith

  pub verify-commits :
      verify_task ctx task_id n state ≡ ok done
      → (is_completed task.state ≡ true)
        × (verification_failures task ctx.source ≡ [])
        × (done ≡ commit_event ctx "task.verified" none state (record task { state = verified }))
  unfolding verify_task
  verify-commits h = ground (arith, is_empty_iff (verification_failures task ctx.source))

  pub evidence-commits :
      (input : EvidenceInput)
      → record_evidence ctx task_id n input state ≡ ok done
      → (run : TaskRun) × (criterion : Criterion) × (accepted : List Authorization × Option String)
        × (active_run task input.run_id ≡ ok run)
        × (find (has_criterion_id input.criterion_id) task.criteria ≡ some criterion)
        × (accept_kind ctx task input.authorization (evidence_kind input.kind) ≡ ok accepted)
        × (done
            ≡ commit_event ctx "evidence.recorded"
                (some run.id)
                state
                (with_evidence (new_evidence ctx input criterion run accepted.1) accepted.0 task))
  unfolding record_evidence
  evidence-commits input h = elim (Result-cases (active_run task input.run_id)) [
    | inr (error, e) ↦ absurd (ground arith)
    | inl (run, e) ↦
        elim (Option-cases (find (has_criterion_id input.criterion_id) task.criteria)) [
          | inl missing ↦ absurd (ground arith)
          | inr (criterion, c) ↦
              elim (Result-cases
                (accept_kind ctx task input.authorization (evidence_kind input.kind))) [
                  | inr (error, a) ↦ absurd (ground arith)
                  | inl (accepted, a) ↦ (run, criterion, accepted, e, c, a, ground arith)
                ]
        ]
  ]
