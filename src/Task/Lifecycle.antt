-- ===== src/Task/Lifecycle.antt =====
-- The changes that the mutations make to a task keep the relations that a write checks.
use latchkit.Base.{
  ℕ, suc, ◌≡◌, refl, String, Bool, true, false, List, [], ◌∷◌, ◌++◌, Option, none, some, is_some,
  contains, distinct, arith, eq_iff, all-append, contains-append, distinct-append_fresh, ◌∙◌, ap,
}
use mathlib.Core.List.{map-append}
use latchkit.Task.Model.{
  Task, TaskStatus, planned, RunState, interrupted, completed, TaskRun, TaskOwner, TaskEvidence,
  Authorization, is_running, is_active,
}
use latchkit.Task.Store.{Context}
use latchkit.Task.Operations.{
  end_owned_run, new_run, new_owner, resumed, stopped, finished, authorized, planned_if_waiting,
  with_checkpoint,
}
use latchkit.Task.Evidence.{with_evidence}
use latchkit.Task.Relations.{
  run_ids, authorization_ids, checkpoint_ids, evidence_ids, owner_count, owner_valid,
  checkpoint_valid, evidence_valid,
}
use latchkit.Task.Consistent.{
  IsBody, run_ids-end_owned_run, active_count, active_count-end_owned_run, find-append_fresh,
  Includes, Includes-append, Includes-refl, checkpoints_mono, evidence_mono,
}

-- A later revision bounds more.
owner_valid-suc :
    (n : ℕ) (runs : List TaskRun) (owner : Option TaskOwner)
    → owner_valid n runs owner ≡ true
    → owner_valid (suc n) runs owner ≡ true
owner_valid-suc n runs none h = refl
owner_valid-suc n runs (some owner) h = ground arith

pub IsBody-suc : (n : ℕ) (task : Task) → IsBody n task → IsBody (suc n) task
IsBody-suc n task b = record {
  unique_authorizations = b.unique_authorizations;
  unique_criteria = b.unique_criteria;
  unique_runs = b.unique_runs;
  unique_checkpoints = b.unique_checkpoints;
  unique_evidence = b.unique_evidence;
  workflow = b.workflow;
  owned = b.owned;
  one_run = b.one_run;
  owner_active = owner_valid-suc n task.runs task.owner b.owner_active;
  checkpoints =
      checkpoints_mono n (suc n) (run_ids task.runs) (run_ids task.runs) task.checkpoints
        (omega arith) (Includes-refl (run_ids task.runs)) b.checkpoints;
  evidence = b.evidence;
}

-- The runs end and one run may be added, with an owner to match.
change_runs :
    (n : ℕ) (task : Task) (owner : Option TaskOwner) (runs : List TaskRun) (status : TaskStatus)
    → IsBody n task
    → Includes (run_ids task.runs) (run_ids runs)
    → distinct (run_ids runs) ≡ true
    → is_running status ≡ is_some owner
    → active_count runs ≡ owner_count owner
    → owner_valid (suc n) runs owner ≡ true
    → IsBody (suc n) (record task { runs = runs; owner = owner; state = status })
change_runs n task owner runs status b more unique owned one valid = record {
  unique_authorizations = b.unique_authorizations;
  unique_criteria = b.unique_criteria;
  unique_runs = unique;
  unique_checkpoints = b.unique_checkpoints;
  unique_evidence = b.unique_evidence;
  workflow = b.workflow;
  owned = owned;
  one_run = one;
  owner_active = valid;
  checkpoints =
      checkpoints_mono n (suc n) (run_ids task.runs) (run_ids runs) task.checkpoints (omega arith)
        more b.checkpoints;
  evidence =
      evidence_mono (run_ids task.runs) (run_ids runs) (authorization_ids task.authorizations)
        (authorization_ids task.authorizations) task.criteria task.evidence more
        (Includes-refl (authorization_ids task.authorizations)) b.evidence;
}

pub Includes-of_eq : {xs ys : List String} → xs ≡ ys → Includes ys xs
Includes-of_eq {xs} {ys} e a h = rw e h

pub stopped-IsBody :
    (n : ℕ) (ctx : Context) (to : RunState) (status : TaskStatus) (task : Task)
    → is_active to ≡ false
    → is_running status ≡ false
    → IsBody n task
    → IsBody (suc n) (stopped ctx to status task)
stopped-IsBody n ctx to status task t s b =
    let ended = end_owned_run task.owner to ctx.at task.runs in
    let same = run_ids-end_owned_run task.owner to ctx.at task.runs in
    change_runs n task none ended status b (Includes-of_eq same) (rw same b.unique_runs) s
      (active_count-end_owned_run n task.owner to ctx.at task.runs t b.owner_active b.one_run) refl

active_count-append :
    (runs : List TaskRun) (run : TaskRun)
    → is_active run.state ≡ true
    → active_count (runs ++ run ∷ []) ≡ suc (active_count runs)
active_count-append [] run h = ground arith
active_count-append (x ∷ runs) run h = ground (arith, active_count-append runs run h)

new_owner_valid :
    (ctx : Context) (owner_id : String) (runs : List TaskRun) (task : Task)
    → contains (run_ids runs) (ctx.fresh "run" 0) ≡ false
    → owner_valid
        (suc task.revision)
        (runs ++ new_run ctx owner_id ∷ [])
        (some (new_owner ctx owner_id task))
      ≡ true
new_owner_valid ctx owner_id runs task fresh = ground (
  arith,
  find-append_fresh (ctx.fresh "run" 0) runs (new_run ctx owner_id) fresh refl,
  eq_iff owner_id owner_id,
)

-- The former runs stay known, and so is the new one.
pub resumed-runs :
    (ctx : Context) (owner_id : String) (task : Task)
    → Includes (run_ids task.runs) (run_ids (resumed ctx owner_id task).runs)
      × (contains (run_ids (resumed ctx owner_id task).runs) (ctx.fresh "run" 0) ≡ true)
resumed-runs ctx owner_id task =
    let same = run_ids-end_owned_run task.owner interrupted ctx.at task.runs in
    let id = ctx.fresh "run" 0 in
    rw (map-append, same)
      (
        Includes-append (run_ids task.runs) (id ∷ []),
        ground (arith, contains-append (run_ids task.runs) (id ∷ []) id, eq_iff id id),
      )

pub resumed-IsBody :
    (ctx : Context) (owner_id : String) (task : Task)
    → contains (run_ids task.runs) (ctx.fresh "run" 0) ≡ false
    → IsBody task.revision task
    → IsBody (suc task.revision) (resumed ctx owner_id task)
resumed-IsBody ctx owner_id task fresh b =
    let ended = end_owned_run task.owner interrupted ctx.at task.runs in
    let same = run_ids-end_owned_run task.owner interrupted ctx.at task.runs in
    let ids : run_ids (ended ++ new_run ctx owner_id ∷ [])
        ≡ run_ids task.runs ++ ctx.fresh "run" 0 ∷ [] =
      rw (map-append, same) in
    change_runs task.revision task (some (new_owner ctx owner_id task))
      (ended ++ new_run ctx owner_id ∷ []) TaskStatus.running b
      (rw ids (Includes-append (run_ids task.runs) (ctx.fresh "run" 0 ∷ [])))
      (rw ids (distinct-append_fresh (run_ids task.runs) (ctx.fresh "run" 0) fresh b.unique_runs))
      refl
      (active_count-append ended (new_run ctx owner_id) refl
        ∙ ap suc (
            active_count-end_owned_run task.revision task.owner interrupted ctx.at task.runs refl
              b.owner_active b.one_run))
      (new_owner_valid ctx owner_id ended task (rw same fresh))

-- The run that completes is the one that the owner names.
pub finished-stopped :
    (ctx : Context) (task : Task) (owner : TaskOwner) (run : TaskRun)
    → task.owner ≡ some owner
    → run.id ≡ owner.run_id
    → finished ctx run task ≡ stopped ctx RunState.completed completed task
unfolding end_owned_run
finished-stopped ctx task owner run o e = rw (o, e)

still_running :
    (status : TaskStatus) {b : Bool}
    → is_running status ≡ b
    → is_running (planned_if_waiting status) ≡ b
still_running planned h = h
still_running _ h = h

pub authorized-IsBody :
    (n : ℕ) (grant : Authorization) (task : Task)
    → contains (authorization_ids task.authorizations) grant.id ≡ false
    → IsBody n task
    → IsBody n (authorized grant task)
authorized-IsBody n grant task fresh b =
    let ids : authorization_ids (task.authorizations ++ grant ∷ [])
        ≡ authorization_ids task.authorizations ++ grant.id ∷ [] =
      rw map-append in
    record {
      unique_authorizations = rw ids (
          distinct-append_fresh (authorization_ids task.authorizations) grant.id fresh
            b.unique_authorizations);
      unique_criteria = b.unique_criteria;
      unique_runs = b.unique_runs;
      unique_checkpoints = b.unique_checkpoints;
      unique_evidence = b.unique_evidence;
      workflow = b.workflow;
      owned = still_running task.state b.owned;
      one_run = b.one_run;
      owner_active = b.owner_active;
      checkpoints = b.checkpoints;
      evidence =
          evidence_mono (run_ids task.runs) (run_ids task.runs)
            (authorization_ids task.authorizations)
            (authorization_ids (task.authorizations ++ grant ∷ [])) task.criteria task.evidence
            (Includes-refl (run_ids task.runs))
            (rw ids (Includes-append (authorization_ids task.authorizations) (grant.id ∷ [])))
            b.evidence;
    }

pub with_checkpoint-IsBody :
    (ctx : Context) (run_id summary : String) (task : Task)
    → contains (checkpoint_ids task.checkpoints) (ctx.fresh "checkpoint" 0) ≡ false
    → contains (run_ids task.runs) run_id ≡ true
    → IsBody task.revision task
    → IsBody (suc task.revision) (with_checkpoint ctx run_id summary task)
with_checkpoint-IsBody ctx run_id summary task fresh known old =
    let b = IsBody-suc task.revision task old in
    record {
      unique_authorizations = b.unique_authorizations;
      unique_criteria = b.unique_criteria;
      unique_runs = b.unique_runs;
      unique_checkpoints = rw map-append (
          distinct-append_fresh (checkpoint_ids task.checkpoints) (ctx.fresh "checkpoint" 0) fresh
            b.unique_checkpoints);
      unique_evidence = b.unique_evidence;
      workflow = b.workflow;
      owned = b.owned;
      one_run = b.one_run;
      owner_active = b.owner_active;
      checkpoints =
          rw
            (all-append {0} (checkpoint_valid (suc task.revision) (run_ids task.runs))
              task.checkpoints)
            (ground (arith, b.checkpoints, known));
      evidence = b.evidence;
    }

pub with_evidence-IsBody :
    (n : ℕ) (item : TaskEvidence) (grants : List Authorization) (task : Task)
    → contains (evidence_ids task.evidence) item.id ≡ false
    → distinct (authorization_ids grants) ≡ true
    → Includes (authorization_ids task.authorizations) (authorization_ids grants)
    → evidence_valid (run_ids task.runs) task.criteria (authorization_ids grants) item ≡ true
    → IsBody n task
    → IsBody n (with_evidence item grants task)
with_evidence-IsBody n item grants task fresh unique more valid b = record {
  unique_authorizations = unique;
  unique_criteria = b.unique_criteria;
  unique_runs = b.unique_runs;
  unique_checkpoints = b.unique_checkpoints;
  unique_evidence =
      rw map-append
        (distinct-append_fresh (evidence_ids task.evidence) item.id fresh b.unique_evidence);
  workflow = b.workflow;
  owned = b.owned;
  one_run = b.one_run;
  owner_active = b.owner_active;
  checkpoints = b.checkpoints;
  evidence =
      rw
        (all-append {0}
          (evidence_valid (run_ids task.runs) task.criteria (authorization_ids grants))
          task.evidence)
        (ground (
          arith,
          valid,
          evidence_mono (run_ids task.runs) (run_ids task.runs)
              (authorization_ids task.authorizations) (authorization_ids grants) task.criteria
              task.evidence (Includes-refl (run_ids task.runs)) more b.evidence,
        ));
}
