-- ===== src/Task/Consistent.antt =====
-- The relations that a write checks, as facts about a task, and the lemmas on its lists.
use latchkit.Base.{
  ℕ, suc, ◌+◌, ◌≤◌, ◌≡◌, refl, String, true, false, List, [], ◌∷◌, ◌++◌, Option, none, some, find,
  keep, all, length, is_some, contains, distinct, arith, ◌↔◌, eq_iff, all_mono, contains-append,
  distinct-append_fresh, length-append, Option-cases, inl, inr,
}
use mathlib.Core.List.{map-append}
use latchkit.Task.Store.{Context, committed, new_event}
use latchkit.Task.Model.{
  Task, RunState, TaskRun, TaskOwner, TaskEvent, TaskCheckpoint, TaskEvidence, Criterion,
  is_running, is_active,
}
use latchkit.Task.Operations.{has_run_id, end_run, end_owned_run}
use latchkit.Task.Criteria.{criterion_ids}
use latchkit.Task.Relations.{
  run_ids, authorization_ids, checkpoint_ids, evidence_ids, event_ids, is_active_run, owner_count,
  owner_valid, checkpoint_valid, evidence_valid, reference_known, events_valid, workflow_valid,
  body_valid, history_valid, is_consistent,
}

pub record IsBody (revision : ℕ) (task : Task) : Type 0 where
  pub unique_authorizations : distinct (authorization_ids task.authorizations) ≡ true
  pub unique_criteria : distinct (criterion_ids task.criteria) ≡ true
  pub unique_runs : distinct (run_ids task.runs) ≡ true
  pub unique_checkpoints : distinct (checkpoint_ids task.checkpoints) ≡ true
  pub unique_evidence : distinct (evidence_ids task.evidence) ≡ true
  pub workflow : workflow_valid task.criteria task.enhanced_workflow ≡ true
  pub owned : is_running task.state ≡ is_some task.owner
  pub one_run : length (keep is_active_run task.runs) ≡ owner_count task.owner
  pub owner_active : owner_valid revision task.runs task.owner ≡ true
  pub checkpoints : all (checkpoint_valid revision (run_ids task.runs)) task.checkpoints ≡ true
  pub evidence :
      all
        (evidence_valid (run_ids task.runs) task.criteria (authorization_ids task.authorizations))
        task.evidence
      ≡ true

pub record IsHistory (task : Task) : Type 0 where
  pub unique_events : distinct (event_ids task.events) ≡ true
  pub numbered : events_valid 0 (run_ids task.runs) task.events ≡ true
  pub counted : length task.events ≡ task.revision

pub body_valid_iff : (n : ℕ) (t : Task) → (body_valid n t ≡ true) ↔ IsBody n t
unfolding body_valid
body_valid_iff n t = ground arith

pub history_valid_iff : (t : Task) → (history_valid t ≡ true) ↔ IsHistory t
unfolding history_valid
history_valid_iff t = ground arith

pub run_ids-end_run :
    (id : String) (to : RunState) (at : ℕ) (runs : List TaskRun)
    → run_ids (end_run id to at runs) ≡ run_ids runs
unfolding end_run
run_ids-end_run id to at [] = refl
run_ids-end_run id to at (run ∷ runs) = ground (arith, run_ids-end_run id to at runs)

pub run_ids-end_owned_run :
    (owner : Option TaskOwner) (to : RunState) (at : ℕ) (runs : List TaskRun)
    → run_ids (end_owned_run owner to at runs) ≡ run_ids runs
unfolding end_owned_run
run_ids-end_owned_run none to at runs = refl
run_ids-end_owned_run (some owner) to at runs = run_ids-end_run owner.run_id to at runs

abbrev pub active_count : List TaskRun → ℕ
active_count runs = length (keep is_active_run runs)

pub active_count-end_run :
    (id : String) (to : RunState) (at : ℕ) (runs : List TaskRun) (run : TaskRun)
    → is_active to ≡ false
    → find (has_run_id id) runs ≡ some run
    → is_active run.state ≡ true
    → suc (active_count (end_run id to at runs)) ≡ active_count runs
unfolding end_run
active_count-end_run id to at [] run t f a = cc
active_count-end_run id to at (x ∷ runs) run t f a =
    ground (arith, active_count-end_run id to at runs run t)

-- The owner's run was the only one that was running.
pub active_count-end_owned_run :
    (n : ℕ) (owner : Option TaskOwner) (to : RunState) (at : ℕ) (runs : List TaskRun)
    → is_active to ≡ false
    → owner_valid n runs owner ≡ true
    → active_count runs ≡ owner_count owner
    → active_count (end_owned_run owner to at runs) ≡ 0
unfolding end_owned_run
active_count-end_owned_run n none to at runs t v c = c
active_count-end_owned_run n (some owner) to at runs t v c =
    elim (Option-cases (find (has_run_id owner.run_id) runs)) [
      | inl missing ↦ ground arith
      | inr (run, found) ↦
          omega (arith, c, active_count-end_run owner.run_id to at runs run t found (ground arith))
    ]

pub find-append_fresh :
    (id : String) (runs : List TaskRun) (run : TaskRun)
    → contains (run_ids runs) id ≡ false
    → run.id ≡ id
    → find (has_run_id id) (runs ++ run ∷ []) ≡ some run
find-append_fresh id [] run h e = ground (arith, eq_iff run.id id)
find-append_fresh id (x ∷ runs) run h e = ground (arith, find-append_fresh id runs run)

abbrev pub Includes : List String → List String → Type 0
Includes xs ys = (a : String) → contains xs a ≡ true → contains ys a ≡ true

pub Includes-append : (xs ys : List String) → Includes xs (xs ++ ys)
Includes-append xs ys a h = ground (arith, contains-append xs ys a)

pub Includes-refl : (xs : List String) → Includes xs xs
Includes-refl xs a h = h

reference_known_mono :
    (xs ys : List String) (o : Option String)
    → Includes xs ys
    → reference_known xs o ≡ true
    → reference_known ys o ≡ true
reference_known_mono xs ys none i h = refl
reference_known_mono xs ys (some a) i h = i a h

pub events_valid_mono :
    (n : ℕ) (xs ys : List String) (events : List TaskEvent)
    → Includes xs ys
    → events_valid n xs events ≡ true
    → events_valid n ys events ≡ true
events_valid_mono n xs ys [] i h = refl
events_valid_mono n xs ys (event ∷ events) i h =
    ground
      (arith, events_valid_mono (suc n) xs ys events i, reference_known_mono xs ys event.run_id i)

pub events_valid-append :
    (n : ℕ) (xs : List String) (events : List TaskEvent) (event : TaskEvent)
    → events_valid n xs events ≡ true
    → event.task_revision ≡ suc (n + length events)
    → reference_known xs event.run_id ≡ true
    → events_valid n xs (events ++ event ∷ []) ≡ true
events_valid-append n xs [] event h e r = ground arith
events_valid-append n xs (x ∷ events) event h e r =
    ground (arith, events_valid-append (suc n) xs events event)

pub checkpoints_mono :
    (m n : ℕ) (xs ys : List String) (items : List TaskCheckpoint)
    → m ≤ n
    → Includes xs ys
    → all (checkpoint_valid m xs) items ≡ true
    → all (checkpoint_valid n ys) items ≡ true
checkpoints_mono m n xs ys items le i =
    all_mono (checkpoint_valid m xs) (checkpoint_valid n ys) items
      (λ c h. ground (arith, i c.run_id))

pub evidence_mono :
    (xs ys grants more : List String) (criteria : List Criterion) (items : List TaskEvidence)
    → Includes xs ys
    → Includes grants more
    → all (evidence_valid xs criteria grants) items ≡ true
    → all (evidence_valid ys criteria more) items ≡ true
evidence_mono xs ys grants more criteria items i j =
    all_mono (evidence_valid xs criteria grants) (evidence_valid ys criteria more) items
      (λ e h. ground (arith, i e.run_id, reference_known_mono grants more e.authorization_id j))

pub append-IsHistory :
    (ctx : Context) (type : String) (run_id : Option String) (task : Task)
    → IsHistory task
    → contains (event_ids task.events) ctx.mutation_id ≡ false
    → reference_known (run_ids task.runs) run_id ≡ true
    → IsHistory (committed ctx type run_id task)
append-IsHistory ctx type run_id task h fresh known = record {
  unique_events =
      rw map-append
        (distinct-append_fresh (event_ids task.events) ctx.mutation_id fresh h.unique_events);
  numbered =
      events_valid-append 0 (run_ids task.runs) task.events (new_event ctx type run_id task)
        h.numbered (omega (arith, h.counted)) known;
  counted =
      omega (arith, h.counted, length-append {0} task.events (new_event ctx type run_id task ∷ []));
}

pub commit-is_consistent :
    (ctx : Context) (type : String) (run_id : Option String) (task : Task)
    → IsBody (suc task.revision) task
    → IsHistory task
    → contains (event_ids task.events) ctx.mutation_id ≡ false
    → reference_known (run_ids task.runs) run_id ≡ true
    → is_consistent (committed ctx type run_id task) ≡ true
unfolding is_consistent
commit-is_consistent ctx type run_id task b h fresh known = rw (
  (body_valid_iff (suc task.revision) (committed ctx type run_id task)).1 (assumption b),
  (history_valid_iff (committed ctx type run_id task)).1
      (append-IsHistory ctx type run_id task h fresh known),
)

pub consistent_parts :
    (task : Task) → is_consistent task ≡ true → IsBody task.revision task × IsHistory task
unfolding is_consistent
consistent_parts task h = (
  (body_valid_iff task.revision task).0 (ground arith),
  (history_valid_iff task).0 (ground arith),
)
