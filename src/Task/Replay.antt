-- ===== src/Task/Replay.antt =====
-- `mutate`: a mutation is committed once, a repeated request gets the same answer, and a second
-- writer at the same revision is refused.
use latchkit.Base.{
  ℕ, ◌≡◌, refl, String, Bool, true, false, not, List, [], ◌∷◌, ◌++◌, Option, none, some, find, all,
  ◌==◌, contains, if◌then◌else◌, arith, eq_iff, Option-cases, inl, inr, ok, err, ◌∙◌,
}
use latchkit.Task.Model.{Task, TaskState, TaskEvent, idempotency_conflict}
use latchkit.Task.Store.{
  Context, has_id, has_event, commit_event, replace_task, find_prior_mutation,
}
use latchkit.Task.Operations.{
  resume_task, authorize_task, pause_task, checkpoint_task, complete_task, cancel_task,
  set_verification_mode,
}
use latchkit.Task.Criteria.{revise_criteria}
use latchkit.Task.Evidence.{record_evidence, verify_task}
use latchkit.Task.Relations.{event_ids}
use latchkit.Task.Mutations.{
  Mutation, resume, authorize, pause, checkpoint, evidence, complete, cancel, set_mode, verify,
  revise, perform, is_fresh,
}
use latchkit.Task.Commits.{
  resume-commits, authorize-commits, pause-commits, checkpoint-commits, complete-commits,
  cancel-commits, set_mode-commits, verify-commits, evidence-commits, revise-commits,
}
use latchkit.Task.Preserved.{perform-found}

pub find-event_none :
    (id : String) (events : List TaskEvent)
    → contains (event_ids events) id ≡ false
    → find (has_event id) events ≡ none
find-event_none id [] h = refl
find-event_none id (x ∷ events) h = ground (arith, find-event_none id events)

pub find-event_append :
    (id : String) (events : List TaskEvent) (event : TaskEvent)
    → contains (event_ids events) id ≡ false
    → event.id ≡ id
    → find (has_event id) (events ++ event ∷ []) ≡ some event
find-event_append id [] event h e = ground (arith, eq_iff event.id id)
find-event_append id (x ∷ events) event h e = ground (arith, find-event_append id events event)

abbrev pub lacks_event : String → Task → Bool
lacks_event id task = not (contains (event_ids task.events) id)

pub find_prior-none :
    (id hash : String) (tasks : List Task)
    → all (lacks_event id) tasks ≡ true
    → find_prior_mutation tasks id hash ≡ ok none
unfolding find_prior_mutation
find_prior-none id hash [] h = refl
find_prior-none id hash (x ∷ tasks) h =
    ground (arith, find-event_none id x.events, find_prior-none id hash tasks)

pub find_prior-replace :
    (id hash : String) (tasks : List Task) (task old : Task) (event : TaskEvent)
    → all (lacks_event id) tasks ≡ true
    → find (has_id task.id) tasks ≡ some old
    → find (has_event id) task.events ≡ some event
    → find_prior_mutation (replace_task task tasks) id hash
      ≡ (if event.request_hash == hash then ok (some task) else err idempotency_conflict)
unfolding find_prior_mutation
find_prior-replace id hash [] task old event a f e = cc
find_prior-replace id hash (x ∷ tasks) task old event a f e =
    ground (arith, find-event_none id x.events, find_prior-replace id hash tasks task old event)

pub all_fresh-lacks_event :
    (ctx : Context) (tasks : List Task)
    → all (is_fresh ctx) tasks ≡ true
    → all (lacks_event ctx.mutation_id) tasks ≡ true
all_fresh-lacks_event ctx [] h = refl
all_fresh-lacks_event ctx (x ∷ tasks) h = ground (arith, all_fresh-lacks_event ctx tasks)

-- What every mutation that succeeds has committed: a change of the task that keeps its id, its
-- revision and its events.
pub record Committed (ctx : Context) (task_id : String) (n : ℕ) (state : TaskState)
    (done : TaskState × Task) : Type 0 where
  pub old : Task
  pub task : Task
  pub type : String
  pub run_id : Option String
  pub found : find (has_id task_id) state.tasks ≡ some old
  pub expected : old.revision ≡ n
  pub same_id : task.id ≡ old.id
  pub same_revision : task.revision ≡ n
  pub same_events : task.events ≡ old.events
  pub answer : done ≡ commit_event ctx type run_id state task

perform-expected :
    (ctx : Context) (m : Mutation) (task_id : String) (n : ℕ) (state : TaskState)
    (done : TaskState × Task) (task : Task)
    → find (has_id task_id) state.tasks ≡ some task
    → perform ctx m task_id n state ≡ ok done
    → task.revision ≡ n
unfolding perform resume_task authorize_task pause_task checkpoint_task complete_task cancel_task
    set_verification_mode record_evidence verify_task revise_criteria
perform-expected ctx (resume o) task_id n state done task f h = ground arith
perform-expected ctx _ task_id n state done task f h = ground arith

module _ (ctx : Context) (task_id : String) (n : ℕ) (state : TaskState) (task : Task)
    (done : TaskState × Task) (found : find (has_id task_id) state.tasks ≡ some task)
    (same : task.revision ≡ n) where
  Committed-by :
      (type : String) (run_id : Option String) (changed : Task)
      → changed.id ≡ task.id
      → changed.revision ≡ task.revision
      → changed.events ≡ task.events
      → done ≡ commit_event ctx type run_id state changed
      → Committed ctx task_id n state done
  Committed-by type run_id changed i r e a = record {
    old = task;
    task = changed;
    type = type;
    run_id = run_id;
    found = found;
    expected = same;
    same_id = i;
    same_revision = r ∙ same;
    same_events = e;
    answer = a;
  }

  perform_found-Committed :
      (m : Mutation) → perform ctx m task_id n state ≡ ok done → Committed ctx task_id n state done
  unfolding perform
  perform_found-Committed (resume owner) h =
      Committed-by _ _ _ refl refl refl
        (resume-commits ctx task_id n state task done found owner h).1
  perform_found-Committed (authorize input) h =
      let (grant, id, e) = authorize-commits ctx task_id n state task done found input h in
      Committed-by _ _ _ refl refl refl e
  perform_found-Committed (pause status) h =
      Committed-by _ _ _ refl refl refl
        (pause-commits ctx task_id n state task done found status h).1
  perform_found-Committed (checkpoint run_id summary) h =
      let (run, e, a) = checkpoint-commits ctx task_id n state task done found run_id summary h in
      Committed-by _ _ _ refl refl refl a
  perform_found-Committed (evidence input) h =
      let (run, criterion, accepted, e, c, k, a) =
        evidence-commits ctx task_id n state task done found input h in
      Committed-by _ _ _ refl refl refl a
  perform_found-Committed (complete run_id) h =
      let (run, e, a) = complete-commits ctx task_id n state task done found run_id h in
      Committed-by _ _ _ refl refl refl a
  perform_found-Committed (cancel reason) h =
      Committed-by _ _ _ refl refl refl
        (cancel-commits ctx task_id n state task done found reason h)
  perform_found-Committed (set_mode mode) h =
      Committed-by _ _ _ refl refl refl
        (set_mode-commits ctx task_id n state task done found mode h)
  perform_found-Committed verify h =
      let (is_done, nothing_missing, e) = verify-commits ctx task_id n state task done found h in
      Committed-by _ _ _ refl refl refl e
  perform_found-Committed (revise input) h =
      let (criteria, e) = revise-commits ctx task_id n state task done found input h in
      Committed-by _ _ _ refl refl refl e

pub perform-Committed :
    (ctx : Context) (m : Mutation) (task_id : String) (n : ℕ) (state : TaskState)
    (done : TaskState × Task)
    → perform ctx m task_id n state ≡ ok done
    → Committed ctx task_id n state done
perform-Committed ctx m task_id n state done h =
    elim (Option-cases (find (has_id task_id) state.tasks)) [
      | inl missing ↦ absurd (ground (arith, perform-found ctx m task_id n state done h))
      | inr (task, found) ↦
          perform_found-Committed ctx task_id n state task done found
            (perform-expected ctx m task_id n state done task found h) m h
    ]
