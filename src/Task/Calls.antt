-- ===== src/Task/Calls.antt =====
-- Calls of the mutations in a row, as the lock of the store orders them, and what they leave of a
-- mutation that was committed before them.
use latchkit.Base.{
  ℕ, suc, ◌≡◌, ◌≢◌, refl, String, Bool, true, false, ◌||◌, List, [], ◌∷◌, ◌++◌, none, some, find,
  all, ◌==◌, contains, if◌then◌else◌, arith, eq_iff, Result-cases, Bool-cases, inl, inr, Result, ok,
  err, ◌∙◌, sym, subst, find-holds,
}
use latchkit.Task.Model.{Task, TaskState, TaskEvent, TaskError, idempotency_conflict}
use latchkit.Task.Store.{
  Context, has_id, has_event, new_event, committed, commit_event, replace_task, find_prior_mutation,
}
use latchkit.Task.Relations.{event_ids}
use latchkit.Task.Formats.{validate_task_state, mutate}
use latchkit.Task.Mutations.{Mutation, perform, is_fresh, all_fresh}
use latchkit.Task.Commit.{all-find, find-replace_task}
use latchkit.Task.Replay.{
  Committed, perform-Committed, lacks_event, find-event_none, find-event_append,
}

pub record TaskCall : Type 0 where
  pub ctx : Context
  pub mutation : Mutation
  pub task_id : String
  pub expected : ℕ

abbrev left_by : TaskState → Result TaskError (TaskState × Task) → TaskState
left_by state (ok done) = done.0
left_by state (err error) = state

-- The store behind a call; one that throws writes nothing.
unfoldable pub store_after : TaskCall → TaskState → TaskState
unfolding mutate
store_after call state =
    left_by state
      (mutate call.ctx (perform call.ctx call.mutation call.task_id call.expected) state)

abbrev pub store_after_all : List TaskCall → TaskState → TaskState
store_after_all [] state = state
store_after_all (call ∷ calls) state = store_after_all calls (store_after call state)

-- Of a task with another id, that it has no event of the mutation.
abbrev pub lacks_elsewhere : String → String → Task → Bool
lacks_elsewhere task_id id task = task.id == task_id || lacks_event id task

-- The mutation `id` is recorded with its digest in the task, and in no task with another id.
pub record IsRecorded (task_id id hash : String) (tasks : List Task) : Type 0 where
  pub task : Task
  pub event : TaskEvent
  pub found : find (has_id task_id) tasks ≡ some task
  pub recorded : find (has_event id) task.events ≡ some event
  pub same_hash : event.request_hash ≡ hash
  pub elsewhere : all (lacks_elsewhere task_id id) tasks ≡ true

find_prior-elsewhere :
    (task_id id hash : String) (tasks : List Task) (task : Task) (event : TaskEvent)
    → find (has_id task_id) tasks ≡ some task
    → find (has_event id) task.events ≡ some event
    → all (lacks_elsewhere task_id id) tasks ≡ true
    → find_prior_mutation tasks id hash
      ≡ (if event.request_hash == hash then ok (some task) else err idempotency_conflict)
unfolding find_prior_mutation
find_prior-elsewhere task_id id hash [] task event f r a = cc
find_prior-elsewhere task_id id hash (x ∷ tasks) task event f r a =
    ground
      (arith, find-event_none id x.events, find_prior-elsewhere task_id id hash tasks task event)

pub IsRecorded-prior :
    (task_id id hash given : String) (tasks : List Task) (k : IsRecorded task_id id hash tasks)
    → find_prior_mutation tasks id given
      ≡ (if hash == given then ok (some k.task) else err idempotency_conflict)
IsRecorded-prior task_id id hash given tasks k =
    subst
      (λ h.
        find_prior_mutation tasks id given
        ≡ (if h == given then ok (some k.task) else err idempotency_conflict))
      k.same_hash
      (find_prior-elsewhere task_id id given tasks k.task k.event k.found k.recorded k.elsewhere)

find-replace_any :
    (task_id : String) (new old : Task) (tasks : List Task)
    → find (has_id new.id) tasks ≡ some old
    → find (has_id task_id) (replace_task new tasks)
      ≡ (if new.id == task_id then some new else find (has_id task_id) tasks)
find-replace_any task_id new old [] f = cc
find-replace_any task_id new old (x ∷ tasks) f = ground (
  arith,
  find-replace_any task_id new old tasks,
  eq_iff x.id new.id,
  eq_iff x.id task_id,
  eq_iff new.id task_id,
)

all-replace_task :
    (p : Task → Bool) (new : Task) (tasks : List Task)
    → p new ≡ true
    → all p tasks ≡ true
    → all p (replace_task new tasks) ≡ true
all-replace_task p new [] h a = refl
all-replace_task p new (x ∷ tasks) h a = ground (arith, all-replace_task p new tasks h)

find-event_kept :
    (id : String) (events : List TaskEvent) (event next : TaskEvent)
    → find (has_event id) events ≡ some event
    → find (has_event id) (events ++ next ∷ []) ≡ some event
find-event_kept id [] event next f = cc
find-event_kept id (x ∷ events) event next f = ground (arith, find-event_kept id events event next)

lacks_event-append :
    (id : String) (events : List TaskEvent) (next : TaskEvent)
    → contains (event_ids events) id ≡ false
    → next.id ≢ id
    → contains (event_ids (events ++ next ∷ [])) id ≡ false
lacks_event-append id [] next h other = ground (arith, eq_iff next.id id)
lacks_event-append id (x ∷ events) next h other = ground (arith, lacks_event-append id events next)

all_fresh-elsewhere :
    (ctx : Context) (task_id : String) (tasks : List Task)
    → all (is_fresh ctx) tasks ≡ true
    → all (lacks_elsewhere task_id ctx.mutation_id) tasks ≡ true
all_fresh-elsewhere ctx task_id [] h = refl
all_fresh-elsewhere ctx task_id (x ∷ tasks) h =
    ground (arith, all_fresh-elsewhere ctx task_id tasks)

module _ (ctx : Context) (task_id : String) (n : ℕ) (state : TaskState) (done : TaskState × Task)
    (c : Committed ctx task_id n state done) where
  same_task : c.task.id ≡ task_id
  same_task =
      c.same_id
      ∙ (eq_iff c.old.id task_id).0 (find-holds (has_id task_id) state.tasks c.old c.found)

  pub found_by_id : find (has_id c.task.id) state.tasks ≡ some c.old
  found_by_id = subst (λ id. find (has_id id) state.tasks ≡ some c.old) (sym same_task) c.found

  abbrev changed : Task
  changed = committed ctx c.type c.run_id c.task

  -- The store has the task at the next revision.
  pub committed_task :
      (find (has_id task_id) done.0.tasks ≡ some done.1)
      × (done.1.revision ≡ suc n)
      × (done.0.schema_version ≡ state.schema_version)
  unfolding commit_event
  committed_task = rw c.answer (
    subst (λ id. find (has_id id) (replace_task changed state.tasks) ≡ some changed) same_task
        (find-replace_task changed c.old state.tasks found_by_id),
    omega (arith, c.same_revision),
    refl,
  )

  -- A mutation with a new id is recorded in the store that it leaves.
  pub committed-IsRecorded :
      all_fresh ctx state ≡ true → IsRecorded task_id ctx.mutation_id ctx.hash done.0.tasks
  unfolding commit_event
  committed-IsRecorded fresh =
      let event = new_event ctx c.type c.run_id c.task in
      let unused : is_fresh ctx c.old ≡ true =
        all-find (is_fresh ctx) (has_id task_id) state.tasks c.old fresh c.found in
      record {
        task = done.1;
        event = event;
        found = committed_task.0;
        recorded = rw c.answer (
            find-event_append ctx.mutation_id c.task.events event
              (rw c.same_events (ground (arith, unused))) refl);
        same_hash = refl;
        elsewhere = rw c.answer (
            all-replace_task (lacks_elsewhere task_id ctx.mutation_id) changed state.tasks
              (ground (arith, same_task, eq_iff c.task.id task_id))
              (all_fresh-elsewhere ctx task_id state.tasks fresh));
      }

  -- Another mutation keeps the record.
  committed-keeps :
      (kept_id id hash : String)
      → ctx.mutation_id ≢ id
      → IsRecorded kept_id id hash state.tasks
      → IsRecorded kept_id id hash done.0.tasks
  unfolding commit_event
  committed-keeps kept_id id hash other k =
      let event = new_event ctx c.type c.run_id c.task in
      let found : find (has_id kept_id) done.0.tasks
          ≡ (if c.task.id == kept_id then some changed else find (has_id kept_id) state.tasks) =
        rw c.answer (find-replace_any kept_id changed c.old state.tasks found_by_id) in
      let old_lacks : lacks_elsewhere kept_id id c.old ≡ true =
        all-find (lacks_elsewhere kept_id id) (has_id task_id) state.tasks c.old k.elsewhere
          c.found in
      let lacks : lacks_elsewhere kept_id id changed ≡ true =
        ground
          (arith, old_lacks, c.same_id, c.same_events, lacks_event-append id c.task.events event) in
      let elsewhere : all (lacks_elsewhere kept_id id) done.0.tasks ≡ true =
        rw c.answer
          (all-replace_task (lacks_elsewhere kept_id id) changed state.tasks lacks k.elsewhere) in
      elim (Bool-cases (c.task.id == kept_id)) [
        | inl here ↦
            let same_old : c.old ≡ k.task = ground (
              arith,
              (eq_iff c.task.id kept_id).0 here,
              subst (λ x. find (has_id x) state.tasks ≡ some c.old)
                  ((eq_iff c.task.id kept_id).0 here) found_by_id,
              k.found,
            ) in
            record {
              task = changed;
              event = k.event;
              found = rw found (rw here refl);
              recorded =
                  find-event_kept id c.task.events k.event event
                    (rw c.same_events (rw same_old k.recorded));
              same_hash = k.same_hash;
              elsewhere = elsewhere;
            }
        | inr away ↦ record {
          task = k.task;
          event = k.event;
          found = rw found (rw away k.found);
          recorded = k.recorded;
          same_hash = k.same_hash;
          elsewhere = elsewhere;
        }
      ]

store_after-IsRecorded :
    (call : TaskCall) (task_id id hash : String) (state : TaskState)
    → IsRecorded task_id id hash state.tasks
    → IsRecorded task_id id hash (store_after call state).tasks
unfolding store_after mutate
store_after-IsRecorded call task_id id hash state k =
    let ctx = call.ctx in
    let P = λ (s : TaskState). IsRecorded task_id id hash s.tasks in
    let run = perform ctx call.mutation call.task_id call.expected in
    elim (Result-cases (find_prior_mutation state.tasks ctx.mutation_id ctx.hash)) [
      | inr (error, e) ↦ rw e k
      | inl (some prior, e) ↦ rw e k
      | inl (none, e) ↦ elim (Result-cases (run state)) [
        | inr (error, r) ↦ rw e (rw r k)
        | inl (done, r) ↦ elim (Bool-cases (validate_task_state done.0)) [
          | inr refused ↦ rw e (rw r (rw refused k))
          | inl valid ↦
              let other : ctx.mutation_id ≢ id = λ same. ground (
                arith,
                e,
                subst
                    (λ x.
                      find_prior_mutation state.tasks x ctx.hash
                      ≡ (if hash == ctx.hash then ok (some k.task) else err idempotency_conflict))
                    (sym same) (IsRecorded-prior task_id id hash ctx.hash state.tasks k),
              ) in
              rw e (
                rw r (
                  rw valid (
                    committed-keeps ctx call.task_id call.expected state done
                      (perform-Committed ctx call.mutation call.task_id call.expected state done r)
                      task_id id hash other k)))
        ]
      ]
    ]

pub store_after_all-IsRecorded :
    (calls : List TaskCall) (task_id id hash : String) (state : TaskState)
    → IsRecorded task_id id hash state.tasks
    → IsRecorded task_id id hash (store_after_all calls state).tasks
store_after_all-IsRecorded [] task_id id hash state k = k
store_after_all-IsRecorded (call ∷ calls) task_id id hash state k =
    store_after_all-IsRecorded calls task_id id hash (store_after call state)
      (store_after-IsRecorded call task_id id hash state k)
