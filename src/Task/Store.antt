-- ===== src/Task/Store.antt =====
-- task-state/service.ts: looking a task up, checking its revision, and committing an event.
-- What one call takes from outside is its context: the clock's reading, the mutation's id and the
-- digest of its request, the identifiers that `randomUUID` draws, the process, the source
-- snapshot of the working tree, and the probe for a live process.
use latchkit.Base.{
  ℕ, suc, String, Bool, true, false, not, List, [], ◌∷◌, ◌++◌, Option, none, some, find,
  update_first, ◌==◌, eqb, leb, codes, strip_prefix, matches_shape, uuid_shape, if◌then◌else◌,
  Result, ok, err, guard, or_fail, ◌>>=◌, ◌>>◌,
}
use latchkit.Task.Model.{
  TaskStatus, cancelled, verified, Task, TaskState, TaskRun, TaskEvent, TaskError, ProcessIdentity,
  SourceSnapshot, TaskEnvironment, revision_required, revision_conflict, not_found,
  transition_invalid, idempotency_conflict, state_invalid,
}

pub record Context : Type 0 where
  pub at : ℕ
  pub mutation_id : String
  pub hash : String
  -- `fresh prefix n`: the identifier that the n-th draw for this prefix gives.
  pub fresh : String → ℕ → String
  pub process : ProcessIdentity
  pub environment : TaskEnvironment
  pub source : SourceSnapshot
  pub is_live : TaskRun → Bool

-- The prefix, an underscore and a UUID.
unfoldable pub is_stable_id : String → String → Bool
is_stable_id prefix value = elim (strip_prefix (codes prefix ++ b'_' ∷ []) (codes value)) [
  | none ↦ false
  | some rest ↦ matches_shape uuid_shape rest
]

abbrev pub validate_stable_id : String → String → Result TaskError (Unit {0})
validate_stable_id prefix value = guard (is_stable_id prefix value) state_invalid

abbrev pub has_id : String → Task → Bool
has_id id task = task.id == id

unfoldable pub assert_expected : Task → ℕ → Result TaskError (Unit {0})
assert_expected task expected = do
  guard (leb 1 expected) revision_required
  guard (eqb task.revision expected) (revision_conflict expected task.revision)

unfoldable pub find_task : TaskState → String → Result TaskError Task
find_task state task_id = do
  validate_stable_id "task" task_id
  or_fail (find (has_id task_id) state.tasks) not_found

abbrev pub is_terminal : TaskStatus → Bool
is_terminal cancelled = true
is_terminal verified = true
is_terminal _ = false

unfoldable pub ensure_mutable : Task → Result TaskError (Unit {0})
ensure_mutable task = guard (not (is_terminal task.state)) transition_invalid

abbrev pub has_event : String → TaskEvent → Bool
has_event mutation_id event = event.id == mutation_id

unfoldable pub find_prior_mutation : List Task → String → String → Result TaskError (Option Task)
find_prior_mutation [] mutation_id hash = ok none
find_prior_mutation (task ∷ tasks) mutation_id hash =
    let rest = find_prior_mutation tasks mutation_id hash in
    elim (find (has_event mutation_id) task.events) [
      | none ↦ rest
      | some event ↦ if event.request_hash == hash then ok (some task) else err idempotency_conflict
    ]

-- The event of a mutation, at the task's next revision.
abbrev pub new_event : Context → String → Option String → Task → TaskEvent
new_event ctx type run_id task = record {
  id = ctx.mutation_id;
  type = type;
  request_hash = ctx.hash;
  task_revision = suc task.revision;
  run_id = run_id;
  created_at = ctx.at;
}

-- `commitEvent`, the part that changes the task.
abbrev pub committed : Context → String → Option String → Task → Task
committed ctx type run_id task = record task {
  revision = suc task.revision;
  updated_at = ctx.at;
  events = task.events ++ new_event ctx type run_id task ∷ [];
}

-- The part that changes the store, which holds the task by reference.
abbrev pub advance : Context → TaskState → List Task → TaskState
advance ctx state tasks = record state {
  revision = suc state.revision;
  updated_at = ctx.at;
  tasks = tasks;
}

abbrev pub replace_task : Task → List Task → List Task
replace_task task = update_first (has_id task.id) (λ _. task)

unfoldable pub commit_event : Context → String → Option String → TaskState → Task → TaskState × Task
commit_event ctx type run_id state task =
    let done = committed ctx type run_id task in
    (advance ctx state (replace_task done state.tasks), done)

-- The tests at the head of every mutation of an existing task.
unfoldable pub open_task : TaskState → String → ℕ → Result TaskError Task
unfolding find_task assert_expected
open_task state task_id expected = do
  task ← find_task state task_id
  assert_expected task expected
  ok task

unfoldable pub open_mutable_task : TaskState → String → ℕ → Result TaskError Task
unfolding open_task ensure_mutable
open_mutable_task state task_id expected = do
  task ← open_task state task_id expected
  ensure_mutable task
  ok task
