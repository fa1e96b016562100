-- ===== src/Task/Commit.antt =====
-- Committing a changed task keeps the store valid, and only that task changes.
use latchkit.Base.{
  ◌+◌, ◌≡◌, refl, String, Bool, true, List, [], ◌∷◌, Option, some, find, all, arith, eq_iff,
}
use latchkit.Task.Model.{Task, TaskState}
use latchkit.Task.Store.{Context, has_id, replace_task, commit_event, committed}
use latchkit.Task.Relations.{is_consistent, task_ids, total_revision, relations_valid}

pub all-find :
    (p q : Task → Bool) (tasks : List Task) (task : Task)
    → all p tasks ≡ true
    → find q tasks ≡ some task
    → p task ≡ true
all-find p q [] task a f = cc
all-find p q (x ∷ tasks) task a f = ground (arith, all-find p q tasks task)

all-replace :
    (p : Task → Bool) (task : Task) (tasks : List Task)
    → p task ≡ true
    → all p tasks ≡ true
    → all p (replace_task task tasks) ≡ true
all-replace p task [] h a = refl
all-replace p task (x ∷ tasks) h a = ground (arith, all-replace p task tasks)

task_ids-replace_task :
    (task : Task) (tasks : List Task) → task_ids (replace_task task tasks) ≡ task_ids tasks
task_ids-replace_task task [] = refl
task_ids-replace_task task (x ∷ tasks) =
    ground (arith, eq_iff x.id task.id, task_ids-replace_task task tasks)

total_revision-replace_task :
    (task old : Task) (tasks : List Task)
    → find (has_id task.id) tasks ≡ some old
    → total_revision (replace_task task tasks) + old.revision ≡ total_revision tasks + task.revision
total_revision-replace_task task old [] f = cc
total_revision-replace_task task old (x ∷ tasks) f =
    ground (arith, total_revision-replace_task task old tasks)

-- The new store is valid when the committed task is, and it replaces a task of the same id and
-- revision.
pub commit_event-valid :
    (ctx : Context) (type : String) (run_id : Option String) (state : TaskState) (task old : Task)
    → find (has_id task.id) state.tasks ≡ some old
    → old.revision ≡ task.revision
    → is_consistent (committed ctx type run_id task) ≡ true
    → relations_valid state ≡ true
    → relations_valid (commit_event ctx type run_id state task).0 ≡ true
unfolding relations_valid commit_event
commit_event-valid ctx type run_id state task old f r c v =
    let done = committed ctx type run_id task in
    rw (task_ids-replace_task done state.tasks) (
      ground (
        arith,
        all-replace is_consistent done state.tasks c,
        total_revision-replace_task done old state.tasks f,
      ))

pub find-replace_task :
    (task old : Task) (tasks : List Task)
    → find (has_id task.id) tasks ≡ some old
    → find (has_id task.id) (replace_task task tasks) ≡ some task
find-replace_task task old [] f = cc
find-replace_task task old (x ∷ tasks) f =
    ground (arith, eq_iff task.id task.id, find-replace_task task old tasks)
