-- ===== src/Records/Tests.antt =====
-- Two decisions, and dependencies with and without a cycle.
use latchkit.Base.{
  ℕ, zero, suc, ◌≡◌, ◌≢◌, ◌⊎◌, refl, String, false, List, [], ◌∷◌, ◌++◌, none, some, find, ok,
  arith, is_blank,
}
use latchkit.Task.Model.{Task, TaskStatus, Authorization, direct_request}
use latchkit.Task.Store.{is_stable_id}
use latchkit.Records.Model.{
  TaskRecord, TaskRecordHistoryEntry, RecordedTask, decision, accepted, transitioned, direct_user,
}
use latchkit.Records.Cycles.{
  Edges, visit, detect_record_dependency_cycle, build_record_dependency_edges, cycle, done,
}
use latchkit.Records.Links.{
  RecordContext, has_record_id, normalize_links, resolve_record_authorization,
}
use latchkit.Records.Operations.{
  RecordCreateInput, creating, perform_record, apply_record_create_op, assert_no_record_cycle,
  superseded_target, supersede, authority, new_record, superseded_by_new,
}
use latchkit.Records.Validate.{validate_task_records}
use latchkit.Records.Search.{IsCycle, is_walk}
use latchkit.Records.Fuel.{detect_record_dependency_cycle-decides}
use latchkit.Records.Changes.{IsChange}
use latchkit.Records.Lifecycle.{perform_record-IsChange}
use latchkit.Records.Limits.{perform_record-full_history}

abbrev edges : Edges
edges = ("a", "b" ∷ []) ∷ ("b", "c" ∷ "a" ∷ []) ∷ []

finds_cycle : detect_record_dependency_cycle edges ≡ cycle ("a" ∷ "b" ∷ "a" ∷ [])
unfolding detect_record_dependency_cycle visit
finds_cycle = refl

detect_record_dependency_cycle-decides_example :
    ((path : List String) × (detect_record_dependency_cycle edges ≡ cycle path)
      × IsCycle edges path)
    ⊎ ((order : List String) × (detect_record_dependency_cycle edges ≡ done order)
        × ((v : String) (middle : List String) → is_walk edges (v ∷ (middle ++ v ∷ [])) ≡ false))
detect_record_dependency_cycle-decides_example = detect_record_dependency_cycle-decides edges

abbrev old_id : String
old_id = "record_00000000-0000-4000-8000-000000000001"

abbrev grant : Authorization
grant = record {
  id = "authorization_00000000-0000-4000-8000-000000000003";
  scope = "all";
  kind = direct_request;
  reference = "issue 7";
  granted_at = 10;
}

abbrev task : Task
task = record {
  id = "task_00000000-0000-4000-8000-000000000001";
  title = "ship it";
  state = TaskStatus.running;
  revision = 2;
  created_at = 10;
  updated_at = 20;
  authorization_required = false;
  authorizations = grant ∷ [];
  owner = none;
  criteria = [];
  runs = [];
  checkpoints = [];
  evidence = [];
  events = [];
  imported = none;
  enhanced_workflow = none;
  verification_mode = none;
}

abbrev ctx : RecordContext
ctx = record {
  call = record {
    at = 1000;
    mutation_id = "mutation_3";
    hash = "create";
    fresh = λ prefix n. "record_00000000-0000-4000-8000-000000000002";
    process = record { pid = 42; hostname = "build"; platform = "linux"; runtime = "cli" };
    environment = record {
      platform = "linux";
      runtime = "cli";
      node = "v22";
      cwd = "/work";
      details = none;
    };
    source = record { revision = some "4f2a"; dirty_fingerprint = none };
    is_live = λ run. false;
  };
  file_digest = λ path. none;
}

abbrev entry : ℕ → TaskRecordHistoryEntry
entry n = record {
  revision = n;
  status = accepted;
  text = "Use one lock.";
  action = transitioned;
  reason = none;
  authorization_id = none;
  created_at = 10;
}

abbrev entries : ℕ → List TaskRecordHistoryEntry
entries zero = []
entries (suc n) = entries n ++ entry (suc n) ∷ []

abbrev old : ℕ → TaskRecord
old n = record {
  id = old_id;
  kind = decision;
  revision = n;
  status = accepted;
  text = "Use one lock.";
  provenance = record { kind = direct_user; reference = "issue 7" };
  links = [];
  supersedes = none;
  superseded_by = none;
  history = entries n;
  created_at = 10;
  updated_at = 10;
}

abbrev before : ℕ → RecordedTask
before n = record { task = task; records = old n ∷ [] }

abbrev input : RecordCreateInput
input = record {
  kind = decision;
  text = "Use two locks.";
  provenance = record { kind = direct_user; reference = "issue 8" };
  links = [];
  supersedes = some old_id;
  authorization_id = some grant.id;
  authorization = none;
}

abbrev changed : ℕ → TaskRecord
changed n = superseded_by_new ctx (some grant.id) (old n)

abbrev after : ℕ → RecordedTask
after n = record { task = task; records = changed n ∷ new_record ctx input [] (some old_id) ∷ [] }

creates : perform_record ctx (creating input) (before 2) ≡ ok (after 2)
unfolding perform_record apply_record_create_op normalize_links superseded_target supersede
    authority resolve_record_authorization assert_no_record_cycle build_record_dependency_edges
    detect_record_dependency_cycle visit is_stable_id is_blank
creates = refl

perform_record-IsChange_example :
    (find (has_record_id old_id) (after 2).records ≡ some (old 2))
    ⊎ ((new : TaskRecord) × (find (has_record_id old_id) (after 2).records ≡ some new)
        × IsChange task (old 2) new)
perform_record-IsChange_example =
    perform_record-IsChange ctx (creating input) (before 2) (after 2) old_id (old 2) refl creates
      refl

creates_last : perform_record ctx (creating input) (before 40) ≡ ok (after 40)
unfolding perform_record apply_record_create_op normalize_links superseded_target supersede
    authority resolve_record_authorization assert_no_record_cycle build_record_dependency_edges
    detect_record_dependency_cycle visit is_stable_id is_blank
creates_last = refl

perform_record-full_history_example :
    (find (has_record_id old_id) (after 40).records ≡ some (old 40))
    ⊎ (validate_task_records (after 40) ≢ ok tt)
perform_record-full_history_example =
    perform_record-full_history ctx (creating input) (before 40) (after 40) old_id (old 40) refl
      refl (omega arith) creates_last
