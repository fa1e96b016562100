-- ===== src/Fence/Operations.antt =====
-- runtime/execution-fence.ts: the fences and their operations, each under the store's lock. The file
-- holds a list of fences with fields of the right types, and every call checks it as `readState`
-- does; a workflow counts as its task, whether it has a pending
-- action, and whether it is cancelled or verified.
use latchkit.Base.{
  ℕ, String, Bool, false, not, ◌&&◌, ◌||◌, List, [], ◌∷◌, ◌++◌, Option, none, some, find, any, ◌==◌,
  if◌then◌else◌, Result, ok, err, guard, ◌>>◌, ◌>>=◌, all, distinct, map, leb, eqb, codes, lower,
  is_hex, matches_shape, replicate, strip_prefix,
}

pub data FenceKind : Type 0 where
  direct workflow : FenceKind

pub record ExecutionFence : Type 0 where
  pub task_id : String
  pub owner_id : String
  pub action_id : String
  pub kind : FenceKind
  pub pid : ℕ
  pub hostname : String
  pub acquired_at : ℕ

pub record FenceInput : Type 0 where
  pub task_id : String
  pub owner_id : String
  pub action_id : String
  pub kind : FenceKind

-- The process and the clock of one call.
pub record FenceContext : Type 0 where
  pub pid : ℕ
  pub hostname : String
  pub at : ℕ

pub record WorkflowEntry : Type 0 where
  pub task_id : String
  pub pending : Bool
  pub is_over : Bool

-- `TASK_EXECUTION_BUSY`, of a fence or of a workflow, and `TASK_EXECUTION_FENCE_CONFLICT`, of a fence
-- or of the file.
pub data FenceError : Type 0 where
  busy : ExecutionFence → FenceError
  workflow_active : FenceError
  fence_conflict : ExecutionFence → FenceError
  unsupported_state : FenceError

abbrev id_digits : Option (List ℕ) → Bool
id_digits none = false
id_digits (some rest) = matches_shape (replicate 36 is_id_character) rest
  where
    is_id_character : ℕ → Bool
    is_id_character c = is_hex c || eqb c b'-'

-- The prefix and `[0-9a-f-]{36}`, under the flag `i`.
unfoldable pub is_fence_id : String → String → Bool
is_fence_id prefix id = id_digits (strip_prefix (map lower (codes prefix)) (map lower (codes id)))

unfoldable pub valid_fence : ExecutionFence → Bool
valid_fence fence =
    is_fence_id "task_" fence.task_id
    && (is_fence_id "owner_" fence.owner_id
        && (is_fence_id "action_" fence.action_id
            && (leb 1 fence.pid && not (fence.hostname == ""))))

abbrev pub fenced_tasks : List ExecutionFence → List String
fenced_tasks = map λ f. f.task_id

unfoldable pub read_state : List ExecutionFence → Result FenceError (List ExecutionFence)
read_state fences = do
  guard (all valid_fence fences) unsupported_state
  guard (distinct (fenced_tasks fences)) unsupported_state
  ok fences

abbrev pub fenced_task : String → ExecutionFence → Bool
fenced_task id fence = fence.task_id == id

abbrev pub is_active_workflow : String → WorkflowEntry → Bool
is_active_workflow id w = w.task_id == id && (w.pending || not w.is_over)

unfoldable pub assert_no_active_workflow :
    FenceKind → List WorkflowEntry → String → Result FenceError (Unit {0})
assert_no_active_workflow direct workflows id =
    guard (not (any (is_active_workflow id) workflows)) workflow_active
assert_no_active_workflow workflow workflows id = ok tt

abbrev pub new_fence : FenceContext → FenceInput → ExecutionFence
new_fence ctx input = record {
  task_id = input.task_id;
  owner_id = input.owner_id;
  action_id = input.action_id;
  kind = input.kind;
  pid = ctx.pid;
  hostname = ctx.hostname;
  acquired_at = ctx.at;
}

-- The fences without the first one of the task.
unfoldable pub splice_task : String → List ExecutionFence → List ExecutionFence
splice_task id [] = []
splice_task id (fence ∷ fences) =
    let rest = splice_task id fences in if fence.task_id == id then fences else fence ∷ rest

abbrev pub owned_by : ExecutionFence → String → String → Bool
owned_by fence owner_id action_id = fence.owner_id == owner_id && fence.action_id == action_id

unfoldable pub claim_execution_fence :
    FenceContext
    → List WorkflowEntry
    → FenceInput
    → List ExecutionFence
    → Result FenceError (List ExecutionFence × ExecutionFence)
unfolding assert_no_active_workflow
claim_execution_fence ctx workflows input fences = do
  state ← read_state fences
  assert_no_active_workflow input.kind workflows input.task_id
  elim (find (fenced_task input.task_id) state) [
    | none ↦ ok (state ++ new_fence ctx input ∷ [], new_fence ctx input)
    | some existing ↦
        if owned_by existing input.owner_id input.action_id
        then ok (state, existing)
        else err (busy existing)
  ]

unfoldable pub release_execution_fence :
    String → String → String → List ExecutionFence → Result FenceError (List ExecutionFence)
unfolding splice_task
release_execution_fence task_id owner_id action_id fences = do
  state ← read_state fences
  elim (find (fenced_task task_id) state) [
    | none ↦ ok state
    | some existing ↦
        if owned_by existing owner_id action_id
        then ok (splice_task task_id state)
        else err (fence_conflict existing)
  ]

unfoldable pub clear_execution_fence :
    String → String → List ExecutionFence → Result FenceError (List ExecutionFence)
unfolding splice_task
clear_execution_fence task_id action_id fences = do
  state ← read_state fences
  elim (find (fenced_task task_id) state) [
    | none ↦ ok state
    | some existing ↦
        if existing.action_id == action_id
        then ok (splice_task task_id state)
        else err (fence_conflict existing)
  ]

abbrev pub inspect_execution_fence :
    String → List ExecutionFence → Result FenceError (Option ExecutionFence)
inspect_execution_fence task_id fences = do
  state ← read_state fences
  ok (find (fenced_task task_id) state)

-- A call of one of the operations that write.
pub data FenceCall : Type 0 where
  claim : FenceContext → List WorkflowEntry → FenceInput → FenceCall
  release : String → String → String → FenceCall
  clear : String → String → FenceCall

abbrev written : List ExecutionFence → Result FenceError (List ExecutionFence) → List ExecutionFence
written fences (ok after) = after
written fences (err error) = fences

abbrev claimed_fences :
    List ExecutionFence
    → Result FenceError (List ExecutionFence × ExecutionFence)
    → List ExecutionFence
claimed_fences fences (ok (after, fence)) = after
claimed_fences fences (err error) = fences

-- The fences behind a call; one that throws writes nothing.
unfoldable pub fences_after : FenceCall → List ExecutionFence → List ExecutionFence
unfolding claim_execution_fence release_execution_fence clear_execution_fence
fences_after (claim ctx workflows input) fences =
    claimed_fences fences (claim_execution_fence ctx workflows input fences)
fences_after (release task_id owner_id action_id) fences =
    written fences (release_execution_fence task_id owner_id action_id fences)
fences_after (clear task_id action_id) fences =
    written fences (clear_execution_fence task_id action_id fences)

-- Calls one after the other, as the lock orders them.
abbrev pub fences_after_all : List FenceCall → List ExecutionFence → List ExecutionFence
fences_after_all [] fences = fences
fences_after_all (call ∷ calls) fences = fences_after_all calls (fences_after call fences)
