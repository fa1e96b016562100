-- ===== src/Fence/Exclusion.antt =====
-- A claimed fence keeps every other path out until its owner releases it.
use latchkit.Base.{
  ◌≡◌, ◌≢◌, refl, sym, subst, String, true, false, List, [], ◌∷◌, ◌++◌, none, some, find, eq_iff,
  eq_self, ok, err, arith, ◌⊎◌, inl, inr, Option-cases, contains, distinct, distinct-append_fresh,
  all-append,
}
use mathlib.Core.List.{map-append}
use latchkit.Fence.Operations.{
  ExecutionFence, FenceInput, FenceContext, WorkflowEntry, busy, workflow_active, fence_conflict,
  fenced_task, splice_task, new_fence, owned_by, claim_execution_fence, release_execution_fence,
  clear_execution_fence, FenceCall, claim, release, clear, fences_after, fences_after_all,
  assert_no_active_workflow, fenced_tasks, valid_fence, read_state,
}

find-append_new :
    (id : String) (fences : List ExecutionFence) (fence : ExecutionFence)
    → find (fenced_task id) fences ≡ none
    → fence.task_id ≡ id
    → find (fenced_task id) (fences ++ fence ∷ []) ≡ some fence
find-append_new id [] fence h same = ground (arith, eq_iff fence.task_id id)
find-append_new id (x ∷ fences) fence h same = ground (arith, find-append_new id fences fence)

splice_task-append :
    (id : String) (fences : List ExecutionFence) (fence : ExecutionFence)
    → find (fenced_task id) fences ≡ none
    → fence.task_id ≡ id
    → splice_task id (fences ++ fence ∷ []) ≡ fences
unfolding splice_task
splice_task-append id [] fence h same = ground (arith, eq_iff fence.task_id id)
splice_task-append id (x ∷ fences) fence h same = ground (arith, splice_task-append id fences fence)

find-lacks :
    (id : String) (fences : List ExecutionFence)
    → find (fenced_task id) fences ≡ none
    → contains (fenced_tasks fences) id ≡ false
find-lacks id [] h = refl
find-lacks id (x ∷ fences) h = ground (arith, find-lacks id fences)

splice_task-contains :
    (id other : String) (fences : List ExecutionFence)
    → contains (fenced_tasks fences) other ≡ false
    → contains (fenced_tasks (splice_task id fences)) other ≡ false
unfolding splice_task
splice_task-contains id other [] h = refl
splice_task-contains id other (x ∷ fences) h = ground (arith, splice_task-contains id other fences)

splice_task-distinct :
    (id : String) (fences : List ExecutionFence)
    → distinct (fenced_tasks fences) ≡ true
    → distinct (fenced_tasks (splice_task id fences)) ≡ true
unfolding splice_task
splice_task-distinct id [] h = refl
splice_task-distinct id (x ∷ fences) h =
    ground (arith, splice_task-distinct id fences, splice_task-contains id x.task_id fences)

fenced_tasks-append :
    (fences : List ExecutionFence) (fence : ExecutionFence)
    → find (fenced_task fence.task_id) fences ≡ none
    → distinct (fenced_tasks fences) ≡ true
    → distinct (fenced_tasks (fences ++ fence ∷ [])) ≡ true
fenced_tasks-append fences fence free d = rw map-append (
    distinct-append_fresh (fenced_tasks fences) fence.task_id (find-lacks fence.task_id fences free)
      d)

-- What a claim leaves can be read when the fence that it gives can be.
claimed-read_state :
    (ctx : FenceContext) (workflows : List WorkflowEntry) (input : FenceInput)
    (fences after : List ExecutionFence) (fence : ExecutionFence)
    → claim_execution_fence ctx workflows input fences ≡ ok (after, fence)
    → valid_fence fence ≡ true
    → read_state after ≡ ok after
unfolding claim_execution_fence assert_no_active_workflow read_state
claimed-read_state ctx workflows input fences after fence h v =
    elim (Option-cases (find (fenced_task input.task_id) fences)) [
      | inl e ↦ ground (
        arith,
        all-append valid_fence fences (fence ∷ []),
        fenced_tasks-append fences (new_fence ctx input) e,
      )
      | inr (existing, e) ↦ ground arith
    ]

-- The fence that a claim gives is the task's, in the claimant's name.
claimed :
    (ctx : FenceContext) (workflows : List WorkflowEntry) (input : FenceInput)
    (fences after : List ExecutionFence) (fence : ExecutionFence)
    → claim_execution_fence ctx workflows input fences ≡ ok (after, fence)
    → (find (fenced_task input.task_id) after ≡ some fence)
      × (fence.owner_id ≡ input.owner_id)
      × (fence.action_id ≡ input.action_id)
unfolding claim_execution_fence assert_no_active_workflow read_state
claimed ctx workflows input fences after fence h =
    elim (Option-cases (find (fenced_task input.task_id) fences)) [
      | inl e ↦ ground (arith, find-append_new input.task_id fences (new_fence ctx input) e refl)
      | inr (existing, e) ↦ ground (
        arith,
        eq_iff existing.owner_id input.owner_id,
        eq_iff existing.action_id input.action_id,
      )
    ]

refused :
    (later : FenceContext) (others : List WorkflowEntry) (next : FenceInput)
    (after : List ExecutionFence) (fence : ExecutionFence)
    → read_state after ≡ ok after
    → find (fenced_task next.task_id) after ≡ some fence
    → owned_by fence next.owner_id next.action_id ≡ false
    → ((claim_execution_fence later others next after ≡ err (busy fence))
        ⊎ (claim_execution_fence later others next after ≡ err workflow_active))
      × (release_execution_fence next.task_id next.owner_id next.action_id after
          ≡ err (fence_conflict fence))
unfolding claim_execution_fence assert_no_active_workflow release_execution_fence
refused later others next after fence read found foreign = ground arith

foreign_claim :
    (fence : ExecutionFence) (input next : FenceInput)
    → fence.owner_id ≡ input.owner_id
    → fence.action_id ≡ input.action_id
    → (next.owner_id ≢ input.owner_id) ⊎ (next.action_id ≢ input.action_id)
    → owned_by fence next.owner_id next.action_id ≡ false
foreign_claim fence input next o a other =
    ground (arith, eq_iff fence.owner_id next.owner_id, eq_iff fence.action_id next.action_id)

-- Once a claim has succeeded with a fence that can be read back, a claim of the same task for another owner or action is refused, and so
-- is its release by another owner or action.
pub claim_execution_fence-excludes :
    (ctx later : FenceContext) (workflows others : List WorkflowEntry) (input next : FenceInput)
    (fences after : List ExecutionFence) (fence : ExecutionFence)
    → claim_execution_fence ctx workflows input fences ≡ ok (after, fence)
    → valid_fence fence ≡ true
    → next.task_id ≡ input.task_id
    → (next.owner_id ≢ input.owner_id) ⊎ (next.action_id ≢ input.action_id)
    → ((claim_execution_fence later others next after ≡ err (busy fence))
        ⊎ (claim_execution_fence later others next after ≡ err workflow_active))
      × (release_execution_fence next.task_id next.owner_id next.action_id after
          ≡ err (fence_conflict fence))
claim_execution_fence-excludes ctx later workflows others input next fences after fence h v same
      other =
    let (found, owner, action) = claimed ctx workflows input fences after fence h in
    refused later others next after fence
      (claimed-read_state ctx workflows input fences after fence h v)
      (subst (λ id. find (fenced_task id) after ≡ some fence) (sym same) found)
      (foreign_claim fence input next owner action other)

-- A claim of a free task whose fence can be read back, released again by its owner, leaves the fences
-- as they were.
pub claim_execution_fence-release :
    (ctx : FenceContext) (workflows : List WorkflowEntry) (input : FenceInput)
    (fences after : List ExecutionFence) (fence : ExecutionFence)
    → find (fenced_task input.task_id) fences ≡ none
    → claim_execution_fence ctx workflows input fences ≡ ok (after, fence)
    → valid_fence fence ≡ true
    → release_execution_fence input.task_id input.owner_id input.action_id after ≡ ok fences
unfolding claim_execution_fence assert_no_active_workflow release_execution_fence read_state
claim_execution_fence-release ctx workflows input fences after fence free h v = ground (
  arith,
  claimed-read_state ctx workflows input fences after fence h v,
  find-append_new input.task_id fences (new_fence ctx input) free refl,
  splice_task-append input.task_id fences (new_fence ctx input) free refl,
  eq_self input.owner_id,
  eq_self input.action_id,
)

fences_after-distinct :
    (call : FenceCall) (fences : List ExecutionFence)
    → distinct (fenced_tasks fences) ≡ true
    → distinct (fenced_tasks (fences_after call fences)) ≡ true
unfolding fences_after claim_execution_fence release_execution_fence clear_execution_fence
    read_state
fences_after-distinct (claim ctx workflows input) fences d =
    elim (Option-cases (find (fenced_task input.task_id) fences)) [
      | inl free ↦ ground (arith, fenced_tasks-append fences (new_fence ctx input) free d)
      | inr (existing, e) ↦ ground arith
    ]
fences_after-distinct (release task_id owner_id action_id) fences d =
    ground (arith, splice_task-distinct task_id fences d)
fences_after-distinct (clear task_id action_id) fences d =
    ground (arith, splice_task-distinct task_id fences d)

-- Whatever calls come, in whatever order, no task ever has two fences.
pub fences_after_all-distinct :
    (calls : List FenceCall) (fences : List ExecutionFence)
    → distinct (fenced_tasks fences) ≡ true
    → distinct (fenced_tasks (fences_after_all calls fences)) ≡ true
fences_after_all-distinct [] fences d = d
fences_after_all-distinct (call ∷ calls) fences d =
    fences_after_all-distinct calls (fences_after call fences) (fences_after-distinct call fences d)
