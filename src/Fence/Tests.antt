-- ===== src/Fence/Tests.antt =====
-- Fences of one task that two paths want.
use latchkit.Base.{
  ◌≡◌, ◌≢◌, ◌==◌, eq_iff, arith, refl, String, true, false, List, [], ◌∷◌, ok, err, distinct, ◌⊎◌,
  inl,
}
use latchkit.Fence.Operations.{
  FenceContext, FenceInput, ExecutionFence, direct, workflow, busy, workflow_active, fence_conflict,
  new_fence, claim_execution_fence, release_execution_fence, assert_no_active_workflow, FenceCall,
  claim, release, clear, fences_after_all, fenced_tasks, valid_fence, is_fence_id, read_state,
}
use latchkit.Fence.Exclusion.{
  claim_execution_fence-excludes, claim_execution_fence-release, fences_after_all-distinct,
}

abbrev task_1 : String
task_1 = "task_00000000-0000-4000-8000-000000000001"

abbrev owner_1 : String
owner_1 = "owner_00000000-0000-4000-8000-000000000001"

abbrev owner_2 : String
owner_2 = "owner_00000000-0000-4000-8000-000000000002"

abbrev action_1 : String
action_1 = "action_00000000-0000-4000-8000-000000000001"

abbrev action_2 : String
action_2 = "action_00000000-0000-4000-8000-000000000002"

abbrev ctx : FenceContext
ctx = record { pid = 42; hostname = "build"; at = 7 }

abbrev first : FenceInput
first = record { task_id = task_1; owner_id = owner_1; action_id = action_1; kind = workflow }

abbrev second : FenceInput
second = record { task_id = task_1; owner_id = owner_2; action_id = action_2; kind = direct }

abbrev fence : ExecutionFence
fence = new_fence ctx first

claims : claim_execution_fence ctx [] first [] ≡ ok (fence ∷ [], fence)
unfolding claim_execution_fence assert_no_active_workflow read_state
claims = refl

other_owner : owner_2 ≢ owner_1
other_owner e =
    let same : (owner_2 == owner_1) ≡ true = (eq_iff owner_2 owner_1).1 e in
    let other : (owner_2 == owner_1) ≡ false = refl in ground (arith, same, other)

readable : valid_fence fence ≡ true
unfolding valid_fence is_fence_id
readable = refl

claim_execution_fence-excludes_example :
    ((claim_execution_fence ctx [] second (fence ∷ []) ≡ err (busy fence))
      ⊎ (claim_execution_fence ctx [] second (fence ∷ []) ≡ err workflow_active))
    × (release_execution_fence task_1 owner_2 action_2 (fence ∷ []) ≡ err (fence_conflict fence))
claim_execution_fence-excludes_example =
    claim_execution_fence-excludes ctx ctx [] [] first second [] (fence ∷ []) fence claims readable
      refl (inl other_owner)

claim_execution_fence-release_example :
    release_execution_fence task_1 owner_1 action_1 (fence ∷ []) ≡ ok []
claim_execution_fence-release_example =
    claim_execution_fence-release ctx [] first [] (fence ∷ []) fence refl claims readable

abbrev calls : List FenceCall
calls =
    claim ctx [] first
    ∷ claim ctx [] second
    ∷ release task_1 owner_2 action_2
    ∷ clear task_1 action_1
    ∷ []

fences_after_all-distinct_example : distinct (fenced_tasks (fences_after_all calls [])) ≡ true
fences_after_all-distinct_example = fences_after_all-distinct calls [] refl
