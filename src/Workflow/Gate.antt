-- ===== src/Workflow/Gate.antt =====
-- The guards of `next_step`: what may not run without approval, readiness or repair budget.
use latchkit.Base.{ℕ, ◌<◌, ◌≡◌, Bool, true, false, some, pos, arith, ◌⊎◌}
use latchkit.Workflow.Prompt.{WorkflowPhase, requirements, plan, verification, review}
use latchkit.Workflow.Policy.{
  WorkflowSnapshot, WorkflowOutcome, WorkflowAction, failed, ActionKind, invoke, verify,
  independent_review, complete, needs_approval, allowed, next_phase, next_step,
}

-- An action with an effect on the project or on the task: everything but waiting, stopping and the
-- two phases that prepare the approval.
abbrev pub is_effect : ActionKind → WorkflowPhase → Bool
is_effect verify p = true
is_effect independent_review p = true
is_effect complete p = true
is_effect invoke requirements = false
is_effect invoke plan = false
is_effect invoke _ = true
is_effect _ p = false

abbrev pub has_effect : WorkflowAction → Bool
has_effect a = is_effect a.kind a.phase

-- While an approval is needed and missing, no action has an effect, whatever the outcome; at
-- `requirements` this supposes that the next allowed phase is `plan`.
pub next_step-unapproved :
    (s : WorkflowSnapshot) (o : WorkflowOutcome)
    → needs_approval s ≡ true
    → s.approval_valid ≡ false
    → (s.phase ≡ requirements → next_phase (allowed s) requirements ≡ some plan)
    → has_effect (next_step s o) ≡ false
unfolding next_step
next_step-unapproved s o n a h = ground (arith)

-- An action has the repair flag only when verification or review has failed, fewer than three
-- repairs were made, and the workflow is not cancelled, has its provider, and has its approval if
-- it needs one.
pub next_step-repair :
    (s : WorkflowSnapshot) (o : WorkflowOutcome)
    → (next_step s o).repair ≡ true
    → (o.status ≡ failed)
      × ((s.phase ≡ verification) ⊎ (s.phase ≡ review))
      × ((n : ℕ) × (s.repair_attempts ≡ pos n) × (n < 3))
      × (s.cancelled ≡ false)
      × (s.capability_ready ≡ true)
      × ((needs_approval s ≡ false) ⊎ (s.approval_valid ≡ true))
unfolding next_step
next_step-repair s o h = ground (arith)
