-- ===== src/Workflow/Tests.antt =====
-- The workflow policy at concrete snapshots and requests.
use latchkit.Base.{inl, ◌≡◌, refl, inr, Bool, true, false, [], ◌∷◌, none, some, pos, arith}
use latchkit.Workflow.Prompt.{requirements, plan, implementation, verification, review}
use latchkit.Workflow.Policy.{
  WorkflowSnapshot, WorkflowOutcome, failed, blocked, policy_version, next_step,
}
use latchkit.Workflow.Routing.{
  Pattern, high_impact_words, bug_words, high_impact, refactor, investigate, RouteSelectionInput,
  selection, select_route,
}
use latchkit.Workflow.Gate.{has_effect, next_step-unapproved, next_step-repair}
use latchkit.Workflow.Progress.{passing, walk, selection-walk, select_route-investigate_blocked}
use latchkit.Workflow.Routes.{IsCoherent, select_route-IsCoherent, select_route-high_impact}

abbrev fresh : WorkflowSnapshot
fresh = record {
  phase = plan;
  cancelled = false;
  approval_valid = false;
  repair_attempts = pos 0;
  policy_version = policy_version;
  capability_ready = true;
  context = "{}";
  allowed_phases = none;
  requires_approval = none;
}

next_step-unapproved_example : has_effect (next_step fresh passing) ≡ false
next_step-unapproved_example = next_step-unapproved fresh passing refl refl (λ e. cc)

abbrev checking : WorkflowSnapshot
checking = record fresh { phase = verification; approval_valid = true; repair_attempts = pos 2 }

abbrev failing : WorkflowOutcome
failing = record { status = failed; summary = "2 checks failed" }

checking_repairs : (next_step checking failing).repair ≡ true
unfolding next_step
checking_repairs = refl

next_step-repair_example : failing.status ≡ failed
next_step-repair_example = (next_step-repair checking failing checking_repairs).0

abbrev refactor_route : WorkflowSnapshot
refactor_route = record fresh {
  phase = plan;
  approval_valid = true;
  allowed_phases = some (plan ∷ implementation ∷ verification ∷ review ∷ []);
  requires_approval = some true;
}

selection-walk_example : walk 4 refactor_route ≡ (implementation ∷ verification ∷ review ∷ [], true)
unfolding selection
selection-walk_example =
    selection-walk refactor false true [] [] refactor_route plan
      (implementation ∷ verification ∷ review ∷ []) (inr refl) refl refl refl (ground arith)

abbrev only : Pattern → Pattern → Bool
only high_impact_words high_impact_words = true
only bug_words bug_words = true
only _ _ = false

abbrev request : RouteSelectionInput
request = record {
  request = "investigate the build";
  criteria = [];
  changed_paths = none;
  requested_route = some investigate;
  mandatory_review = false;
  mandatory_plan = true;
}

abbrev misrouted : WorkflowSnapshot
misrouted = record fresh { approval_valid = true; allowed_phases = some (plan ∷ requirements ∷ []) }

select_route-investigate_blocked_example : (next_step misrouted passing).kind ≡ blocked
unfolding select_route selection
select_route-investigate_blocked_example =
    select_route-investigate_blocked (λ p t. only bug_words p) request misrouted refl refl refl refl
      refl (ground arith)

select_route-IsCoherent_example :
    IsCoherent true false (select_route (λ p t. only bug_words p) request)
select_route-IsCoherent_example = select_route-IsCoherent (λ p t. only bug_words p) request

select_route-high_impact_example :
    (select_route (λ p t. only high_impact_words p) request).id ≡ high_impact
select_route-high_impact_example =
    (select_route-high_impact (λ p t. only high_impact_words p) (λ all_lines line m h. h) request
      request.request (inl refl) refl).0
