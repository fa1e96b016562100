-- ===== src/Workflow/Policy.antt =====
-- workflows/policy.ts: `next_step`, the deterministic policy that names the next action.
use latchkit.Base.{
  String, Bool, true, false, not, ◌&&◌, ◌||◌, List, [], ◌∷◌, Option, none, some, ◌==◌,
  if◌then◌else◌, ℤ, is_negative, below, above,
}
use latchkit.Workflow.Prompt.{
  WorkflowPhase, requirements, plan, implementation, verification, review, handoff, phase_prompt,
}

pub data OutcomeStatus : Type 0 where
  no_outcome passed failed needs_input error : OutcomeStatus

pub data ActionKind : Type 0 where
  invoke verify independent_review await_input await_approval blocked complete cancelled :
      ActionKind

pub record WorkflowSnapshot : Type 0 where
  pub phase : WorkflowPhase
  pub cancelled : Bool
  pub approval_valid : Bool
  pub repair_attempts : ℤ
  pub policy_version : String
  pub capability_ready : Bool
  pub context : String
  pub allowed_phases : Option (List WorkflowPhase)
  pub requires_approval : Option Bool

pub record WorkflowOutcome : Type 0 where
  pub status : OutcomeStatus
  pub summary : String

pub record WorkflowAction : Type 0 where
  pub kind : ActionKind
  pub phase : WorkflowPhase
  pub prompt : String
  pub reason : String
  pub repair : Bool

abbrev pub policy_version : String
policy_version = "latchkit-workflow-v1"

abbrev pub is_invoke : ActionKind → Bool
is_invoke invoke = true
is_invoke _ = false

-- Only an invocation carries a prompt.
abbrev pub make_action : ActionKind → WorkflowPhase → String → String → Bool → WorkflowAction
make_action kind phase reason context repair = record {
  kind = kind;
  phase = phase;
  reason = reason;
  prompt = if is_invoke kind then phase_prompt phase context else "";
  repair = repair;
}

-- `action` with its default options.
abbrev pub action : ActionKind → WorkflowPhase → String → String → WorkflowAction
action kind phase reason context = make_action kind phase reason context false

abbrev pub same_phase : WorkflowPhase → WorkflowPhase → Bool
same_phase requirements requirements = true
same_phase plan plan = true
same_phase implementation implementation = true
same_phase verification verification = true
same_phase review review = true
same_phase handoff handoff = true
same_phase _ _ = false

abbrev pub is_none : OutcomeStatus → Bool
is_none no_outcome = true
is_none _ = false

abbrev is_error : OutcomeStatus → Bool
is_error error = true
is_error _ = false

abbrev is_needs_input : OutcomeStatus → Bool
is_needs_input needs_input = true
is_needs_input _ = false

abbrev pub all_phases : List WorkflowPhase
all_phases = requirements ∷ plan ∷ implementation ∷ verification ∷ review ∷ handoff ∷ []

abbrev pub allowed : WorkflowSnapshot → List WorkflowPhase
allowed s = elim s.allowed_phases [ none ↦ all_phases | some ps ↦ ps ]

abbrev pub needs_approval : WorkflowSnapshot → Bool
needs_approval s = elim s.requires_approval [ none ↦ true | some b ↦ b ]

abbrev first_phase : List WorkflowPhase → Option WorkflowPhase
first_phase [] = none
first_phase (p ∷ ps) = some p

-- `allowed[allowed.indexOf(phase) + 1]`, undefined where the phase is not there or is the last.
unfoldable pub next_phase : List WorkflowPhase → WorkflowPhase → Option WorkflowPhase
next_phase [] phase = none
next_phase (p ∷ ps) phase = if same_phase p phase then first_phase ps else next_phase ps phase

-- A phase that is about to run.
unfoldable pub pending_action : WorkflowSnapshot → WorkflowPhase → WorkflowAction
pending_action s verification = action verify verification "Run approved acceptance checks." ""
pending_action s review = action independent_review review "Run an independent review." ""
pending_action s phase = action invoke phase "Run the pending phase." s.context

-- A phase whose outcome is a failure: the two checking phases ask for a repair, up to three times.
unfoldable pub failure_action : WorkflowSnapshot → WorkflowPhase → WorkflowOutcome → WorkflowAction
failure_action s verification outcome =
    if below s.repair_attempts 3
    then make_action invoke implementation "Repair the observed failures." s.context true
    else action blocked verification "Three repair attempts were exhausted." ""
failure_action s review outcome =
    if below s.repair_attempts 3
    then make_action invoke implementation "Repair the observed failures." s.context true
    else action blocked review "Three repair attempts were exhausted." ""
failure_action s phase outcome = action blocked phase outcome.summary ""

-- The switch over the phase that follows a passed one.
unfoldable pub following_action : WorkflowSnapshot → Option WorkflowPhase → WorkflowAction
following_action s none =
    action complete handoff "Request completion using recorded host evidence." ""
following_action s (some plan) = action invoke plan "Prepare a reviewable plan." s.context
following_action s (some implementation) =
    action invoke implementation "Implement the selected route." s.context
following_action s (some verification) =
    action verify verification "Verify implementation independently." ""
following_action s (some review) =
    action independent_review review "Inspect the verified changes independently." ""
following_action s (some handoff) = action invoke handoff "Prepare the delivery handoff." s.context
following_action s (some requirements) =
    action blocked s.phase "The selected route has an invalid transition." ""

-- The part of `next_step` behind its guards.
unfoldable pub outcome_action : WorkflowSnapshot → OutcomeStatus → WorkflowOutcome → WorkflowAction
unfolding pending_action failure_action following_action next_phase
outcome_action s no_outcome outcome = pending_action s s.phase
outcome_action s failed outcome = failure_action s s.phase outcome
outcome_action s _ outcome = following_action s (next_phase (allowed s) s.phase)

unfoldable pub next_step : WorkflowSnapshot → WorkflowOutcome → WorkflowAction
unfolding outcome_action
next_step s outcome =
    if s.cancelled
    then action cancelled s.phase "Workflow was cancelled." ""
    else if not (s.policy_version == policy_version)
    then action blocked s.phase
        "The recorded workflow policy is unavailable; an explicit migration is required." ""
    else if not s.capability_ready
    then action blocked s.phase "A required provider capability is unavailable." ""
    else if is_negative s.repair_attempts || above s.repair_attempts 3
    then action blocked s.phase "Invalid persisted repair budget." ""
    else if is_error outcome.status
    then action blocked s.phase outcome.summary ""
    else if is_needs_input outcome.status
    then action await_input s.phase outcome.summary ""
    else if needs_approval s
        && (not s.approval_valid
            && (not (same_phase s.phase requirements)
                && not (same_phase s.phase plan && is_none outcome.status)))
    then action await_approval plan "The current requirements, plan and checks require approval." ""
    else outcome_action s outcome.status outcome
