-- ===== src/Workflow/Progress.antt =====
-- Passing every phase of a route: `next_step` walks the phases in order and then completes.
use latchkit.Base.{
  ℕ, zero, suc, ◌≡◌, refl, sym, subst, ◌∙◌, ◌≢◌, ◌⊎◌, String, Bool, true, false, ◌||◌, List, [],
  ◌∷◌, ◌++◌, Option, none, some, ◌==◌, above, is_negative, arith, length,
}
use mathlib.Core.List.{append_assoc}
use latchkit.Workflow.Prompt.{WorkflowPhase, requirements, plan}
use latchkit.Workflow.Policy.{
  WorkflowSnapshot, WorkflowOutcome, passed, invoke, verify, independent_review, complete, blocked,
  policy_version, allowed, next_phase, next_step, following_action,
}
use latchkit.Workflow.Routing.{
  RouteId, answer_only, investigate, RouteSelectionInput, Pattern, high_impact_words, selection,
  select_route, routing_context, has_phase,
}

abbrev pub passing : WorkflowOutcome
passing = record { status = passed; summary = "" }

-- Nothing stands in the way of the next phase.
pub record IsReady (s : WorkflowSnapshot) : Type 0 where
  pub running : s.cancelled ≡ false
  pub current_policy : (s.policy_version == policy_version) ≡ true
  pub capable : s.capability_ready ≡ true
  pub in_budget : (is_negative s.repair_attempts || above s.repair_attempts 3) ≡ false
  pub approved : s.approval_valid ≡ true

-- The phases that run from a snapshot on when each of them passes, and whether the workflow asks
-- for completion at the end.
pub walk : ℕ → WorkflowSnapshot → List WorkflowPhase × Bool
walk zero s = ([], false)
walk (suc n) s =
    let a = next_step s passing in
    let (later, done) = walk n (record s { phase = a.phase }) in
    elim a.kind [
      | complete ↦ ([], true)
      | invoke ↦ (a.phase ∷ later, done)
      | verify ↦ (a.phase ∷ later, done)
      | independent_review ↦ (a.phase ∷ later, done)
      | _ ↦ ([], false)
    ]

abbrev first : List WorkflowPhase → Option WorkflowPhase
first [] = none
first (p ∷ ps) = some p

next_phase-append :
    (pre : List WorkflowPhase) (p : WorkflowPhase) (ps : List WorkflowPhase)
    → has_phase pre p ≡ false
    → next_phase (pre ++ p ∷ ps) p ≡ first ps
unfolding next_phase
next_phase-append [] p [] h = ground arith
next_phase-append [] p (q ∷ ps) h = ground arith
next_phase-append (q ∷ pre) p ps h = ground (arith, next_phase-append pre p ps)

next_step-passing :
    (s : WorkflowSnapshot)
    → IsReady s
    → next_step s passing ≡ following_action s (next_phase (allowed s) s.phase)
unfolding next_step
next_step-passing s r = ground arith

-- No phase comes twice, and none but the first is `requirements`.
abbrev pub InOrder : List WorkflowPhase → WorkflowPhase → List WorkflowPhase → Type 0
InOrder pre p [] = has_phase pre p ≡ false
InOrder pre p (q ∷ ps) =
    (has_phase pre p ≡ false) × (q ≢ requirements) × InOrder (pre ++ p ∷ []) q ps

walk-one :
    (n : ℕ) (s : WorkflowSnapshot) (q : WorkflowPhase) (later : List WorkflowPhase)
    → q ≢ requirements
    → next_step s passing ≡ following_action s (some q)
    → walk n (record s { phase = q }) ≡ (later, true)
    → walk (suc n) s ≡ (q ∷ later, true)
unfolding walk following_action
walk-one n s q later h e w = ground arith

walk-end :
    (s : WorkflowSnapshot) → next_step s passing ≡ following_action s none → walk 1 s ≡ ([], true)
unfolding walk following_action
walk-end s e = ground arith

walk-suffix :
    (pre : List WorkflowPhase) (p : WorkflowPhase) (ps : List WorkflowPhase) (s : WorkflowSnapshot)
    → IsReady s
    → s.phase ≡ p
    → allowed s ≡ pre ++ p ∷ ps
    → InOrder pre p ps
    → walk (suc (length ps)) s ≡ (ps, true)
walk-suffix pre p [] s r e a o =
    walk-end s (cc (next_step-passing s r, next_phase-append pre p [] o))
walk-suffix pre p (q ∷ ps) s r e a o =
    walk-one (suc (length ps)) s q ps o.1
      (cc (next_step-passing s r, next_phase-append pre p (q ∷ ps) o.0))
      (walk-suffix (pre ++ p ∷ []) q ps (record s { phase = q }) (ground arith) refl
        (a ∙ sym (append_assoc pre (p ∷ []) (q ∷ ps))) o.2)

abbrev AllInOrder : List WorkflowPhase → Type 0
AllInOrder [] = Unit {0}
AllInOrder (p ∷ ps) = InOrder [] p ps

selection-AllInOrder :
    (id : RouteId) (mandatory_plan mandatory_review : Bool) (reasons unknowns : List String)
    → (id ≢ investigate) ⊎ (mandatory_plan ≡ false)
    → AllInOrder (selection id reasons unknowns mandatory_plan mandatory_review).phases
unfolding selection
selection-AllInOrder answer_only true true r u h = ground arith
selection-AllInOrder _ _ _ r u h = ground arith

-- On every route but `investigate` under a mandatory plan, a ready workflow that starts at the
-- route's first phase runs all later phases in the route's order, when each passes, and then asks
-- for completion.
pub selection-walk :
    (id : RouteId) (mandatory_plan mandatory_review : Bool) (reasons unknowns : List String)
    (s : WorkflowSnapshot) (p : WorkflowPhase) (ps : List WorkflowPhase)
    → (id ≢ investigate) ⊎ (mandatory_plan ≡ false)
    → (selection id reasons unknowns mandatory_plan mandatory_review).phases ≡ p ∷ ps
    → s.allowed_phases ≡ some (p ∷ ps)
    → s.phase ≡ p
    → IsReady s
    → walk (suc (length ps)) s ≡ (ps, true)
selection-walk id mp mr reasons unknowns s p ps h route same start ready =
    walk-suffix [] p ps s ready start (ground arith)
      (subst AllInOrder route (selection-AllInOrder id mp mr reasons unknowns h))

-- A ready workflow on the route that a forced `investigate` takes under a mandatory plan is blocked as
-- soon as its plan passes, unless the request has high impact.
pub select_route-investigate_blocked :
    (matches : Pattern → String → Bool) (input : RouteSelectionInput) (s : WorkflowSnapshot)
    → matches high_impact_words (routing_context matches input) ≡ false
    → input.requested_route ≡ some investigate
    → input.mandatory_plan ≡ true
    → s.allowed_phases ≡ some (select_route matches input).phases
    → s.phase ≡ plan
    → IsReady s
    → (next_step s passing).kind ≡ blocked
unfolding select_route selection next_step
select_route-investigate_blocked matches input s low forced must route start ready = ground arith
