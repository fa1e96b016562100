-- ===== src/Workflow/Routing.antt =====
-- workflows/routing.ts: which phases a request is routed through. The engine that runs the
-- regular expressions is a parameter: `matches p t` says whether the expression `p` finds a match
-- in the text `t`.
use latchkit.Base.{
  String, Bool, true, false, not, ◌&&◌, ◌||◌, List, [], ◌∷◌, ◌++◌, Option, none, some, all, any,
  if◌then◌else◌, is_empty, join,
}
use latchkit.Workflow.Prompt.{
  WorkflowPhase, requirements, plan, implementation, verification, review,
}
use latchkit.Workflow.Policy.{same_phase}

pub data RouteId : Type 0 where
  answer_only documentation visual_local bug_fix feature refactor maintenance high_impact
        investigate :
      RouteId

pub record RouteSelection : Type 0 where
  pub id : RouteId
  pub policy_version : String
  pub phases : List WorkflowPhase
  pub requires_approval : Bool
  pub requires_independent_review : Bool
  pub reasons : List String
  pub unknowns : List String

pub record RouteSelectionInput : Type 0 where
  pub request : String
  pub criteria : List String
  pub changed_paths : Option (List String)
  pub requested_route : Option RouteId
  pub mandatory_review : Bool
  pub mandatory_plan : Bool

-- The regular expressions of the file, by name; the last four stand inside `selectRoute`.
pub data Pattern : Type 0 where
  high_impact_words answer_only_words documentation_words visual_words bug_words refactor_words
        maintenance_words editing_words document_path visual_path feature_words :
      Pattern

abbrev pub routing_policy_version : String
routing_policy_version = "latchkit-routing-v1"

abbrev pub has_phase : List WorkflowPhase → WorkflowPhase → Bool
has_phase ps p = any (λ q. same_phase q p) ps

-- The table `base` of `selection`.
unfoldable pub base_phases : RouteId → List WorkflowPhase
base_phases answer_only = []
base_phases documentation = implementation ∷ verification ∷ []
base_phases visual_local = implementation ∷ verification ∷ []
base_phases bug_fix = implementation ∷ verification ∷ []
base_phases feature = requirements ∷ plan ∷ implementation ∷ verification ∷ []
base_phases refactor = plan ∷ implementation ∷ verification ∷ []
base_phases maintenance = plan ∷ implementation ∷ verification ∷ []
base_phases high_impact = requirements ∷ plan ∷ implementation ∷ verification ∷ review ∷ []
base_phases investigate = requirements ∷ []

unfoldable pub base_requires_approval : RouteId → Bool
base_requires_approval feature = true
base_requires_approval refactor = true
base_requires_approval maintenance = true
base_requires_approval high_impact = true
base_requires_approval _ = false

unfoldable pub base_requires_review : RouteId → Bool
base_requires_review high_impact = true
base_requires_review _ = false

unfoldable pub add_plan : Bool → List WorkflowPhase → List WorkflowPhase
add_plan mandatory ps = if mandatory && not (has_phase ps plan) then plan ∷ ps else ps

unfoldable pub add_review : Bool → List WorkflowPhase → List WorkflowPhase
add_review mandatory ps = if mandatory && not (has_phase ps review) then ps ++ review ∷ [] else ps

unfoldable pub selection : RouteId → List String → List String → Bool → Bool → RouteSelection
unfolding base_phases base_requires_approval base_requires_review add_plan add_review
selection id reasons unknowns mandatory_plan mandatory_review = record {
  id = id;
  policy_version = routing_policy_version;
  phases = add_review mandatory_review (add_plan mandatory_plan (base_phases id));
  requires_approval = base_requires_approval id || mandatory_plan;
  requires_independent_review = base_requires_review id || mandatory_review;
  reasons = reasons;
  unknowns = unknowns;
}

module _ (matches : Pattern → String → Bool) where
  abbrev pub routing_context : RouteSelectionInput → String
  routing_context input =
      join "\n"
        (input.request ∷ (input.criteria ++ elim input.changed_paths [ none ↦ [] | some ps ↦ ps ]))

  -- The tests on the words of the request, once its changed paths are known.
  select_by_words : String → List String → RouteSelection
  select_by_words context paths =
      if matches documentation_words context && all (matches document_path) paths
      then selection documentation
          ("The request and affected files are non-executable documentation." ∷ []) [] false false
      else if matches visual_words context
          && (not (is_empty paths) && all (matches visual_path) paths)
      then selection visual_local ("The request is a locally-scoped visual change." ∷ []) [] false
          false
      else if matches bug_words context
      then selection bug_fix ("The request identifies a reproducible defect." ∷ []) [] false false
      else if matches maintenance_words context
      then selection maintenance
          ("The request affects dependency, build, runtime configuration, or release behavior."
            ∷ [])
          [] false false
      else if matches refactor_words context
      then selection refactor
          ("The request claims behavior preservation and needs invariant checks." ∷ []) [] false
          false
      else if matches feature_words context
      then selection feature ("The request changes behavior." ∷ []) [] false false
      else selection investigate
          ("The impact cannot be determined from the available bounded signals." ∷ [])
          ("Capture affected behavior and source scope before implementation." ∷ []) false false

  select_by_context : RouteSelectionInput → String → RouteSelection
  unfolding select_by_words
  select_by_context input context =
      if matches answer_only_words context && not (matches editing_words context)
      then selection answer_only
          ("The request is read-only and does not authorize implementation." ∷ []) [] false false
      else elim input.changed_paths [
        | none ↦
            selection investigate ("Changed-source scope is unavailable." ∷ [])
              ("Inspect bounded source context before selecting an implementation route." ∷ [])
              false false
        | some paths ↦ select_by_words context paths
      ]

  -- The guards in front: the risk overlay, the route that the user asked for, the project rules.
  unfoldable pub select_route : RouteSelectionInput → RouteSelection
  unfolding select_by_context
  select_route input =
      if matches high_impact_words (routing_context input)
      then selection high_impact ("A high-impact domain signal requires the safety overlay." ∷ [])
          [] input.mandatory_plan input.mandatory_review
      else elim input.requested_route [
        | some forced ↦
            selection forced ("The user selected an explicit supported route." ∷ []) []
              input.mandatory_plan input.mandatory_review
        | none ↦
            if input.mandatory_plan || input.mandatory_review
            then selection feature ("An applicable project rule requires a stricter workflow." ∷ [])
                [] input.mandatory_plan input.mandatory_review
            else select_by_context input (routing_context input)
      ]
