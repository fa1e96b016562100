-- ===== src/Workflow/Routes.antt =====
-- What `selectRoute` promises whatever the words of the request are.
use latchkit.Base.{
  ◌≡◌, refl, String, Bool, true, false, not, ◌||◌, List, arith, ◌⊎◌, inl, inr, [], ◌∷◌, ◌++◌, none,
  some, join,
}
use mathlib.Core.List.{Memᴰ}
use latchkit.Workflow.Prompt.{plan, review}
use latchkit.Workflow.Routing.{
  RouteId, answer_only, high_impact, RouteSelection, RouteSelectionInput, Pattern,
  high_impact_words, selection, select_route, routing_context, has_phase,
}

-- A rule that is set has its effect.
abbrev is_met : Bool → Bool → Bool
is_met rule effect = not rule || effect

-- The flags of a selection agree with its phases, and it has the phases that the rules demand.
pub record IsCoherent (plan_rule review_rule : Bool) (r : RouteSelection) : Type 0 where
  pub approval_for_plan : r.requires_approval ≡ has_phase r.phases plan
  pub review_for_review : r.requires_independent_review ≡ has_phase r.phases review
  pub planned : is_met plan_rule (has_phase r.phases plan) ≡ true
  pub reviewed : is_met review_rule (has_phase r.phases review) ≡ true

-- The same with the rules as implications, which `grind` reads.
record IsSound (plan_rule review_rule : Bool) (r : RouteSelection) : Type 0 where
  approval_for_plan : r.requires_approval ≡ has_phase r.phases plan
  review_for_review : r.requires_independent_review ≡ has_phase r.phases review
  planned : plan_rule ≡ true → has_phase r.phases plan ≡ true
  reviewed : review_rule ≡ true → has_phase r.phases review ≡ true

selection-IsSound :
    (id : RouteId) (mp mr : Bool) (reasons unknowns : List String)
    → IsSound mp mr (selection id reasons unknowns mp mr)
unfolding selection
selection-IsSound answer_only true true r u = ground arith
selection-IsSound _ _ _ r u = ground arith

selection-no_rule :
    (id : RouteId) (reasons unknowns : List String) (mp mr : Bool)
    → (mp || mr) ≡ false
    → IsSound mp mr (selection id reasons unknowns false false)
selection-no_rule id reasons unknowns mp mr h =
    ground (arith, selection-IsSound id false false reasons unknowns)

is_met-holds : (rule effect : Bool) → (rule ≡ true → effect ≡ true) → is_met rule effect ≡ true
is_met-holds true effect h = h refl
is_met-holds false effect h = refl

module _ (matches : Pattern → String → Bool) where
  select_route-IsSound :
      (input : RouteSelectionInput)
      → IsSound input.mandatory_plan input.mandatory_review (select_route matches input)
  unfolding select_route
  select_route-IsSound input = grind (arith, selection-IsSound, selection-no_rule)

  -- A route asks for approval exactly when it plans and for an independent review exactly when it
  -- reviews, and it plans and reviews where the project's rules demand it.
  pub select_route-IsCoherent :
      (input : RouteSelectionInput)
      → IsCoherent input.mandatory_plan input.mandatory_review (select_route matches input)
  select_route-IsCoherent input =
      let sound = select_route-IsSound input in
      record {
        approval_for_plan = sound.approval_for_plan;
        review_for_review = sound.review_for_review;
        planned = is_met-holds input.mandatory_plan _ sound.planned;
        reviewed = is_met-holds input.mandatory_review _ sound.reviewed;
      }

  -- A text that the router reads: the request, a criterion, or a changed path.
  abbrev pub IsPart : RouteSelectionInput → String → Type 0
  IsPart input part =
      (part ≡ input.request)
      ⊎ (Memᴰ part input.criteria
          ⊎ ((paths : List String) × (input.changed_paths ≡ some paths) × Memᴰ part paths))

  Memᴰ_left : {x : String} {xs : List String} (ys : List String) → Memᴰ x xs → Memᴰ x (xs ++ ys)
  Memᴰ_left ys (Memᴰ.head e) = Memᴰ.head e
  Memᴰ_left ys (Memᴰ.tail m) = Memᴰ.tail (Memᴰ_left ys m)

  Memᴰ_right : {x : String} (xs : List String) {ys : List String} → Memᴰ x ys → Memᴰ x (xs ++ ys)
  Memᴰ_right [] m = m
  Memᴰ_right (y ∷ xs) m = Memᴰ.tail (Memᴰ_right xs m)

  abbrev parts : RouteSelectionInput → List String
  parts input =
      input.request ∷ (input.criteria ++ elim input.changed_paths [ none ↦ [] | some ps ↦ ps ])

  IsPart-Memᴰ :
      (input : RouteSelectionInput) (part : String) → IsPart input part → Memᴰ part (parts input)
  IsPart-Memᴰ input part (inl e) = Memᴰ.head e
  IsPart-Memᴰ input part (inr (inl m)) = Memᴰ.tail (Memᴰ_left _ m)
  IsPart-Memᴰ input part (inr (inr (paths, e, m))) = Memᴰ.tail (Memᴰ_right input.criteria (rw e m))

  -- A high-impact signal in the request, in one of its criteria or in one of its changed paths leads to
  -- the high-impact route, its approval and its review, whatever route the user asks for, when the
  -- search for the signal finds what is in a line also in a text with that line.
  pub select_route-high_impact :
      (lines : (all_lines : List String) (line : String)
        → Memᴰ line all_lines
        → matches high_impact_words line ≡ true
        → matches high_impact_words (join "\n" all_lines) ≡ true)
      (input : RouteSelectionInput) (part : String)
      → IsPart input part
      → matches high_impact_words part ≡ true
      → ((select_route matches input).id ≡ high_impact)
        × ((select_route matches input).requires_approval ≡ true)
        × (has_phase (select_route matches input).phases review ≡ true)
  unfolding select_route selection
  select_route-high_impact lines input part m h =
      let found : matches high_impact_words (routing_context matches input) ≡ true =
        lines (parts input) part (IsPart-Memᴰ input part m) h in
      ground (arith, found)
