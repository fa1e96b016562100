-- ===== src/Reuse/Operations.antt =====
-- verification/contracts.ts: the decision to reuse evidence, and the plan of a verification. An absent list of watched paths is the empty list, which the source treats alike; the
-- reasons are data in place of texts.
use latchkit.Base.{
  ℕ, String, Bool, true, false, not, ◌&&◌, ◌||◌, List, [], ◌∷◌, ◌++◌, Option, none, some, find_last,
  any, is_empty, is_some, map, ◌==◌, eqb, codes, strip_prefix, if◌then◌else◌,
}
use latchkit.Task.Model.{SourceSnapshot, source_equal, VerificationMode, fast, standard}

pub record EvidenceLike : Type 0 where
  pub id : String
  pub criterion_id : String
  pub criterion_revision : ℕ
  pub kind : String
  pub outcome : String
  pub source : SourceSnapshot

pub record CriterionLike : Type 0 where
  pub id : String
  pub revision : ℕ

pub record CheckLike : Type 0 where
  pub id : String
  pub criterion_id : String
  pub watch_paths : List String

-- The path itself, or a path below it.
unfoldable pub is_watched : String → String → Bool
is_watched changed watched =
    changed == watched || is_some (strip_prefix (codes watched ++ b'/' ∷ []) (codes changed))

unfoldable pub is_check_affected : CheckLike → List String → Bool
unfolding is_watched
is_check_affected check changed =
    is_empty changed
    || (is_empty check.watch_paths || any (λ c. any (is_watched c) check.watch_paths) changed)

pub data ReuseReason : Type 0 where
  unknown_criterion no_prior_evidence source_unchanged source_changed changed_dependency
        unaffected_by_change no_declared_changes unscoped_check standard_mode :
      ReuseReason
  prior_outcome : String → ReuseReason

pub record ReuseDecision : Type 0 where
  pub reusable : Bool
  pub reason : ReuseReason
  pub evidence : Option EvidenceLike

abbrev pub is_candidate : CriterionLike → String → EvidenceLike → Bool
is_candidate criterion kind item =
    item.criterion_id == criterion.id
    && (eqb item.criterion_revision criterion.revision && item.kind == kind)

abbrev pub decided : Bool → ReuseReason → EvidenceLike → ReuseDecision
decided reusable reason item = record { reusable = reusable; reason = reason; evidence = some item }

abbrev pub refusal : ReuseReason → ReuseDecision
refusal reason = record { reusable = false; reason = reason; evidence = none }

-- The decision on evidence that passed.
unfoldable pub reuse_passed :
    CheckLike → SourceSnapshot → Option (List String) → EvidenceLike → ReuseDecision
unfolding is_check_affected
reuse_passed check source none item =
    if source_equal item.source source
    then decided true source_unchanged item
    else decided false source_changed item
reuse_passed check source (some changed) item =
    if not (is_empty check.watch_paths)
    then (if is_check_affected check changed
        then decided false changed_dependency item
        else decided true unaffected_by_change item)
    else if is_empty changed
    then decided true no_declared_changes item
    else decided false unscoped_check item

unfoldable pub evaluate_evidence_reuse :
    CheckLike
    → Option CriterionLike
    → List EvidenceLike
    → SourceSnapshot
    → Option (List String)
    → String
    → ReuseDecision
unfolding reuse_passed
evaluate_evidence_reuse check none evidence source changed kind = refusal unknown_criterion
evaluate_evidence_reuse check (some criterion) evidence source changed kind =
    elim (find_last (is_candidate criterion kind) evidence) [
      | none ↦ refusal no_prior_evidence
      | some latest ↦
          if not (latest.outcome == "passed")
          then decided false (prior_outcome latest.outcome) latest
          else reuse_passed check source changed latest
    ]

pub record VerificationPlanEntry : Type 0 where
  pub check_id : String
  pub criterion_id : String
  pub selected : Bool
  pub reused : Bool
  pub reason : ReuseReason
  pub evidence_id : Option String

-- `new Map` keeps the last criterion of an id.
abbrev pub criterion_by_id : List CriterionLike → String → Option CriterionLike
criterion_by_id criteria id = find_last (λ c. c.id == id) criteria

abbrev evidence_id : Option EvidenceLike → Option String
evidence_id none = none
evidence_id (some item) = some item.id

abbrev pub planned_entry : CheckLike → ReuseDecision → VerificationPlanEntry
planned_entry check decision = record {
  check_id = check.id;
  criterion_id = check.criterion_id;
  selected = not decision.reusable;
  reused = decision.reusable;
  reason = decision.reason;
  evidence_id = evidence_id decision.evidence;
}

unfoldable pub plan_entry :
    VerificationMode
    → List CriterionLike
    → List EvidenceLike
    → SourceSnapshot
    → Option (List String)
    → (CheckLike → String)
    → CheckLike
    → VerificationPlanEntry
unfolding evaluate_evidence_reuse
plan_entry standard criteria evidence source changed kind check =
    planned_entry check (refusal standard_mode)
plan_entry fast criteria evidence source changed kind check = planned_entry check (
    evaluate_evidence_reuse check (criterion_by_id criteria check.criterion_id) evidence source
      changed (kind check))

-- The entries of the plan; its mode and time are the caller's.
abbrev pub build_verification_plan :
    VerificationMode
    → List CheckLike
    → List CriterionLike
    → List EvidenceLike
    → SourceSnapshot
    → Option (List String)
    → (CheckLike → String)
    → List VerificationPlanEntry
build_verification_plan mode checks criteria evidence source changed kind =
    map (plan_entry mode criteria evidence source changed kind) checks
