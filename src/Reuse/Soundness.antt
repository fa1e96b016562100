-- ===== src/Reuse/Soundness.antt =====
-- What a decision to reuse evidence rests on.
use latchkit.Base.{
  ◌≡◌, refl, String, true, false, List, [], Option, none, some, is_empty, arith, ◌⊎◌,
}
use mathlib.Core.List.{Memᴰ}
use latchkit.Task.Model.{SourceSnapshot, source_equal, VerificationMode, fast}
use latchkit.Reuse.Operations.{
  EvidenceLike, CriterionLike, CheckLike, is_check_affected, reuse_passed, evaluate_evidence_reuse,
  VerificationPlanEntry,
}

-- Evidence that may be reused: recorded for the criterion's present revision, passed, and nothing
-- that the check depends on has changed since.
pub record IsReusable (check : CheckLike) (criterion : CriterionLike) (evidence : List EvidenceLike)
    (source : SourceSnapshot) (changed : Option (List String)) : Type 0 where
  pub item : EvidenceLike
  pub recorded : Memᴰ item evidence
  pub same_criterion : item.criterion_id ≡ criterion.id
  pub same_revision : item.criterion_revision ≡ criterion.revision
  pub passed : item.outcome ≡ "passed"
  pub unchanged :
      ((changed ≡ none) × (source_equal item.source source ≡ true))
      ⊎ ((paths : List String) × (changed ≡ some paths)
          × ((paths ≡ []) ⊎ (is_check_affected check paths ≡ false)))

-- A check with watched paths is run again when the caller declares that no path has changed,
-- whatever its evidence.
pub evaluate_evidence_reuse-no_changes :
    (check : CheckLike) (criterion : Option CriterionLike) (evidence : List EvidenceLike)
    (source : SourceSnapshot) (kind : String)
    → is_empty check.watch_paths ≡ false
    → (evaluate_evidence_reuse check criterion evidence source (some []) kind).reusable ≡ false
unfolding evaluate_evidence_reuse reuse_passed is_check_affected
evaluate_evidence_reuse-no_changes check none evidence source kind h = refl
evaluate_evidence_reuse-no_changes check (some criterion) evidence source kind h = ground arith

-- A planned entry that reuses evidence: the mode is the fast one, and the entry's check has a known
-- criterion for which evidence may be reused.
pub record IsPlannedReuse (mode : VerificationMode) (checks : List CheckLike)
    (criteria : List CriterionLike) (evidence : List EvidenceLike) (source : SourceSnapshot)
    (changed : Option (List String)) (entry : VerificationPlanEntry) : Type 0 where
  pub check : CheckLike
  pub criterion : CriterionLike
  pub listed : Memᴰ check checks
  pub same_check : entry.check_id ≡ check.id
  pub known : Memᴰ criterion criteria
  pub named : criterion.id ≡ check.criterion_id
  pub in_fast_mode : mode ≡ fast
  pub reusable : IsReusable check criterion evidence source changed
