-- ===== src/Reuse/Tests.antt =====
-- Reusing evidence of one check.
use latchkit.Base.{List, ◌≡◌, refl, true, false, [], ◌∷◌, none, some}
use latchkit.Task.Model.{SourceSnapshot, fast}
use latchkit.Reuse.Operations.{
  EvidenceLike, CriterionLike, CheckLike, evaluate_evidence_reuse, build_verification_plan,
  reuse_passed, is_check_affected, is_watched, plan_entry, VerificationPlanEntry, source_unchanged,
}
use latchkit.Reuse.Soundness.{evaluate_evidence_reuse-no_changes}

abbrev source : SourceSnapshot
source = record { revision = some "4f2a"; dirty_fingerprint = none }

abbrev criterion : CriterionLike
criterion = record { id = "criterion_1"; revision = 2 }

abbrev check : CheckLike
check = record { id = "unit"; criterion_id = "criterion_1"; watch_paths = "src" ∷ [] }

abbrev item : EvidenceLike
item = record {
  id = "evidence_1";
  criterion_id = "criterion_1";
  criterion_revision = 2;
  kind = "check";
  outcome = "passed";
  source = source;
}

evaluate_evidence_reuse-no_changes_example :
    (evaluate_evidence_reuse check (some criterion) (item ∷ []) source (some []) "check").reusable
    ≡ false
evaluate_evidence_reuse-no_changes_example =
    evaluate_evidence_reuse-no_changes check (some criterion) (item ∷ []) source "check" refl

abbrev plan : List VerificationPlanEntry
unfolding plan_entry evaluate_evidence_reuse reuse_passed is_check_affected is_watched
plan =
    build_verification_plan fast (check ∷ []) (criterion ∷ []) (item ∷ []) source none
      (λ c. "check")

abbrev entry : VerificationPlanEntry
entry = record {
  check_id = "unit";
  criterion_id = "criterion_1";
  selected = false;
  reused = true;
  reason = source_unchanged;
  evidence_id = some "evidence_1";
}

planned : plan ≡ entry ∷ []
unfolding plan_entry evaluate_evidence_reuse reuse_passed is_check_affected is_watched
planned = refl
