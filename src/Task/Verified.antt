-- ===== src/Task/Verified.antt =====
-- What it takes to verify a task, and how a revised criterion loses its evidence.
use latchkit.Base.{
  false, ◌⊎◌, ℕ, ◌≡◌, refl, sym, String, Bool, true, List, [], ◌∷◌, ◌++◌, Option, none, some, find,
  find_last, keep, arith, eq_iff, Option-cases, Bool-cases, inl, inr, ok, subst,
}
use mathlib.Core.List.{Memᴰ}
use latchkit.Task.Model.{
  Task, TaskState, TaskEvidence, Criterion, SourceSnapshot, passed, FailureReason, is_approval,
  source_equal, VerificationFailure,
}
use latchkit.Task.Store.{Context, has_id}
use latchkit.Task.Evidence.{
  verify_task, verification_failures, criteria_failures, criterion_failure, failure_at, is_current,
  has_authorization, is_completed,
}
use latchkit.Task.Commits.{verify-commits}

-- A criterion is shown by a piece of evidence for its present content and the present sources,
-- which passed, and which is an authorized approval where the criterion wants one.
pub record IsShown (task : Task) (source : SourceSnapshot) (criterion : Criterion) : Type 0 where
  pub item : TaskEvidence
  pub recorded : Memᴰ item task.evidence
  pub criterion_matches : item.criterion_id ≡ criterion.id
  pub revision_matches : item.criterion_revision ≡ criterion.revision
  pub source_matches : source_equal item.source source ≡ true
  pub outcome_passed : item.outcome ≡ passed
  pub approved :
      (criterion.approval_required ≡ false)
      ⊎ ((is_approval item.kind ≡ true)
          × (has_authorization task.authorizations item.authorization_id ≡ true))

find_last-holds :
    (p : TaskEvidence → Bool) (items : List TaskEvidence) (item : TaskEvidence)
    → find_last p items ≡ some item
    → p item ≡ true
find_last-holds p [] item h = cc
find_last-holds p (x ∷ items) item h = ground (arith, find_last-holds p items item)

find_last-Memᴰ :
    (p : TaskEvidence → Bool) (items : List TaskEvidence) (item : TaskEvidence)
    → find_last p items ≡ some item
    → Memᴰ item items
find_last-Memᴰ p [] item h = cc
find_last-Memᴰ p (x ∷ items) item h = elim (Option-cases (find_last p items)) [
  | inl e ↦ Memᴰ.head (ground arith)
  | inr (y, e) ↦ Memᴰ.tail (find_last-Memᴰ p items item (ground arith))
]

criterion_failure-IsShown :
    (task : Task) (source : SourceSnapshot) (criterion : Criterion)
    → criterion_failure task source criterion ≡ none
    → IsShown task source criterion
unfolding criterion_failure
criterion_failure-IsShown task source criterion h =
    elim (Option-cases (find_last (is_current criterion source) task.evidence)) [
      | inl e ↦ absurd (ground arith)
      | inr (item, e) ↦
          let holds = find_last-holds (is_current criterion source) task.evidence item e in
          record {
            item = item;
            recorded = find_last-Memᴰ (is_current criterion source) task.evidence item e;
            criterion_matches = (eq_iff item.criterion_id criterion.id).0 (ground (arith, holds));
            revision_matches = ground (arith, holds);
            source_matches = ground (arith, holds);
            outcome_passed = ground arith;
            approved = ground arith;
          }
    ]

failure_at-nil :
    (id : String) (reason : Option FailureReason) → failure_at id reason ≡ [] → reason ≡ none
failure_at-nil id none h = refl
failure_at-nil id (some reason) h = cc

append-nil_parts : (xs ys : List VerificationFailure) → xs ++ ys ≡ [] → (xs ≡ []) × (ys ≡ [])
append-nil_parts [] ys h = (refl, h)
append-nil_parts (x ∷ xs) ys h = cc

cons_failures-nil :
    (task : Task) (source : SourceSnapshot) (criterion : Criterion) (rest : List Criterion)
    → criteria_failures task source (criterion ∷ rest) ≡ []
    → (criterion_failure task source criterion ≡ none) × (criteria_failures task source rest ≡ [])
unfolding criteria_failures
cons_failures-nil task source criterion rest h =
    let (first, later) =
      append-nil_parts (failure_at criterion.id (criterion_failure task source criterion)) _ h in
    (failure_at-nil criterion.id _ first, later)

criteria_failures-nil :
    (task : Task) (source : SourceSnapshot) (criteria : List Criterion) (criterion : Criterion)
    → Memᴰ criterion criteria
    → criteria_failures task source (keep (λ c. c.required) criteria) ≡ []
    → criterion.required ≡ true
    → criterion_failure task source criterion ≡ none
criteria_failures-nil task source [] criterion m h r = elim m [ ]
criteria_failures-nil task source (c ∷ criteria) criterion (Memᴰ.head e) h r =
    let kept : c.required ≡ true = subst (λ x. x.required ≡ true) e r in
    subst (λ x. criterion_failure task source x ≡ none) (sym e)
      (cons_failures-nil task source c (keep (λ c. c.required) criteria) (ground (arith, kept))).0
criteria_failures-nil task source (c ∷ criteria) criterion (Memᴰ.tail m) h r =
    elim (Bool-cases c.required) [
      | inl kept ↦
          criteria_failures-nil task source criteria criterion m
            (cons_failures-nil task source c (keep (λ c. c.required) criteria) (ground arith)).1 r
      | inr left ↦ criteria_failures-nil task source criteria criterion m (ground arith) r
    ]

-- A task that `verifyTask` accepts was completed, and each of its required criteria is shown by
-- recorded evidence for the criterion's present content and the present sources.
pub verify_task-IsShown :
    (ctx : Context) (task_id : String) (n : ℕ) (state : TaskState) (task : Task)
    (done : TaskState × Task) (criterion : Criterion)
    → find (has_id task_id) state.tasks ≡ some task
    → verify_task ctx task_id n state ≡ ok done
    → Memᴰ criterion task.criteria
    → criterion.required ≡ true
    → (is_completed task.state ≡ true) × IsShown task ctx.source criterion
unfolding verification_failures
verify_task-IsShown ctx task_id n state task done criterion found h m r =
    let (is_done, clean, answer) = verify-commits ctx task_id n state task done found h in
    (
      is_done,
      criterion_failure-IsShown task ctx.source criterion (
          criteria_failures-nil task ctx.source task.criteria criterion m
            (append-nil_parts _ _ clean).0 r),
    )
