-- ===== src/Task/Revised.antt =====
-- How a criterion that is revised loses its evidence.
use latchkit.Base.{
  ℕ, suc, ◌≡◌, refl, sym, ◌∙◌, String, true, false, List, [], ◌∷◌, Option, none, some, find,
  find_last, all, arith, eq_iff, find-holds, Option-cases, Bool-cases, Result-cases, inl, inr, ok,
  subst, ◌⊎◌,
}
use mathlib.Core.List.{Memᴰ}
use latchkit.Task.Model.{
  Task, TaskState, TaskEvidence, Criterion, SourceSnapshot, missing_current_evidence,
}
use latchkit.Task.Store.{Context, has_id, commit_event}
use latchkit.Task.Criteria.{
  CriterionInput, supplied_id, has_criterion_id, is_changed, revised, reconciled, reconcile_each,
  reconcile_criteria, revise_criteria,
}
use latchkit.Task.Evidence.{criterion_failure, is_current}
use latchkit.Task.Relations.{
  is_consistent, evidence_valid, run_ids, authorization_ids, relations_valid,
}
use latchkit.Task.Consistent.{consistent_parts}
use latchkit.Task.Commit.{all-find}

-- The evidence of a task refers to no later content of a criterion than the present one.
no_current_evidence :
    (runs grants : List String) (criteria : List Criterion) (previous : Criterion)
    (input : CriterionInput) (ctx : Context) (source : SourceSnapshot) (items : List TaskEvidence)
    → find (has_criterion_id previous.id) criteria ≡ some previous
    → is_changed previous input ≡ true
    → all (evidence_valid runs criteria grants) items ≡ true
    → find_last (is_current (revised ctx previous input) source) items ≡ none
no_current_evidence runs grants criteria previous input ctx source [] f c a = refl
no_current_evidence runs grants criteria previous input ctx source (x ∷ items) f c a = ground (
  arith,
  no_current_evidence runs grants criteria previous input ctx source items f c (ground arith),
  eq_iff x.criterion_id previous.id,
)

changed-unshown :
    (ctx : Context) (task after : Task) (source : SourceSnapshot) (previous : Criterion)
    (input : CriterionInput)
    → is_consistent task ≡ true
    → find (has_criterion_id previous.id) task.criteria ≡ some previous
    → is_changed previous input ≡ true
    → after.evidence ≡ task.evidence
    → criterion_failure after source (revised ctx previous input) ≡ some missing_current_evidence
unfolding criterion_failure
changed-unshown ctx task after source previous input sound f c same =
    let b = (consistent_parts task sound).0 in
    ground (
      arith,
      no_current_evidence (run_ids task.runs) (authorization_ids task.authorizations) task.criteria
          previous input ctx source task.evidence f c b.evidence,
    )

Memᴰ_cons : {c x : Criterion} {xs : List Criterion} → Memᴰ c (x ∷ xs) → (c ≡ x) ⊎ Memᴰ c xs
Memᴰ_cons (Memᴰ.head e) = inl e
Memᴰ_cons (Memᴰ.tail m) = inr m

reconcile_each-reconciled :
    (ctx : Context) (current : List Criterion) (k : ℕ) (input : List CriterionInput)
    (next : List Criterion) (criterion : Criterion)
    → reconcile_each ctx current k input ≡ ok next
    → Memᴰ criterion next
    → (index : ℕ) × (id : Option String) × (from : CriterionInput) × (criterion
        ≡ reconciled ctx current index id from)
unfolding reconcile_each
reconcile_each-reconciled ctx current k [] next criterion h m =
    elim (subst (λ xs. Memᴰ criterion xs) {y = []} (ground arith) m) [ ]
reconcile_each-reconciled ctx current k (input ∷ rest) next criterion h m =
    elim (Result-cases (supplied_id input.id)) [
      | inr (error, e) ↦ absurd (ground arith)
      | inl (id, e) ↦ elim (Result-cases (reconcile_each ctx current (suc k) rest)) [
        | inr (error, l) ↦ absurd (ground arith)
        | inl (later, l) ↦
            let split : next ≡ reconciled ctx current k id input ∷ later = ground arith in
            elim (Memᴰ_cons (subst (λ xs. Memᴰ criterion xs) split m)) [
              | inl here ↦ (k, id, input, here)
              | inr there ↦
                  reconcile_each-reconciled ctx current (suc k) rest later criterion l there
            ]
      ]
    ]

-- The three parts of a criterion that its revision counts, and the revision.
abbrev pub SameContent : Criterion → Criterion → Type 0
SameContent left right =
    (left.description ≡ right.description)
    × (left.required ≡ right.required)
    × (left.approval_required ≡ right.approval_required)
    × (left.revision ≡ right.revision)

reconciled-revised :
    (ctx : Context) (current : List Criterion) (k : ℕ) (id : Option String) (from : CriterionInput)
    (previous : Criterion)
    → find (has_criterion_id (ctx.fresh "criterion" k)) current ≡ none
    → find (has_criterion_id (reconciled ctx current k id from).id) current ≡ some previous
    → reconciled ctx current k id from ≡ revised ctx previous from
reconciled-revised ctx current k none from previous fresh f = cc
reconciled-revised ctx current k (some id) from previous fresh f =
    elim (Option-cases (find (has_criterion_id id) current)) [
      | inl e ↦ absurd (ground arith)
      | inr (found, e) ↦
          ground (arith, (eq_iff found.id id).0 (find-holds (has_criterion_id id) current found e))
    ]

revised-SameContent :
    (ctx : Context) (previous : Criterion) (from : CriterionInput)
    → is_changed previous from ≡ false
    → SameContent (revised ctx previous from) previous
revised-SameContent ctx previous from e = (
  ground (arith, eq_iff previous.description from.description),
  ground arith,
  ground arith,
  ground arith,
)

revise-commits :
    (ctx : Context) (task_id : String) (n : ℕ) (input : List CriterionInput) (state : TaskState)
    (task : Task) (done : TaskState × Task)
    → find (has_id task_id) state.tasks ≡ some task
    → revise_criteria ctx task_id n input state ≡ ok done
    → (next : List Criterion) × (reconcile_each ctx task.criteria 0 input ≡ ok next)
      × (done.1.criteria ≡ next)
      × (done.1.evidence ≡ task.evidence)
unfolding revise_criteria reconcile_criteria commit_event
revise-commits ctx task_id n input state task done found h =
    elim (Result-cases (reconcile_each ctx task.criteria 0 input)) [
      | inl (next, e) ↦ (next, e, ground arith, ground arith)
      | inr (error, e) ↦ absurd (ground arith)
    ]

-- After a revision of the criteria of a task of a store whose relations hold, each criterion that the
-- task had before either has its content and revision still, or is shown by no evidence on any
-- sources, when the identifiers drawn for new criteria are none of the task's.
pub revise_criteria-unshown :
    (ctx : Context) (task_id : String) (n : ℕ) (input : List CriterionInput) (state : TaskState)
    (task : Task) (done : TaskState × Task) (criterion previous : Criterion)
    (source : SourceSnapshot)
    → relations_valid state ≡ true
    → find (has_id task_id) state.tasks ≡ some task
    → ((k : ℕ) → find (has_criterion_id (ctx.fresh "criterion" k)) task.criteria ≡ none)
    → revise_criteria ctx task_id n input state ≡ ok done
    → Memᴰ criterion done.1.criteria
    → find (has_criterion_id criterion.id) task.criteria ≡ some previous
    → SameContent criterion previous
      ⊎ (criterion_failure done.1 source criterion ≡ some missing_current_evidence)
unfolding relations_valid
revise_criteria-unshown ctx task_id n input state task done criterion previous source valid found
      fresh h m f =
    let sound = all-find is_consistent (has_id task_id) state.tasks task (ground arith) found in
    let (next, e, criteria, evidence) =
      revise-commits ctx task_id n input state task done found h in
    let (k, id, from, made) =
      reconcile_each-reconciled ctx task.criteria 0 input next criterion e
        (subst (λ xs. Memᴰ criterion xs) criteria m) in
    let kept : criterion ≡ revised ctx previous from =
      made
      ∙ reconciled-revised ctx task.criteria k id from previous (fresh k)
          (subst (λ c. find (has_criterion_id c.id) task.criteria ≡ some previous) made f) in
    let same : find (has_criterion_id previous.id) task.criteria ≡ some previous =
      subst (λ c. find (has_criterion_id c.id) task.criteria ≡ some previous) kept f in
    elim (Bool-cases (is_changed previous from)) [
      | inl c ↦ inr (
          subst (λ x. criterion_failure done.1 source x ≡ some missing_current_evidence) (sym kept)
            (changed-unshown ctx task done.1 source previous from sound same c evidence))
      | inr c ↦
          inl (
            subst (λ x. SameContent x previous) (sym kept)
              (revised-SameContent ctx previous from c))
    ]
