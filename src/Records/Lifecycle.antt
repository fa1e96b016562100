-- ===== src/Records/Lifecycle.antt =====
-- What becomes of a record under the operations, and what an operation cannot do to a full history.
use latchkit.Base.{
  ◌≡◌, sym, subst, ap, ◌⊎◌, inl, inr, String, true, false, List, [], ◌∷◌, ◌++◌, Option, none, some,
  find, all, eq_iff, arith, Option-cases, Result-cases, ok,
}
use latchkit.Records.Model.{
  RecordLink, RecordKind, TaskRecord, RecordedTask, is_record_status_terminal,
}
use latchkit.Records.Links.{RecordContext, has_record_id, given_text, normalize_links}
use latchkit.Records.Operations.{
  RecordOperation, creating, revising, transitioning, perform_record, put_record,
  apply_record_create_op, supersede, superseded_target, new_record, RecordCreateInput,
}
use latchkit.Records.Changes.{IsChange, IsTouched, status_known}
use latchkit.Records.Touched.{
  IsCreated, supersede-IsTouched, apply_record_revise_op-IsTouched,
  apply_record_transition_op-IsTouched,
}

all-status_known :
    (records : List TaskRecord) (id : String) (item : TaskRecord)
    → all status_known records ≡ true
    → find (has_record_id id) records ≡ some item
    → status_known item ≡ true
all-status_known [] id item a e = cc
all-status_known (r ∷ records) id item a e = ground (arith, all-status_known records id item)

superseded_target-found :
    (kind : RecordKind) (records : List TaskRecord) (given : Option String) (target : TaskRecord)
    → superseded_target kind records given ≡ ok (some target)
    → (id : String) × (find (has_record_id id) records ≡ some target)
      × (is_record_status_terminal target.status ≡ false)
unfolding superseded_target
superseded_target-found kind records none target h = cc
superseded_target-found kind records (some id) target h =
    elim (Option-cases (find (has_record_id id) records)) [
      | inl e ↦ ground arith
      | inr (found, e) ↦ (id, ground arith, ground arith)
    ]

supersede-none :
    (ctx : RecordContext) (input : RecordCreateInput) (t mid : RecordedTask)
    → supersede ctx input none t ≡ ok mid
    → t ≡ mid
unfolding supersede
supersede-none ctx input t mid h = ground arith

create-steps :
    (ctx : RecordContext) (input : RecordCreateInput) (t after : RecordedTask)
    → apply_record_create_op ctx input t ≡ ok after
    → (links : List RecordLink) × (target : Option TaskRecord) × (mid : RecordedTask)
      × (superseded_target input.kind t.records (given_text input.supersedes) ≡ ok target)
      × (supersede ctx input target t ≡ ok mid)
      × (record mid {
        records = mid.records ++ new_record ctx input links (given_text input.supersedes) ∷ [];
      }
          ≡ after)
unfolding apply_record_create_op
create-steps ctx input t after h =
    elim (Result-cases (normalize_links ctx t.task t.records input.links)) [
      | inr (error, l) ↦ ground arith
      | inl (links, l) ↦
          elim (Result-cases
            (superseded_target input.kind t.records (given_text input.supersedes))) [
              | inr (error, s) ↦ ground arith
              | inl (target, s) ↦ elim (Result-cases (supersede ctx input target t)) [
                | inr (error, m) ↦ ground arith
                | inl (mid, m) ↦ (links, target, mid, s, m, ground arith)
              ]
            ]
    ]

pub apply_record_create_op-IsCreated :
    (ctx : RecordContext) (input : RecordCreateInput) (t after : RecordedTask)
    → all status_known t.records ≡ true
    → apply_record_create_op ctx input t ≡ ok after
    → IsCreated ctx t after
apply_record_create_op-IsCreated ctx input t after known h =
    let (links, target, mid, s, m, same) = create-steps ctx input t after h in
    let new = new_record ctx input links (given_text input.supersedes) in
    (new, go target mid new s m same)
  where
    go :
        (target : Option TaskRecord) (mid : RecordedTask) (new : TaskRecord)
        → superseded_target input.kind t.records (given_text input.supersedes) ≡ ok target
        → supersede ctx input target t ≡ ok mid
        → record mid { records = mid.records ++ new ∷ [] } ≡ after
        → (after.records ≡ t.records ++ new ∷ [])
          ⊎ ((target : TaskRecord) × (changed : TaskRecord) × IsTouched t after target changed
                (new ∷ []))
    go none mid new s m same = inl (
        subst (λ x. x.records ≡ t.records ++ new ∷ []) same
          (ap (λ x. x.records ++ new ∷ []) (sym (supersede-none ctx input t mid m))))
    go (some target) mid new s m same =
        let (id, found, live) =
          superseded_target-found input.kind t.records (given_text input.supersedes) target s in
        let (changed, touched) =
          supersede-IsTouched ctx input t mid target new id
            (all-status_known t.records id target known found) live found m in
        inr (target, changed, subst (λ x. IsTouched t x target changed (new ∷ [])) same touched)

find-append :
    (id : String) (records added : List TaskRecord) (item : TaskRecord)
    → find (has_record_id id) records ≡ some item
    → find (has_record_id id) (records ++ added) ≡ some item
find-append id [] added item e = cc
find-append id (r ∷ records) added item e = ground (arith, find-append id records added item)

find-put_record :
    (id : String) (new old target : TaskRecord) (records : List TaskRecord)
    → find (has_record_id id) records ≡ some old
    → find (has_record_id new.id) records ≡ some target
    → (find (has_record_id id) (put_record new records) ≡ some old)
      ⊎ ((find (has_record_id id) (put_record new records) ≡ some new) × (old ≡ target))
find-put_record id new old target [] e f = cc
find-put_record id new old target (r ∷ records) e f = ground (
  arith,
  find-put_record id new old target records,
  eq_iff r.id id,
  eq_iff r.id new.id,
  eq_iff new.id id,
)

touched-find :
    (t after : RecordedTask) (target new old : TaskRecord) (added : List TaskRecord) (id : String)
    → IsTouched t after target new added
    → find (has_record_id id) t.records ≡ some old
    → (find (has_record_id id) after.records ≡ some old)
      ⊎ ((changed : TaskRecord) × (find (has_record_id id) after.records ≡ some changed)
          × IsChange after.task old changed)
touched-find t after target new old added id touched e =
    elim (find-put_record id new old target t.records e (
      subst (λ x. find (has_record_id x) t.records ≡ some target) (sym touched.same_id)
        touched.found)) [
          | inl kept ↦ inl (
              subst (λ x. find (has_record_id id) x ≡ some old) (sym touched.records)
                (find-append id (put_record new t.records) added old kept))
          | inr (changed, same) ↦ inr (
            new,
            subst (λ x. find (has_record_id id) x ≡ some new) (sym touched.records)
                (find-append id (put_record new t.records) added new changed),
            subst (λ x. IsChange after.task x new) (sym same) touched.change,
          )
        ]

-- Behind an operation on records that succeeds, where each record has a status of its kind, an old
-- record is as it was or has one more entry in its history, which carries its next revision and its
-- status and text; its status is unchanged, or the table allows its transition, or it is a withdrawn
-- question that was superseded; and if its kind's accepted status was entered or left, the entry
-- names an authorization that the task holds.
pub perform_record-IsChange :
    (ctx : RecordContext) (operation : RecordOperation) (t after : RecordedTask) (id : String)
    (old : TaskRecord)
    → all status_known t.records ≡ true
    → perform_record ctx operation t ≡ ok after
    → find (has_record_id id) t.records ≡ some old
    → (find (has_record_id id) after.records ≡ some old)
      ⊎ ((new : TaskRecord) × (find (has_record_id id) after.records ≡ some new)
          × IsChange after.task old new)
unfolding perform_record
perform_record-IsChange ctx (creating input) t after id old known h e =
    let (new, outcome) = apply_record_create_op-IsCreated ctx input t after known h in
    elim outcome [
      | inl same ↦ inl (
          subst (λ x. find (has_record_id id) x ≡ some old) (sym same)
            (find-append id t.records (new ∷ []) old e))
      | inr (target, changed, touched) ↦
          touched-find t after target changed old (new ∷ []) id touched e
    ]
perform_record-IsChange ctx (revising input) t after id old known h e =
    let (target, new, touched) = apply_record_revise_op-IsTouched ctx input t after h in
    touched-find t after target new old [] id touched e
perform_record-IsChange ctx (transitioning input) t after id old known h e =
    let (target, new, touched) = apply_record_transition_op-IsTouched ctx input t after h in
    touched-find t after target new old [] id touched e
