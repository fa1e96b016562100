-- ===== src/Records/Touched.antt =====
-- task-state/service.ts: the records that an operation touches.
use latchkit.Base.{
  ◌≡◌, refl, subst, ◌∙◌, ◌⊎◌, inl, inr, String, true, false, [], ◌∷◌, ◌++◌, Option, none, some,
  find, concat, arith, Option-cases, Result-cases, ok,
}
use latchkit.Task.Model.{Task}
use latchkit.Records.Model.{
  question, withdrawn, superseded, TaskRecord, RecordedTask, revised, transitioned,
  is_record_transition_valid, is_record_status_terminal, record_transition_requires_authority,
}
use latchkit.Records.Links.{RecordContext, has_record_id, find_record, assert_record_expected}
use latchkit.Records.Operations.{
  authority, put_record, advanced, apply_record_revise_op, apply_record_transition_op, supersede,
  superseded_by_new, RecordCreateInput, RecordReviseInput, RecordTransitionInput, revised_text,
  revised_links, evidenced, is_verification,
}
use latchkit.Records.Changes.{
  IsTouched, status_known, supersede_allowed, authority-held, find_record_self, append-none,
  advanced-IsChange, revised_text-Shape, revised_links-Shape, evidenced-Shape,
}

pub apply_record_revise_op-IsTouched :
    (ctx : RecordContext) (input : RecordReviseInput) (t after : RecordedTask)
    → apply_record_revise_op ctx input t ≡ ok after
    → (target : TaskRecord) × (new : TaskRecord) × IsTouched t after target new []
unfolding apply_record_revise_op find_record assert_record_expected
apply_record_revise_op-IsTouched ctx input t after h =
    elim (Option-cases (find (has_record_id input.record_id) t.records)) [
      | inl e ↦ ground arith
      | inr (target, e) ↦ elim (Result-cases (revised_text input.text target)) [
        | inr (error, w) ↦ ground arith
        | inl (worded, w) ↦ elim (Result-cases (revised_links ctx t input.links worded)) [
          | inr (error, l) ↦ ground arith
          | inl (linked, l) ↦
              let (id1, kind1, revision1, history1, status1) =
                revised_text-Shape input.text target worded w in
              let (id2, kind2, revision2, history2, status2) =
                revised_links-Shape ctx t input.links worded linked l in
              let new = advanced revised input.reason none ctx.call.at linked in
              (
                target,
                new,
                record {
                  found = find_record_self input.record_id t.records target e;
                  same_id = id2 ∙ id1;
                  records =
                      subst (λ x. x.records ≡ put_record new t.records ++ [])
                        (outcome target worded linked e w l)
                        (append-none (put_record new t.records));
                  change =
                      advanced-IsChange after.task target linked revised input.reason none
                        ctx.call.at (kind2 ∙ kind1) (revision2 ∙ revision1) (history2 ∙ history1)
                        (inl (status2 ∙ status1)) (inl (status2 ∙ status1));
                },
              )
        ]
      ]
    ]
  where
    outcome :
        (target worded linked : TaskRecord)
        → find (has_record_id input.record_id) t.records ≡ some target
        → revised_text input.text target ≡ ok worded
        → revised_links ctx t input.links worded ≡ ok linked
        → record t {
          records = put_record (advanced revised input.reason none ctx.call.at linked) t.records;
        }
          ≡ after
    outcome target worded linked e w l = ground arith

abbrev transitioned_item :
    RecordContext → RecordTransitionInput → Option String → TaskRecord → TaskRecord
transitioned_item ctx input resolved item =
    advanced transitioned (some input.reason) resolved ctx.call.at
      (record item { status = input.status })

transition-outcome :
    (ctx : RecordContext) (input : RecordTransitionInput) (t after : RecordedTask)
    (target item : TaskRecord) (task : Task) (resolved : Option String)
    → apply_record_transition_op ctx input t ≡ ok after
    → find (has_record_id input.record_id) t.records ≡ some target
    → authority ctx t.task
        (record_transition_requires_authority target.kind target.status input.status)
        input.authorization_id
        input.authorization
      ≡ ok (resolved, task)
    → evidenced ctx task input.evidence_id (is_verification target.kind input.status) target
      ≡ ok item
    → (is_record_transition_valid target.kind target.status input.status ≡ true)
      × (record {
        task = task;
        records = put_record (transitioned_item ctx input resolved item) t.records;
      }
          ≡ after)
unfolding apply_record_transition_op find_record assert_record_expected
transition-outcome ctx input t after target item task resolved h e a v = ground arith

pub apply_record_transition_op-IsTouched :
    (ctx : RecordContext) (input : RecordTransitionInput) (t after : RecordedTask)
    → apply_record_transition_op ctx input t ≡ ok after
    → (target : TaskRecord) × (new : TaskRecord) × IsTouched t after target new []
unfolding apply_record_transition_op find_record assert_record_expected
apply_record_transition_op-IsTouched ctx input t after h =
    elim (Option-cases (find (has_record_id input.record_id) t.records)) [
      | inl e ↦ ground arith
      | inr (target, e) ↦
          let needed =
            record_transition_requires_authority target.kind target.status input.status in
          elim (Result-cases
            (authority ctx t.task needed input.authorization_id input.authorization)) [
              | inr (error, a) ↦ ground arith
              | inl ((resolved, task), a) ↦
                  elim (Result-cases (
                    evidenced ctx task input.evidence_id (is_verification target.kind input.status)
                      target)) [
                        | inr (error, v) ↦ ground arith
                        | inl (item, v) ↦
                            let (valid, same) =
                              transition-outcome ctx input t after target item task resolved h e a
                                v in
                            let (id, kind, revision, history, status) =
                              evidenced-Shape ctx task input.evidence_id
                                (is_verification target.kind input.status) target item v in
                            let new = transitioned_item ctx input resolved item in
                            (
                              target,
                              new,
                              subst (λ x. IsTouched t x target new []) same
                                  (record {
                                    found = find_record_self input.record_id t.records target e;
                                    same_id = id;
                                    records = append-none (put_record new t.records);
                                    change =
                                        advanced-IsChange task target
                                          (record item { status = input.status }) transitioned
                                          (some input.reason) resolved ctx.call.at kind revision
                                          history (inr (inl valid))
                                          (inr (
                                            authority-held ctx t.task task needed
                                              input.authorization_id resolved input.authorization
                                              a));
                                  }),
                            )
                      ]
            ]
    ]

-- What a creation leaves: the records as they were, or one superseded, and the new record behind them.
abbrev pub IsCreated : RecordContext → RecordedTask → RecordedTask → Type 0
IsCreated ctx t after =
    (new : TaskRecord) × ((after.records ≡ t.records ++ new ∷ [])
      ⊎ ((target : TaskRecord) × (changed : TaskRecord) × IsTouched t after target changed
            (new ∷ [])))

pub supersede-IsTouched :
    (ctx : RecordContext) (input : RecordCreateInput) (t mid : RecordedTask)
    (target new : TaskRecord) (id : String)
    → status_known target ≡ true
    → is_record_status_terminal target.status ≡ false
    → find (has_record_id id) t.records ≡ some target
    → supersede ctx input (some target) t ≡ ok mid
    → (changed : TaskRecord) × IsTouched t
        (record mid { records = mid.records ++ new ∷ [] })
        target
        changed
        (new ∷ [])
unfolding supersede
supersede-IsTouched ctx input t mid target new id known live e h =
    let needed = record_transition_requires_authority target.kind target.status superseded in
    elim (Result-cases (authority ctx t.task needed input.authorization_id input.authorization)) [
      | inr (error, a) ↦ ground arith
      | inl ((resolved, task), a) ↦
          let changed = superseded_by_new ctx resolved target in
          let same : record { task = task; records = put_record changed t.records } ≡ mid =
            ground arith in
          (
            changed,
            subst
                (λ x.
                  IsTouched t (record x { records = x.records ++ new ∷ [] }) target changed
                    (new ∷ []))
                same
                (record {
                  found = find_record_self id t.records target e;
                  same_id = refl;
                  records = refl;
                  change =
                      advanced-IsChange task target
                        (record target {
                          status = superseded;
                          superseded_by = some (ctx.call.fresh "record" 0);
                        })
                        transitioned
                        (some (concat ("Superseded by " ∷ ctx.call.fresh "record" 0 ∷ "." ∷ [])))
                        resolved ctx.call.at refl refl refl
                        (inr (allowed (supersede_allowed target.kind target.status known live)))
                        (inr (
                          authority-held ctx t.task task needed input.authorization_id resolved
                            input.authorization a));
                }),
          )
    ]
  where
    allowed :
        (is_record_transition_valid target.kind target.status superseded ≡ true)
          ⊎ ((target.kind ≡ question) × (target.status ≡ withdrawn))
        → (is_record_transition_valid target.kind target.status superseded ≡ true)
          ⊎ ((target.kind ≡ question) × (target.status ≡ withdrawn) × (superseded ≡ superseded))
    allowed (inl valid) = inl valid
    allowed (inr (k, w)) = inr (k, w, refl)
