-- ===== src/Scheduler/Claims.antt =====
-- When a claim starts a run, and what it leaves behind.
use latchkit.Base.{
  ℕ, ◌+◌, ◌*◌, ◌≤◌, ◌<◌, ◌≡◌, String, Bool, true, false, [], ◌∷◌, ◌++◌, Option, none, some, any,
  find, keep, length, arith, inl, inr, ok, Option-cases, Result-cases, eq_iff, find-holds,
}
use latchkit.Scheduler.Model.{
  ScheduleRun, Schedule, SchedulerState, Host, CallContext, Patch, blocked,
}
use latchkit.Scheduler.Validate.{is_running}
use latchkit.Scheduler.Operations.{
  has_schedule_id, mutate, read_scheduler_state, edit_schedule, edited, patched, validate_input,
}
use latchkit.Scheduler.Foreground.{claim, claim_found, claimed_run}
use latchkit.Scheduler.Runs.{length-slice_last, keep-slice_last_append, all-find, find-put_schedule}
use latchkit.Scheduler.Quarantine.{validate_input-candidate}
use latchkit.Scheduler.Sound.{
  IsBounded, accepts, accepts-IsBounded, read_scheduler_state-accepts, mutate-ran,
}

-- What a claim at a time finds in a schedule that it starts, and what it makes of it.
pub record IsStart (at : ℕ) (item s : Schedule) (run : ScheduleRun) : Type 0 where
  pub enabled : item.enabled ≡ true
  pub authorized : item.definition.authorization.execution_authorized ≡ true
  pub is_due : item.next_run_at ≤ at
  pub in_time : at < item.next_run_at + item.definition.every_minutes * 60000
  pub idle : any is_running item.runs ≡ false
  pub alone : keep is_running s.runs ≡ run ∷ []
  pub few_runs : length s.runs ≤ s.definition.limits.max_runs
  pub next_after : at + 60000 ≤ s.next_run_at
  pub next_within : s.next_run_at ≤ at + 604800000

claim_found-IsStart :
    (ctx : CallContext) (item s : Schedule) (run : ScheduleRun)
    → IsBounded item.definition
    → claim_found ctx item ≡ (some run, s)
    → is_running run ≡ true
    → IsStart ctx.at item s run
unfolding claim_found
claim_found-IsStart ctx item s run b h r = ground (
  arith,
  length-slice_last is_running item.definition.limits.max_runs
      (item.runs ++ claimed_run ctx true ∷ []),
  keep-slice_last_append is_running item.definition.limits.max_runs item.runs
      (claimed_run ctx true),
)

claim-IsStart :
    (ctx : CallContext) (stopped : Bool) (id : String) (state after : SchedulerState) (s : Schedule)
    (run : ScheduleRun)
    → ((item : Schedule)
        → find (has_schedule_id id) state.schedules ≡ some item
        → IsBounded item.definition)
    → claim ctx stopped id state ≡ ok (some (s, run), after)
    → is_running run ≡ true
    → (item : Schedule) × (find (has_schedule_id id) state.schedules ≡ some item)
      × IsStart ctx.at item s run
unfolding claim
claim-IsStart ctx true id state after s run bounded h r = cc
claim-IsStart ctx false id state after s run bounded h r =
    elim (Option-cases (find (has_schedule_id id) state.schedules)) [
      | inl e ↦ ground arith
      | inr (item, e) ↦ elim (Option-cases (claim_found ctx item).0) [
        | inl c ↦ ground arith
        | inr (found, c) ↦
            (item, e, claim_found-IsStart ctx item s run (bounded item e) (ground arith) r)
      ]
    ]

-- When a claim starts a run, the schedule that it read was enabled, authorized to execute, due, not
-- missed by a whole period, and without a running run; afterwards the new run is the only one running,
-- the schedule keeps no more runs than its limit, and it is due again between a minute and a week
-- later.
pub claim-starts :
    (host : Host) (ctx : CallContext) (stopped : Bool) (id : String) (file : Option SchedulerState)
    (written : SchedulerState) (s : Schedule) (run : ScheduleRun)
    → mutate host ctx (claim ctx stopped id) file ≡ ok (some (s, run), written)
    → is_running run ≡ true
    → (state : SchedulerState) × (item : Schedule) × (read_scheduler_state host ctx file ≡ ok state)
      × (find (has_schedule_id id) state.schedules ≡ some item)
      × IsStart ctx.at item s run
claim-starts host ctx stopped id file written s run h r =
    let (state, after, read, claimed, valid, stamp) =
      mutate-ran host ctx (claim ctx stopped id) file (some (s, run)) written h in
    let bounded = (λ (item : Schedule) (e : find (has_schedule_id id) state.schedules ≡ some item).
      accepts-IsBounded host item (
        all-find (accepts host) (has_schedule_id id) state.schedules item
          (read_scheduler_state-accepts host ctx file state read) e)) in
    let (item, e, start) = claim-IsStart ctx stopped id state after s run bounded claimed r in
    (state, item, read, e, start)

edit_schedule-unauthorized :
    (host : Host) (ctx : CallContext) (id : String) (patch : Patch) (state after : SchedulerState)
    (s : Schedule)
    → patch.authorization ≡ none
    → edit_schedule host ctx id patch state ≡ ok (s, after)
    → (find (has_schedule_id id) after.schedules ≡ some s)
      × (s.definition.authorization.execution_authorized ≡ false)
unfolding edit_schedule
edit_schedule-unauthorized host ctx id patch state after s none_given h =
    elim (Option-cases (find (has_schedule_id id) state.schedules)) [
      | inl e ↦ ground arith
      | inr (item, e) ↦
          elim (Result-cases (
            validate_input host ctx item.definition.target_project
              (patched item.definition patch))) [
                | inl (new, v) ↦
                    let same =
                      (eq_iff item.id id).0
                        (find-holds (has_schedule_id id) state.schedules item e) in
                    ground (
                      arith,
                      validate_input-candidate host ctx item.definition.target_project
                          (patched item.definition patch) new v,
                      find-put_schedule id (edited ctx item new) item state e same,
                    )
                | inr (error, v) ↦ ground arith
              ]
    ]

claim-unauthorized :
    (ctx : CallContext) (stopped : Bool) (id : String) (state after : SchedulerState)
    (item s : Schedule) (run : ScheduleRun)
    → find (has_schedule_id id) state.schedules ≡ some item
    → item.definition.authorization.execution_authorized ≡ false
    → claim ctx stopped id state ≡ ok (some (s, run), after)
    → (run.state ≡ blocked) × (s.enabled ≡ false)
unfolding claim claim_found
claim-unauthorized ctx stopped id state after item s run e a h = ground arith

-- After an edit that gives no authorization, the next claim of the schedule starts no provider: a run
-- that it records is blocked, and the schedule is disabled.
pub claim-edit_schedule :
    (host : Host) (ctx later : CallContext) (stopped : Bool) (id : String) (patch : Patch)
    (state mid after : SchedulerState) (s c : Schedule) (run : ScheduleRun)
    → patch.authorization ≡ none
    → edit_schedule host ctx id patch state ≡ ok (s, mid)
    → claim later stopped id mid ≡ ok (some (c, run), after)
    → (run.state ≡ blocked) × (c.enabled ≡ false)
claim-edit_schedule host ctx later stopped id patch state mid after s c run none_given edit h =
    let (found, unauthorized) =
      edit_schedule-unauthorized host ctx id patch state mid s none_given edit in
    claim-unauthorized later stopped id mid after s c run found unauthorized h
