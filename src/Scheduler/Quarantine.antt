-- ===== src/Scheduler/Quarantine.antt =====
-- A schedule whose process was left behind is not started again.
use latchkit.Base.{
  ◌≡◌, refl, String, Bool, true, List, [], ◌∷◌, Option, none, some, arith, inl, inr, ok,
  Result-cases, Bool-cases, all-append,
}
use latchkit.Scheduler.Model.{Schedule, SchedulerState, Host, CallContext, Input}
use latchkit.Scheduler.Validate.{validate_scheduler_state}
use latchkit.Scheduler.Operations.{
  Operation, mutate, create_schedule, edit_schedule, pause_schedule, resume_schedule,
  remove_schedule, cancel_schedule_run, validate_input, candidate, validation_state, push_schedule,
  read_scheduler_state, empty_scheduler_state, stamped, has_room,
}
use latchkit.Scheduler.Foreground.{recover, claim, finish, link_task}
use latchkit.Scheduler.Calls.{
  SchedulerCall, create, edit, pause, resume, remove, cancel, recovering, claiming, finishing,
  linking, written, file_after, file_after_all,
}
use latchkit.Scheduler.Kept.{
  is_quarantined, all_quarantined, Keeps, pause_schedule-Keeps, resume_schedule-Keeps,
  cancel_schedule_run-Keeps, remove_schedule-Keeps, edit_schedule-Keeps, recover-Keeps, claim-Keeps,
  finish-Keeps, link_task-Keeps,
}

abbrev pub file_quarantined : Option SchedulerState → Bool
file_quarantined none = true
file_quarantined (some state) = all_quarantined state

read_scheduler_state-Keeps :
    (host : Host) (ctx : CallContext) (file : Option SchedulerState) (state : SchedulerState)
    → file_quarantined file ≡ true
    → read_scheduler_state host ctx file ≡ ok state
    → all_quarantined state ≡ true
unfolding read_scheduler_state empty_scheduler_state
read_scheduler_state-Keeps host ctx none state q h = ground arith
read_scheduler_state-Keeps host ctx (some s) state q h =
    elim (Result-cases (validate_scheduler_state host s)) [
      | inl (passed, v) ↦ ground arith
      | inr (error, v) ↦ ground arith
    ]

mutate-Keeps :
    {A : Type 0} (host : Host) (ctx : CallContext) (operation : Operation A)
    (file : Option SchedulerState)
    → Keeps operation
    → file_quarantined file ≡ true
    → file_quarantined (written file (mutate host ctx operation file)) ≡ true
unfolding mutate
mutate-Keeps host ctx operation file keeps q =
    elim (Result-cases (read_scheduler_state host ctx file)) [
      | inr (error, r) ↦ rw r q
      | inl (state, r) ↦ elim (Result-cases (operation state)) [
        | inr (error, o) ↦ rw r (rw o q)
        | inl ((result, after), o) ↦
            elim (Result-cases (validate_scheduler_state host (stamped ctx after))) [
              | inr (error, v) ↦ rw r (rw o (rw v q))
              | inl (passed, v) ↦ elim (Bool-cases (has_room host (stamped ctx after))) [
                | inl room ↦ rw r (
                    rw o (
                      rw v (
                        rw room (
                          keeps state after result
                            (read_scheduler_state-Keeps host ctx file state q r) o))))
                | inr full ↦ rw r (rw o (rw v (rw full q)))
              ]
            ]
      ]
    ]

-- The candidate is what a valid input gives.
pub validate_input-candidate :
    (host : Host) (ctx : CallContext) (root : String) (input : Input) (created : Schedule)
    → validate_input host ctx root input ≡ ok created
    → created ≡ candidate host ctx root input
unfolding validate_input
validate_input-candidate host ctx root input created h =
    elim (Result-cases
      (validate_scheduler_state host (validation_state ctx (candidate host ctx root input)))) [
        | inl (passed, v) ↦ ground arith
        | inr (error, v) ↦ ground arith
      ]

push_schedule-Keeps :
    (created : Schedule) → is_quarantined created ≡ true → Keeps (push_schedule created)
push_schedule-Keeps created n state after result a h =
    ground (arith, all-append is_quarantined state.schedules (created ∷ []))

create_schedule-Keeps :
    (host : Host) (ctx : CallContext) (input : Input) (file : Option SchedulerState)
    → file_quarantined file ≡ true
    → file_quarantined (written file (create_schedule host ctx input file)) ≡ true
unfolding create_schedule
create_schedule-Keeps host ctx input file q =
    elim (Result-cases (validate_input host ctx ctx.root input)) [
      | inr (error, v) ↦ rw v q
      | inl (created, v) ↦ rw v (
          mutate-Keeps host ctx (push_schedule created) file
            (push_schedule-Keeps created
              (rw (validate_input-candidate host ctx ctx.root input created v) refl))
            q)
    ]

file_after-quarantined :
    (host : Host) (ctx : CallContext) (call : SchedulerCall) (file : Option SchedulerState)
    → file_quarantined file ≡ true
    → file_quarantined (file_after host ctx call file) ≡ true
unfolding file_after
file_after-quarantined host ctx (create input) file = create_schedule-Keeps host ctx input file
file_after-quarantined host ctx (edit id patch) file =
    mutate-Keeps host ctx (edit_schedule host ctx id patch) file
      (edit_schedule-Keeps host ctx id patch)
file_after-quarantined host ctx (pause id) file =
    mutate-Keeps host ctx (pause_schedule ctx id) file (pause_schedule-Keeps ctx id)
file_after-quarantined host ctx (resume id) file =
    mutate-Keeps host ctx (resume_schedule ctx id) file (resume_schedule-Keeps ctx id)
file_after-quarantined host ctx (remove id) file =
    mutate-Keeps host ctx (remove_schedule id) file (remove_schedule-Keeps id)
file_after-quarantined host ctx (cancel id) file =
    mutate-Keeps host ctx (cancel_schedule_run ctx id) file (cancel_schedule_run-Keeps ctx id)
file_after-quarantined host ctx (recovering active) file =
    mutate-Keeps host ctx (recover ctx active) file (recover-Keeps ctx active)
file_after-quarantined host ctx (claiming stopped id) file =
    mutate-Keeps host ctx (claim ctx stopped id) file (claim-Keeps ctx stopped id)
file_after-quarantined host ctx (finishing id run_id result verified) file =
    mutate-Keeps host ctx (finish ctx id run_id result verified) file
      (finish-Keeps ctx id run_id result verified)
file_after-quarantined host ctx (linking id run_id task_id stopped) file =
    mutate-Keeps host ctx (link_task id run_id task_id stopped) file
      (link_task-Keeps id run_id task_id stopped)

-- Whatever calls come, in whatever order and from whatever processes, starting where no schedule is
-- enabled with an interrupted run (as with no file), a schedule with an interrupted run is never
-- enabled.
pub file_after_all-quarantined :
    (host : Host) (calls : List (CallContext × SchedulerCall)) (file : Option SchedulerState)
    → file_quarantined file ≡ true
    → file_quarantined (file_after_all host calls file) ≡ true
file_after_all-quarantined host [] file q = q
file_after_all-quarantined host ((ctx, call) ∷ calls) file q =
    file_after_all-quarantined host calls (file_after host ctx call file)
      (file_after-quarantined host ctx call file q)
