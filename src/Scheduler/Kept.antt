-- ===== src/Scheduler/Kept.antt =====
-- What the operations on the schedules keep: none is enabled with an interrupted run.
use latchkit.Base.{
  ℕ, ℤ, ◌≡◌, refl, String, update_first, Bool, true, false, not, ◌&&◌, List, [], ◌∷◌, ◌++◌, Option,
  some, any, all, find, map, arith, inl, inr, ok, Option-cases, Result-cases,
}
use latchkit.Scheduler.Model.{
  ScheduleRun, Schedule, SchedulerState, Host, CallContext, Patch, ProcessRunResult, ProcessStatus,
  is_interrupted_run,
}
use latchkit.Scheduler.Validate.{is_running}
use latchkit.Scheduler.Operations.{
  Operation, put_schedule, has_schedule_id, is_interrupted, patched, edit_schedule, pause_schedule,
  resume_schedule, remove_schedule, cancel_schedule_run, splice, validate_input, request_cancel,
  paused, resumed, edited, cancelled,
}
use latchkit.Scheduler.Foreground.{
  recover, clean_run, interrupt, postpone_missed, claim, claim_found, claimed_run, with_run, finish,
  finished_state, ended_state, finished_run, with_finished, link_task, linked, has_run_id,
}
use latchkit.Scheduler.Runs.{
  all-update_first, all-find, any-append, any-slice_last, any-update_first, any-update_last,
}

-- Enabled only without an interrupted run.
abbrev pub is_quarantined : Schedule → Bool
is_quarantined s = not (s.enabled && any is_interrupted s.runs)

abbrev pub all_quarantined : SchedulerState → Bool
all_quarantined state = all is_quarantined state.schedules

-- What an operation on the state has to keep.
abbrev pub Keeps : {A : Type 0} → Operation A → Type 0
Keeps {A} operation =
    (state after : SchedulerState) (result : A)
    → all_quarantined state ≡ true
    → operation state ≡ ok (result, after)
    → all_quarantined after ≡ true

put-Keeps :
    (state : SchedulerState) (s : Schedule)
    → is_quarantined s ≡ true
    → all_quarantined state ≡ true
    → all_quarantined (put_schedule s state) ≡ true
put-Keeps state s n a = all-update_first is_quarantined (has_schedule_id s.id) s state.schedules n a

found :
    (state : SchedulerState) (id : String) (s : Schedule)
    → all_quarantined state ≡ true
    → find (has_schedule_id id) state.schedules ≡ some s
    → is_quarantined s ≡ true
found state id s a e = all-find is_quarantined (has_schedule_id id) state.schedules s a e

pub pause_schedule-Keeps : (ctx : CallContext) (id : String) → Keeps (pause_schedule ctx id)
unfolding pause_schedule
pause_schedule-Keeps ctx id state after result a h =
    elim (Option-cases (find (has_schedule_id id) state.schedules)) [
      | inl e ↦ ground arith
      | inr (s, e) ↦ ground (arith, put-Keeps state (paused ctx s) refl a)
    ]

pub resume_schedule-Keeps : (ctx : CallContext) (id : String) → Keeps (resume_schedule ctx id)
unfolding resume_schedule
resume_schedule-Keeps ctx id state after result a h =
    elim (Option-cases (find (has_schedule_id id) state.schedules)) [
      | inl e ↦ ground arith
      | inr (s, e) ↦ ground (arith, put-Keeps state (resumed ctx s))
    ]

request_cancel-interrupted :
    (at : ℕ) (run : ScheduleRun) → is_interrupted (request_cancel at run) ≡ is_interrupted run
request_cancel-interrupted at run = refl

pub cancel_schedule_run-Keeps :
    (ctx : CallContext) (id : String) → Keeps (cancel_schedule_run ctx id)
unfolding cancel_schedule_run
cancel_schedule_run-Keeps ctx id state after result a h =
    elim (Option-cases (find (has_schedule_id id) state.schedules)) [
      | inl e ↦ ground arith
      | inr (s, e) ↦ ground (
        arith,
        found state id s a e,
        put-Keeps state (cancelled ctx s),
        any-update_last is_interrupted is_running (request_cancel ctx.at) s.runs
            (request_cancel-interrupted ctx.at),
      )
    ]

splice-Keeps :
    (id : String) (items : List Schedule)
    → all is_quarantined items ≡ true
    → all is_quarantined (splice id items) ≡ true
splice-Keeps id [] a = refl
splice-Keeps id (s ∷ rest) a = ground (arith, splice-Keeps id rest)

pub remove_schedule-Keeps : (id : String) → Keeps (remove_schedule id)
unfolding remove_schedule
remove_schedule-Keeps id state after result a h =
    elim (Option-cases (find (has_schedule_id id) state.schedules)) [
      | inl e ↦ ground arith
      | inr (s, e) ↦ ground (arith, splice-Keeps id state.schedules a)
    ]

pub edit_schedule-Keeps :
    (host : Host) (ctx : CallContext) (id : String) (patch : Patch)
    → Keeps (edit_schedule host ctx id patch)
unfolding edit_schedule
edit_schedule-Keeps host ctx id patch state after result a h =
    elim (Option-cases (find (has_schedule_id id) state.schedules)) [
      | inl e ↦ ground arith
      | inr (s, e) ↦
          elim (Result-cases
            (validate_input host ctx s.definition.target_project (patched s.definition patch))) [
              | inl (new, v) ↦
                  ground (arith, found state id s a e, put-Keeps state (edited ctx s new))
              | inr (error, v) ↦ ground arith
            ]
    ]

interrupt-idle :
    (at : ℕ) (runs : List ScheduleRun)
    → any is_running runs ≡ false
    → map (interrupt at) runs ≡ runs
interrupt-idle at [] h = refl
interrupt-idle at (run ∷ runs) h = ground (arith, interrupt-idle at runs)

recovered-Keeps :
    (at : ℕ) (items : List Schedule)
    → all is_quarantined items ≡ true
    → all is_quarantined (map (λ s. postpone_missed at (clean_run at s)) items) ≡ true
unfolding clean_run
recovered-Keeps at [] a = refl
recovered-Keeps at (s ∷ rest) a = ground (arith, recovered-Keeps at rest)

pub recover-Keeps : (ctx : CallContext) (active : List String) → Keeps (recover ctx active)
unfolding recover clean_run
recover-Keeps ctx active state after result a h =
    ground (arith, recovered-Keeps ctx.at state.schedules a)

with_run-quarantined :
    (ctx : CallContext) (s : Schedule) (authorized : Bool)
    → is_quarantined s ≡ true
    → s.enabled ≡ true
    → is_quarantined (with_run ctx s (claimed_run ctx authorized)) ≡ true
with_run-quarantined ctx s true q e = ground (
  arith,
  any-slice_last is_interrupted s.definition.limits.max_runs (s.runs ++ claimed_run ctx true ∷ []),
  any-append is_interrupted s.runs (claimed_run ctx true ∷ []),
)
with_run-quarantined ctx s false q e = refl

claim_found-quarantined :
    (ctx : CallContext) (s : Schedule)
    → is_quarantined s ≡ true
    → is_quarantined (claim_found ctx s).1 ≡ true
unfolding claim_found
claim_found-quarantined ctx s q =
    ground (arith, with_run-quarantined ctx s s.definition.authorization.execution_authorized q)

pub claim-Keeps : (ctx : CallContext) (stopped : Bool) (id : String) → Keeps (claim ctx stopped id)
unfolding claim
claim-Keeps ctx stopped id state after result a h =
    elim (Option-cases (find (has_schedule_id id) state.schedules)) [
      | inl e ↦ ground arith
      | inr (s, e) ↦ ground (
        arith,
        put-Keeps state (claim_found ctx s).1 (claim_found-quarantined ctx s (found state id s a e))
            a,
      )
    ]

ended_state-interrupted :
    (status : ProcessStatus) (code : Option ℤ) (verified : Bool)
    → is_interrupted_run (ended_state status code verified) ≡ false
unfolding ended_state
ended_state-interrupted status code verified = ground arith

finished_state-interrupted :
    (run : ScheduleRun) (result : ProcessRunResult) (verified : Bool)
    → is_interrupted_run (finished_state run result verified) ≡ false
unfolding finished_state
finished_state-interrupted run result verified =
    ground (arith, ended_state-interrupted result.status result.exit_code verified)

with_finished-quarantined :
    (at : ℕ) (run : ScheduleRun) (s : Schedule)
    → is_interrupted run ≡ false
    → is_quarantined s ≡ true
    → is_quarantined (with_finished at run s) ≡ true
with_finished-quarantined at run s i q =
    ground (arith, any-update_first is_interrupted (has_run_id run.id) run s.runs i)

pub finish-Keeps :
    (ctx : CallContext) (id run_id : String) (result : ProcessRunResult) (verified : Bool)
    → Keeps (finish ctx id run_id result verified)
unfolding finish
finish-Keeps ctx id run_id result verified state after item a h =
    elim (Option-cases (find (has_schedule_id id) state.schedules)) [
      | inl e ↦ ground arith
      | inr (s, e) ↦ elim (Option-cases (find (has_run_id run_id) s.runs)) [
        | inl r ↦ ground arith
        | inr (run, r) ↦ ground (
          arith,
          put-Keeps state (with_finished ctx.at (finished_run ctx.at result verified run) s)
              (with_finished-quarantined ctx.at (finished_run ctx.at result verified run) s
                (finished_state-interrupted run result verified) (found state id s a e))
              a,
        )
      ]
    ]

linked-interrupted :
    (run_id task_id : String) (runs : List ScheduleRun)
    → any is_interrupted (update_first (has_run_id run_id) (linked task_id) runs)
      ≡ any is_interrupted runs
linked-interrupted run_id task_id [] = refl
linked-interrupted run_id task_id (run ∷ runs) =
    ground (arith, linked-interrupted run_id task_id runs)

abbrev with_link : String → String → Schedule → Schedule
with_link run_id task_id s = record s {
  runs = update_first (has_run_id run_id) (linked task_id) s.runs;
}

pub link_task-Keeps :
    (id run_id task_id : String) (stopped : Bool) → Keeps (link_task id run_id task_id stopped)
unfolding link_task
link_task-Keeps id run_id task_id stopped state after result a h =
    elim (Option-cases (find (has_schedule_id id) state.schedules)) [
      | inl e ↦ ground arith
      | inr (s, e) ↦ elim (Option-cases (find (has_run_id run_id) s.runs)) [
        | inl r ↦ ground arith
        | inr (run, r) ↦ ground (
          arith,
          linked-interrupted run_id task_id s.runs,
          put-Keeps state (with_link run_id task_id s),
          found state id s a e,
        )
      ]
    ]
