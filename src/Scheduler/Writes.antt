-- ===== src/Scheduler/Writes.antt =====
-- The end of a run can be written, unless the file gets too large.
use latchkit.Base.{
  ℕ, ◌≤◌, ◌<◌, ◌≡◌, refl, sym, subst, ap, String, Bool, true, false, not, ◌&&◌, List, [], ◌∷◌,
  Option, some, all, find, keep, length, update_first, leb, ◌==◌, arith, inl, inr, ok, Option-cases,
  Bool-cases, Result-cases, eq_iff, find-holds, contains, err, if◌then◌else◌,
}
use latchkit.Scheduler.Model.{
  ScheduleRun, Schedule, SchedulerState, Host, CallContext, ProcessRunResult, stops_schedule,
  invalid,
}
use latchkit.Scheduler.Validate.{
  is_running, runs_valid, validate_run, run_ids, result_valid, is_safe_code, max_safe_integer,
  validate_scheduler_state,
}
use latchkit.Scheduler.Operations.{
  has_schedule_id, mutate, read_scheduler_state, put_schedule, or_else, stamped, Operation,
  has_room,
}
use latchkit.Scheduler.Foreground.{
  finish, finished_state, finished_run, finished_result, with_finished, has_run_id,
}
use latchkit.Scheduler.Runs.{all-find, all-update_first}
use latchkit.Scheduler.Sound.{
  is_ok, accepts, accepts-runs, accepts-runs_valid, fresh_ids, read_scheduler_state-valid,
  validate_scheduler_state-accepts, validate_schedules_iff,
}
use latchkit.Scheduler.Endings.{finished_state-idle}
use latchkit.Scheduler.Texts.{schedule_failure_code-known, status-text, finish_reason-text}

-- What the system gives for a process: safe integers.
abbrev pub is_safe_result : ProcessRunResult → Bool
is_safe_result result =
    is_safe_code result.exit_code && leb (or_else result.output_bytes 0) max_safe_integer

finished_result-valid :
    (result : ProcessRunResult)
    → is_safe_result result ≡ true
    → result_valid (finished_result result) ≡ true
unfolding result_valid
finished_result-valid result safe =
    ground (arith, status-text result.status, schedule_failure_code-known result.code)

finished_run-valid :
    (at : ℕ) (result : ProcessRunResult) (verified : Bool) (run : ScheduleRun)
    → is_safe_result result ≡ true
    → validate_run run ≡ true
    → validate_run (finished_run at result verified run) ≡ true
unfolding validate_run
finished_run-valid at result verified run safe v = ground (
  arith,
  finished_result-valid result safe,
  finished_state-idle run result verified,
  finish_reason-text (finished_state run result verified) result,
)

length-update_first :
    (id : String) (new : ScheduleRun) (runs : List ScheduleRun)
    → length (update_first (has_run_id id) (λ _. new) runs) ≡ length runs
length-update_first id new [] = refl
length-update_first id new (run ∷ runs) = ground (arith, length-update_first id new runs)

run_ids-update_first :
    (new : ScheduleRun) (runs : List ScheduleRun)
    → run_ids (update_first (has_run_id new.id) (λ _. new) runs) ≡ run_ids runs
run_ids-update_first new [] = refl
run_ids-update_first new (run ∷ runs) =
    ground (arith, run_ids-update_first new runs, eq_iff run.id new.id)

running-update_first :
    (id : String) (new : ScheduleRun) (runs : List ScheduleRun)
    → is_running new ≡ false
    → length (keep is_running (update_first (has_run_id id) (λ _. new) runs))
      ≤ length (keep is_running runs)
running-update_first id new [] i = omega arith
running-update_first id new (run ∷ runs) i = ground (arith, running-update_first id new runs i)

finished-runs_valid :
    (new : ScheduleRun) (runs : List ScheduleRun)
    → validate_run new ≡ true
    → is_running new ≡ false
    → runs_valid runs ≡ true
    → runs_valid (update_first (has_run_id new.id) (λ _. new) runs) ≡ true
unfolding runs_valid
finished-runs_valid new runs v i h = ground (
  arith,
  length-update_first new.id new runs,
  run_ids-update_first new runs,
  running-update_first new.id new runs i,
  all-update_first validate_run (has_run_id new.id) new runs v,
)

runs_valid-runs : (runs : List ScheduleRun) → runs_valid runs ≡ true → all validate_run runs ≡ true
unfolding runs_valid
runs_valid-runs runs v = ground arith

with_finished-accepted :
    (host : Host) (at : ℕ) (result : ProcessRunResult) (verified : Bool) (run : ScheduleRun)
    (s : Schedule)
    → is_safe_result result ≡ true
    → find (has_run_id run.id) s.runs ≡ some run
    → accepts host s ≡ true
    → accepts host (with_finished at (finished_run at result verified run) s) ≡ true
with_finished-accepted host at result verified run s safe f a =
    let after = finished_run at result verified run in
    accepts-runs host s (update_first (has_run_id run.id) (λ _. after) s.runs)
      (not (stops_schedule after.state) && s.enabled) at a
      (finished-runs_valid after s.runs
        (finished_run-valid at result verified run safe (
          all-find validate_run (has_run_id run.id) s.runs run
            (runs_valid-runs s.runs (accepts-runs_valid host s a)) f))
        (finished_state-idle run result verified) (accepts-runs_valid host s a))

fresh_ids-put :
    (seen : List String) (s : Schedule) (items : List Schedule)
    → fresh_ids seen (update_first (has_schedule_id s.id) (λ _. s) items) ≡ fresh_ids seen items
fresh_ids-put seen s [] = refl
fresh_ids-put seen s (item ∷ items) = elim (Bool-cases (item.id == s.id)) [
  | inl e ↦
      let same = (eq_iff item.id s.id).0 e in
      ground (
        arith,
        subst (λ x. fresh_ids (x ∷ seen) items ≡ fresh_ids (item.id ∷ seen) items) same refl,
        ap (contains seen) same,
      )
  | inr e ↦ ground (arith, fresh_ids-put (item.id ∷ seen) s items)
]

length-put :
    (s : Schedule) (items : List Schedule)
    → length (update_first (has_schedule_id s.id) (λ _. s) items) ≡ length items
length-put s [] = refl
length-put s (item ∷ items) = ground (arith, length-put s items)

put_schedule-accepted :
    (host : Host) (ctx : CallContext) (s : Schedule) (state : SchedulerState)
    → accepts host s ≡ true
    → is_ok (validate_scheduler_state host state) ≡ true
    → state.revision < max_safe_integer
    → is_ok (validate_scheduler_state host (stamped ctx (put_schedule s state))) ≡ true
unfolding validate_scheduler_state
put_schedule-accepted host ctx s state a v room = ground (
  arith,
  validate_schedules_iff host [] state.schedules,
  validate_schedules_iff host [] (update_first (has_schedule_id s.id) (λ _. s) state.schedules),
  fresh_ids-put [] s state.schedules,
  length-put s state.schedules,
  all-update_first (accepts host) (has_schedule_id s.id) s state.schedules a,
)

stamped-accepted :
    (host : Host) (ctx : CallContext) (state : SchedulerState)
    → is_ok (validate_scheduler_state host state) ≡ true
    → state.revision < max_safe_integer
    → is_ok (validate_scheduler_state host (stamped ctx state)) ≡ true
unfolding validate_scheduler_state
stamped-accepted host ctx state v room = ground arith

mutate-writes :
    {A : Type 0} (host : Host) (ctx : CallContext) (operation : Operation A)
    (file : Option SchedulerState) (state after : SchedulerState) (result : A)
    → read_scheduler_state host ctx file ≡ ok state
    → operation state ≡ ok (result, after)
    → is_ok (validate_scheduler_state host (stamped ctx after)) ≡ true
    → mutate host ctx operation file
      ≡ (if has_room host (stamped ctx after) then ok (result, stamped ctx after) else err invalid)
unfolding mutate
mutate-writes host ctx operation file state after result r o v =
    elim (Result-cases (validate_scheduler_state host (stamped ctx after))) [
      | inl (passed, w) ↦ elim (Bool-cases (has_room host (stamped ctx after))) [
        | inl room ↦ rw r (rw o (rw w (rw room refl)))
        | inr full ↦ rw r (rw o (rw w (rw full refl)))
      ]
      | inr (error, w) ↦ ground arith
    ]

finish-accepted :
    (host : Host) (ctx : CallContext) (id run_id : String) (result : ProcessRunResult)
    (verified : Bool) (state : SchedulerState) (item : Schedule)
    → is_ok (validate_scheduler_state host state) ≡ true
    → find (has_schedule_id id) state.schedules ≡ some item
    → state.revision < max_safe_integer
    → is_safe_result result ≡ true
    → (s : Schedule) × (after : SchedulerState) × (finish ctx id run_id result verified state
        ≡ ok (s, after))
      × (is_ok (validate_scheduler_state host (stamped ctx after)) ≡ true)
unfolding finish
finish-accepted host ctx id run_id result verified state item v e room safe =
    let accepted =
      all-find (accepts host) (has_schedule_id id) state.schedules item
        (validate_scheduler_state-accepts host state v) e in
    elim (Option-cases (find (has_run_id run_id) item.runs)) [
      | inl r ↦ (item, state, ground arith, stamped-accepted host ctx state v room)
      | inr (run, r) ↦ elim (Bool-cases (is_running run)) [
        | inr over ↦ (item, state, ground arith, stamped-accepted host ctx state v room)
        | inl live ↦
            let same = (eq_iff run.id run_id).0 (find-holds (has_run_id run_id) item.runs run r) in
            let done = with_finished ctx.at (finished_run ctx.at result verified run) item in
            (
              done,
              put_schedule done state,
              ground arith,
              put_schedule-accepted host ctx done state
                  (with_finished-accepted host ctx.at result verified run item safe
                    (subst (λ x. find (has_run_id x) item.runs ≡ some run) (sym same) r) accepted)
                  v room,
            )
      ]
    ]

-- Only the size of the file can refuse the end of a run: where the file was read, the schedule is in
-- it, its revision has not reached the largest safe integer, and the exit code and the output size are
-- safe integers, `finish` succeeds, whatever the result of the process, and its write succeeds exactly
-- when the text of the new state takes at most 4 MiB.
pub finish-writes :
    (host : Host) (ctx : CallContext) (id run_id : String) (result : ProcessRunResult)
    (verified : Bool) (state : SchedulerState) (item : Schedule)
    → read_scheduler_state host ctx (some state) ≡ ok state
    → find (has_schedule_id id) state.schedules ≡ some item
    → state.revision < max_safe_integer
    → is_safe_result result ≡ true
    → (s : Schedule) × (after : SchedulerState) × (finish ctx id run_id result verified state
        ≡ ok (s, after))
      × (mutate host ctx (finish ctx id run_id result verified) (some state) ≡ (
          if leb (host.size (stamped ctx after)) 4194304
          then ok (s, stamped ctx after)
          else err invalid))
finish-writes host ctx id run_id result verified state item r e room safe =
    let (s, after, o, w) =
      finish-accepted host ctx id run_id result verified state item
        (read_scheduler_state-valid host ctx state r) e room safe in
    (
      s,
      after,
      o,
      mutate-writes host ctx (finish ctx id run_id result verified) (some state) state after s r o
          w,
    )
