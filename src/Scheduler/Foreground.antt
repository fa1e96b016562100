-- ===== src/Scheduler/Foreground.antt =====
-- scheduler/service.ts: the steps of the foreground scheduler. Each is the
-- function that `mutate` is given, so the lock orders them with the commands of other processes.
use latchkit.Base.{
  ℕ, ℤ, pos, zero, suc, ◌+◌, ◌-◌, ◌*◌, String, Bool, true, false, not, List, [], ◌∷◌, ◌++◌, Option,
  none, some, any, find, keep, length, map, update_first, is_some, eqb, leb, ltb, ◌==◌, ◌&&◌, ◌||◌,
  concat, if◌then◌else◌, ok, guard, or_fail, ◌>>=◌, ◌>>◌,
}
use latchkit.Scheduler.Model.{
  ScheduleRunState, running, completed, failed, timed_out, cancelled, blocked, interrupted,
  ScheduleRun, RunResult, Schedule, missing_run, run_active, CallContext, ProcessStatus, refused,
  timed_out_process, cancelled_process, exited, ProcessRunResult, status_text, stops_schedule,
}
use latchkit.Scheduler.Validate.{is_running, schedule_failure_code}
use latchkit.Scheduler.Operations.{
  Operation, schedule, put_schedule, has_schedule_id, next, due, or_else,
}

abbrev pub interrupt : ℕ → ScheduleRun → ScheduleRun
interrupt at run =
    if is_running run
    then record run {
      state = interrupted;
      ended_at = some at;
      reason = some "Foreground scheduler stopped before the owned run completed.";
    }
    else run

unfoldable pub clean_run : ℕ → Schedule → Schedule
clean_run at s =
    if any is_running s.runs
    then record s { enabled = false; runs = map (interrupt at) s.runs }
    else s

abbrev pub postpone_missed : ℕ → Schedule → Schedule
postpone_missed at s = if ltb s.next_run_at at then record s { next_run_at = next s at } else s

abbrev running_count : List Schedule → ℕ
running_count [] = 0
running_count (s ∷ rest) = length (keep is_running s.runs) + running_count rest

-- With the runs that this process still works on.
unfoldable pub recover : CallContext → List String → Operation ℕ
recover ctx active state = do
  guard (eqb (length active) 0) run_active
  ok (
    running_count state.schedules,
    record state {
      schedules = map (λ s. postpone_missed ctx.at (clean_run ctx.at s)) state.schedules;
    },
  )

abbrev pub drop {ℓ} : {A : Type ℓ} → ℕ → List A → List A
drop zero xs = xs
drop (suc n) [] = []
drop (suc n) (x ∷ xs) = drop n xs

-- `slice(-n)`.
abbrev pub slice_last {ℓ} : {A : Type ℓ} → ℕ → List A → List A
slice_last n xs = if eqb n 0 then xs else drop (length xs - n) xs

abbrev pub claimed_run : CallContext → Bool → ScheduleRun
claimed_run ctx true = record {
  id = ctx.fresh_id;
  task_id = none;
  cancel_requested_at = none;
  state = running;
  started_at = ctx.at;
  ended_at = none;
  reason = none;
  result = none;
}
claimed_run ctx false = record {
  id = ctx.fresh_id;
  task_id = none;
  cancel_requested_at = none;
  state = blocked;
  started_at = ctx.at;
  ended_at = some ctx.at;
  reason =
      some
        "Explicit host-local execution authorization is absent; no provider command was started.";
  result = none;
}

abbrev pub is_blocked : ScheduleRunState → Bool
is_blocked blocked = true
is_blocked _ = false

abbrev pub with_run : CallContext → Schedule → ScheduleRun → Schedule
with_run ctx s run = record s {
  next_run_at = next s ctx.at;
  runs = slice_last s.definition.limits.max_runs (s.runs ++ run ∷ []);
  enabled = not (is_blocked run.state) && s.enabled;
  updated_at = ctx.at;
}

abbrev pub postponed : CallContext → Schedule → Schedule
postponed ctx s = record s { next_run_at = next s ctx.at }

abbrev pub missed : ℕ → Schedule → Bool
missed at s = leb (s.definition.every_minutes * 60000) (at - s.next_run_at)

-- The claim of one schedule that was found.
unfoldable pub claim_found : CallContext → Schedule → Option ScheduleRun × Schedule
claim_found ctx s =
    let run = claimed_run ctx s.definition.authorization.execution_authorized in
    if not (s.enabled && due s ctx.at)
    then (none, s)
    else if missed ctx.at s || any is_running s.runs
    then (none, postponed ctx s)
    else (some run, with_run ctx s run)

unfoldable pub claim : CallContext → Bool → String → Operation (Option (Schedule × ScheduleRun))
claim ctx stopped id state =
    if stopped then ok (none, state) else elim (find (has_schedule_id id) state.schedules) [
      | none ↦ ok (none, state)
      | some s ↦
          let (run, after) = claim_found ctx s in
          elim run [
            | none ↦ ok (none, put_schedule after state)
            | some run ↦ ok (some (after, run), put_schedule after state)
          ]
    ]

abbrev pub is_cancelled : ProcessStatus → Bool
is_cancelled cancelled_process = true
is_cancelled _ = false

abbrev pub exited_with_zero : Option ℤ → Bool
exited_with_zero (some (pos zero)) = true
exited_with_zero _ = false

-- The table of `finish`, without the cancellation.
unfoldable pub ended_state : ProcessStatus → Option ℤ → Bool → ScheduleRunState
ended_state timed_out_process code verified = timed_out
ended_state exited code verified =
    if exited_with_zero code then if verified then completed else blocked else failed
ended_state refused code verified = blocked
ended_state _ code verified = failed

unfoldable pub finished_state : ScheduleRun → ProcessRunResult → Bool → ScheduleRunState
finished_state run result verified =
    if is_some run.cancel_requested_at || is_cancelled result.status
    then cancelled
    else ended_state result.status result.exit_code verified

abbrev pub is_given : Option String → Bool
is_given none = false
is_given (some code) = not (code == "")

unfoldable pub finish_reason : ScheduleRunState → ProcessRunResult → String
finish_reason state result =
    if is_given result.code
    then concat (
        "Scheduled execution ended with "
        ∷ schedule_failure_code result.code
        ∷ "; inspect the linked task before resuming."
        ∷ [])
    else if is_blocked state
    then "Provider session did not produce verified task evidence; inspect the linked task before resuming."
    else concat ("Owned process ended with " ∷ status_text result.status ∷ "." ∷ [])

abbrev pub finished_result : ProcessRunResult → RunResult
finished_result result = record {
  status = status_text result.status;
  exit_code = result.exit_code;
  output_bytes = or_else result.output_bytes 0;
  code = if is_given result.code then some (schedule_failure_code result.code) else none;
}

abbrev pub finished_run : ℕ → ProcessRunResult → Bool → ScheduleRun → ScheduleRun
finished_run at result verified run = record run {
  state = finished_state run result verified;
  ended_at = some at;
  reason = some (finish_reason (finished_state run result verified) result);
  result = some (finished_result result);
}

abbrev pub has_run_id : String → ScheduleRun → Bool
has_run_id id run = run.id == id

abbrev pub with_finished : ℕ → ScheduleRun → Schedule → Schedule
with_finished at run s = record s {
  runs = update_first (has_run_id run.id) (λ _. run) s.runs;
  updated_at = at;
  enabled = not (stops_schedule run.state) && s.enabled;
}

unfoldable pub finish : CallContext → String → String → ProcessRunResult → Bool → Operation Schedule
finish ctx id run_id result verified state = do
  item ← schedule state id
  elim (find (has_run_id run_id) item.runs) [
    | none ↦ ok (item, state)
    | some run ↦
        let after = with_finished ctx.at (finished_run ctx.at result verified run) item in
        if is_running run then ok (after, put_schedule after state) else ok (item, state)
  ]

abbrev pub linked : String → ScheduleRun → ScheduleRun
linked task_id run = record run { task_id = some task_id }

-- `execute` stores the task that it made, and whether a cancellation was asked for before.
unfoldable pub link_task : String → String → String → Bool → Operation Bool
link_task id run_id task_id stopped state = do
  item ← schedule state id
  run ← or_fail (find (has_run_id run_id) item.runs) missing_run
  ok (
    is_some run.cancel_requested_at || stopped,
    put_schedule
        (record item { runs = update_first (has_run_id run_id) (linked task_id) item.runs }) state,
  )
