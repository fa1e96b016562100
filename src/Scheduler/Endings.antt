-- ===== src/Scheduler/Endings.antt =====
-- How runs end: a requested cancellation wins, and a run that has ended stays as it is.
use latchkit.Base.{
  ℕ, ℤ, ◌≤◌, ◌≡◌, refl, sym, subst, ◌∙◌, String, Bool, true, false, not, ◌||◌, List, [], ◌∷◌,
  Option, some, any, all, find, keep, length, update_first, is_some, arith, inl, inr, ok,
  Option-cases, Bool-cases, Result-cases, eq_iff, find-holds,
}
use latchkit.Scheduler.Model.{
  ScheduleRun, Schedule, SchedulerState, Host, CallContext, ProcessRunResult, cancelled,
  ProcessStatus, is_running_run,
}
use latchkit.Scheduler.Validate.{is_running, runs_valid, validate_scheduler_state}
use latchkit.Scheduler.Operations.{
  has_schedule_id, mutate, read_scheduler_state, put_schedule, cancel_schedule_run, request_cancel,
  update_last, cancelled as asked_schedule,
}
use latchkit.Scheduler.Foreground.{
  finish, finished_state, ended_state, finished_run, with_finished, has_run_id,
}
use latchkit.Scheduler.Runs.{all-find, find-update_first, find-put_schedule}
use latchkit.Scheduler.Sound.{accepts, accepts-runs_valid, read_scheduler_state-accepts, mutate-ran}

-- Not running, or asked to cancel.
abbrev is_asked : ScheduleRun → Bool
is_asked run = not (is_running run) || is_some run.cancel_requested_at

any-keep :
    (runs : List ScheduleRun) → any is_running runs ≡ true → 1 ≤ length (keep is_running runs)
any-keep [] a = cc
any-keep (run ∷ runs) a = ground (arith, any-keep runs)

idle-is_asked : (runs : List ScheduleRun) → any is_running runs ≡ false → all is_asked runs ≡ true
idle-is_asked [] a = refl
idle-is_asked (run ∷ runs) a = ground (arith, idle-is_asked runs)

update_last-is_asked :
    (at : ℕ) (runs : List ScheduleRun)
    → length (keep is_running runs) ≤ 1
    → all is_asked (update_last is_running (request_cancel at) runs) ≡ true
update_last-is_asked at [] l = refl
update_last-is_asked at (run ∷ runs) l =
    ground (arith, any-keep runs, idle-is_asked runs, update_last-is_asked at runs)

ended_state-idle :
    (status : ProcessStatus) (code : Option ℤ) (verified : Bool)
    → is_running_run (ended_state status code verified) ≡ false
unfolding ended_state
ended_state-idle status code verified = ground arith

pub finished_state-idle :
    (run : ScheduleRun) (result : ProcessRunResult) (verified : Bool)
    → is_running_run (finished_state run result verified) ≡ false
unfolding finished_state
finished_state-idle run result verified =
    ground (arith, ended_state-idle result.status result.exit_code verified)

-- The schedule with the run that `finish` ends.
abbrev finished : ℕ → ProcessRunResult → Bool → ScheduleRun → Schedule → Schedule
finished at result verified run item = with_finished at (finished_run at result verified run) item

finish-cancelled :
    (ctx : CallContext) (id run_id : String) (result : ProcessRunResult) (verified : Bool)
    (state after : SchedulerState) (c s : Schedule) (run : ScheduleRun)
    → find (has_schedule_id id) state.schedules ≡ some c
    → find (has_run_id run_id) c.runs ≡ some run
    → is_running run ≡ true
    → is_some run.cancel_requested_at ≡ true
    → finish ctx id run_id result verified state ≡ ok (s, after)
    → (ended : ScheduleRun) × (find (has_run_id run_id) s.runs ≡ some ended)
      × (ended.state ≡ cancelled)
      × (s.enabled ≡ c.enabled)
unfolding finish finished_state
finish-cancelled ctx id run_id result verified state after c s run e r live asked h =
    let same = (eq_iff run.id run_id).0 (find-holds (has_run_id run_id) c.runs run r) in
    let ended = finished_run ctx.at result verified run in
    (
      ended,
      ground (
        arith,
        find-update_first run_id ended run c.runs r same,
        subst
            (λ x.
              find (has_run_id run_id) (update_first (has_run_id x) (λ _. ended) c.runs)
              ≡ some ended)
            (sym same) (find-update_first run_id ended run c.runs r same),
      ),
      ground arith,
      ground arith,
    )

read_scheduler_state-some :
    (host : Host) (ctx : CallContext) (mid state : SchedulerState)
    → read_scheduler_state host ctx (some mid) ≡ ok state
    → state ≡ mid
unfolding read_scheduler_state
read_scheduler_state-some host ctx mid state h =
    elim (Result-cases (validate_scheduler_state host mid)) [
      | inl (passed, v) ↦ ground arith
      | inr (error, v) ↦ ground arith
    ]

cancel_schedule_run-asks :
    (ctx : CallContext) (id : String) (state after : SchedulerState) (c : Schedule)
    → ((item : Schedule)
        → find (has_schedule_id id) state.schedules ≡ some item
        → runs_valid item.runs ≡ true)
    → cancel_schedule_run ctx id state ≡ ok ((true, c), after)
    → (find (has_schedule_id id) after.schedules ≡ some c) × (all is_asked c.runs ≡ true)
unfolding cancel_schedule_run runs_valid
cancel_schedule_run-asks ctx id state after c valid h =
    elim (Option-cases (find (has_schedule_id id) state.schedules)) [
      | inl e ↦ ground arith
      | inr (item, e) ↦
          let same =
            (eq_iff item.id id).0 (find-holds (has_schedule_id id) state.schedules item e) in
          ground (
            arith,
            valid item e,
            update_last-is_asked ctx.at item.runs,
            find-put_schedule id (asked_schedule ctx item) item state e same,
          )
    ]

-- Once the cancellation of a running run is written, the run ends as cancelled, with whatever result
-- its process and its task finish, and the end does not disable the schedule.
pub finish-cancel_wins :
    (host : Host) (ctx later : CallContext) (id run_id : String) (result : ProcessRunResult)
    (verified : Bool) (file : Option SchedulerState) (mid after : SchedulerState) (c s : Schedule)
    (run : ScheduleRun)
    → mutate host ctx (cancel_schedule_run ctx id) file ≡ ok ((true, c), mid)
    → find (has_run_id run_id) c.runs ≡ some run
    → is_running run ≡ true
    → mutate host later (finish later id run_id result verified) (some mid) ≡ ok (s, after)
    → (ended : ScheduleRun) × (find (has_run_id run_id) s.runs ≡ some ended)
      × (ended.state ≡ cancelled)
      × (s.enabled ≡ c.enabled)
finish-cancel_wins host ctx later id run_id result verified file mid after c s run h r live f =
    let (state, asked_state, read, op, valid, stamp) =
      mutate-ran host ctx (cancel_schedule_run ctx id) file (true, c) mid h in
    let (state', finished_state', read', op', valid', stamp') =
      mutate-ran host later (finish later id run_id result verified) (some mid) s after f in
    let (found, asked) =
      cancel_schedule_run-asks ctx id state asked_state c
        (λ item e. accepts-runs_valid host item (
          all-find (accepts host) (has_schedule_id id) state.schedules item
            (read_scheduler_state-accepts host ctx file state read) e))
        op in
    let same = read_scheduler_state-some host later mid state' read' in
    finish-cancelled later id run_id result verified state' finished_state' c s run
      (subst (λ m. find (has_schedule_id id) m.schedules ≡ some c) (sym (same ∙ stamp)) found) r
      live (ground (arith, all-find is_asked (has_run_id run_id) c.runs run asked r)) op'

finish-again :
    (later : CallContext) (id run_id : String) (result : ProcessRunResult) (verified : Bool)
    (state : SchedulerState) (s : Schedule) (run : ScheduleRun)
    → find (has_schedule_id id) state.schedules ≡ some s
    → find (has_run_id run_id) s.runs ≡ some run
    → is_running run ≡ false
    → finish later id run_id result verified state ≡ ok (s, state)
unfolding finish
finish-again later id run_id result verified state s run e r over = ground arith

-- A run ends once: whatever a second end of the same run reports, it changes nothing of what the first
-- one left.
pub finish-finish :
    (ctx later : CallContext) (id run_id : String) (result next : ProcessRunResult)
    (verified verified_next : Bool) (state after : SchedulerState) (s : Schedule)
    → finish ctx id run_id result verified state ≡ ok (s, after)
    → finish later id run_id next verified_next after ≡ ok (s, after)
unfolding finish finished_state
finish-finish ctx later id run_id result next verified verified_next state after s h =
    elim (Option-cases (find (has_schedule_id id) state.schedules)) [
      | inl e ↦ ground arith
      | inr (item, e) ↦ elim (Option-cases (find (has_run_id run_id) item.runs)) [
        | inl r ↦ ground arith
        | inr (run, r) ↦ elim (Bool-cases (is_running run)) [
          | inr over ↦ ground arith
          | inl live ↦
              let same =
                (eq_iff run.id run_id).0 (find-holds (has_run_id run_id) item.runs run r) in
              let same_item =
                (eq_iff item.id id).0 (find-holds (has_schedule_id id) state.schedules item e) in
              let ended = finished_run ctx.at result verified run in
              let done = finished ctx.at result verified run item in
              subst (λ p. finish later id run_id next verified_next p.1 ≡ ok p) (ground arith)
                (finish-again later id run_id next verified_next (put_schedule done state) done
                  ended (find-put_schedule id done item state e same_item)
                  (subst
                    (λ x.
                      find (has_run_id run_id) (update_first (has_run_id x) (λ _. ended) item.runs)
                      ≡ some ended)
                    (sym same) (find-update_first run_id ended run item.runs r same))
                  (finished_state-idle run result verified))
        ]
      ]
    ]
