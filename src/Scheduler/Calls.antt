-- ===== src/Scheduler/Calls.antt =====
-- scheduler/service.ts: the calls that reach the file of the schedules, and calls in a row as the lock
-- orders them, of whatever processes.
use latchkit.Base.{String, Bool, List, [], ◌∷◌, Option, some, Result, ok, err}
use latchkit.Scheduler.Model.{
  SchedulerState, SchedulerError, Host, CallContext, Input, Patch, ProcessRunResult,
}
use latchkit.Scheduler.Operations.{
  mutate, create_schedule, edit_schedule, pause_schedule, resume_schedule, remove_schedule,
  cancel_schedule_run,
}
use latchkit.Scheduler.Foreground.{recover, claim, finish, link_task}

pub data SchedulerCall : Type 0 where
  create : Input → SchedulerCall
  edit : String → Patch → SchedulerCall
  pause : String → SchedulerCall
  resume : String → SchedulerCall
  remove : String → SchedulerCall
  cancel : String → SchedulerCall
  recovering : List String → SchedulerCall
  claiming : Bool → String → SchedulerCall
  finishing : String → String → ProcessRunResult → Bool → SchedulerCall
  linking : String → String → String → Bool → SchedulerCall

abbrev pub written :
    {A : Type 0}
    → Option SchedulerState
    → Result SchedulerError (A × SchedulerState)
    → Option SchedulerState
written file (ok (result, after)) = some after
written file (err error) = file

-- The file behind a call; one that throws writes nothing.
unfoldable pub file_after :
    Host → CallContext → SchedulerCall → Option SchedulerState → Option SchedulerState
file_after host ctx (create input) file = written file (create_schedule host ctx input file)
file_after host ctx (edit id patch) file =
    written file (mutate host ctx (edit_schedule host ctx id patch) file)
file_after host ctx (pause id) file = written file (mutate host ctx (pause_schedule ctx id) file)
file_after host ctx (resume id) file = written file (mutate host ctx (resume_schedule ctx id) file)
file_after host ctx (remove id) file = written file (mutate host ctx (remove_schedule id) file)
file_after host ctx (cancel id) file =
    written file (mutate host ctx (cancel_schedule_run ctx id) file)
file_after host ctx (recovering active) file =
    written file (mutate host ctx (recover ctx active) file)
file_after host ctx (claiming stopped id) file =
    written file (mutate host ctx (claim ctx stopped id) file)
file_after host ctx (finishing id run_id result verified) file =
    written file (mutate host ctx (finish ctx id run_id result verified) file)
file_after host ctx (linking id run_id task_id stopped) file =
    written file (mutate host ctx (link_task id run_id task_id stopped) file)

abbrev pub file_after_all :
    Host → List (CallContext × SchedulerCall) → Option SchedulerState → Option SchedulerState
file_after_all host [] file = file
file_after_all host ((ctx, call) ∷ calls) file =
    file_after_all host calls (file_after host ctx call file)
