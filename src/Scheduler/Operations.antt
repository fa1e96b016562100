-- ===== src/Scheduler/Operations.antt =====
-- scheduler/service.ts: the operations of the commands. Each is the function that `mutate` is given.
use latchkit.Base.{
  ℕ, ◌+◌, ◌*◌, String, Bool, true, false, not, List, [], ◌∷◌, ◌++◌, Option, none, some, any, find,
  update_first, eqb, leb, ◌==◌, ◌&&◌, contains, if◌then◌else◌, Result, ok, guard, or_fail, ◌>>=◌,
  ◌>>◌,
}
use latchkit.Scheduler.Model.{
  ScheduleRun, Authorization, Definition, Schedule, SchedulerState, SchedulerError, invalid,
  not_found, revision_conflict, run_active, orphan_review_required, provider_unavailable,
  target_changed, Host, CallContext, Input, Patch, is_interrupted_run,
}
use latchkit.Scheduler.Validate.{validate_scheduler_state, is_running}

abbrev pub or_else {ℓ} : {A : Type ℓ} → Option A → A → A
or_else none default = default
or_else (some a) default = a

abbrev pub first_of {ℓ} : {A : Type ℓ} → Option A → Option A → Option A
first_of none second = second
first_of (some a) second = some a

abbrev pub next : Schedule → ℕ → ℕ
next s at = at + s.definition.every_minutes * 60000

abbrev pub due : Schedule → ℕ → Bool
due s at = leb s.next_run_at at

abbrev pub has_schedule_id : String → Schedule → Bool
has_schedule_id id s = s.id == id

abbrev pub is_interrupted : ScheduleRun → Bool
is_interrupted run = is_interrupted_run run.state

abbrev pub schedule : SchedulerState → String → Result SchedulerError Schedule
schedule state id = or_fail (find (has_schedule_id id) state.schedules) not_found

-- A schedule changed in place.
abbrev pub put_schedule : Schedule → SchedulerState → SchedulerState
put_schedule s state = record state {
  schedules = update_first (has_schedule_id s.id) (λ _. s) state.schedules;
}

abbrev pub put : Schedule → SchedulerState → Result SchedulerError (Schedule × SchedulerState)
put s state = ok (s, put_schedule s state)

unfoldable pub empty_scheduler_state : CallContext → SchedulerState
empty_scheduler_state ctx = record {
  project_id = ctx.fresh_project_id;
  revision = 0;
  schedules = [];
  created_at = ctx.at;
  updated_at = ctx.at;
}

-- `MAX_SCHEDULE_BYTES`.
abbrev pub max_schedule_bytes : ℕ
max_schedule_bytes = 4194304

abbrev pub has_room : Host → SchedulerState → Bool
has_room host state = leb (host.size state) max_schedule_bytes

-- The file is absent, or holds the text of a state.
unfoldable pub read_scheduler_state :
    Host → CallContext → Option SchedulerState → Result SchedulerError SchedulerState
read_scheduler_state host ctx none = ok (empty_scheduler_state ctx)
read_scheduler_state host ctx (some state) = do
  guard (has_room host state) invalid
  validate_scheduler_state host state
  guard (not (any (λ s. not (s.definition.target_project == ctx.root)) state.schedules))
      target_changed
  ok state

abbrev pub Operation : Type 0 → Type 0
Operation A = SchedulerState → Result SchedulerError (A × SchedulerState)

abbrev pub stamped : CallContext → SchedulerState → SchedulerState
stamped ctx state = record state { revision = state.revision + 1; updated_at = ctx.at }

-- The result, and the state that the file then holds.
unfoldable pub mutate :
    {A : Type 0}
    → Host
    → CallContext
    → Operation A
    → Option SchedulerState
    → Result SchedulerError (A × SchedulerState)
mutate host ctx operation file = do
  state ← read_scheduler_state host ctx file
  (result, after) ← operation state
  validate_scheduler_state host (stamped ctx after)
  guard (has_room host (stamped ctx after)) invalid
  ok (result, stamped ctx after)

abbrev pub input_definition : Host → String → Input → Definition
input_definition host root input = record {
  target_project = host.resolve root;
  provider_id = input.provider_id;
  timezone = or_else input.timezone host.local_timezone;
  every_minutes = input.every_minutes;
  instructions = input.instructions;
  authorization = input.authorization;
  limits = record {
    timeout_ms = or_else input.limits.timeout_ms 300000;
    output_limit_bytes = or_else input.limits.output_limit_bytes 1048576;
    max_runs = or_else input.limits.max_runs 100;
  };
}

abbrev pub candidate : Host → CallContext → String → Input → Schedule
candidate host ctx root input = record {
  id = ctx.fresh_id;
  revision = 1;
  enabled = true;
  definition = input_definition host root input;
  next_run_at = ctx.at + input.every_minutes * 60000;
  authorized_definition_sha256 = host.digest (input_definition host root input);
  runs = [];
  created_at = ctx.at;
  updated_at = ctx.at;
}

abbrev pub validation_state : CallContext → Schedule → SchedulerState
validation_state ctx s = record {
  project_id = "validation";
  revision = 0;
  schedules = s ∷ [];
  created_at = ctx.at;
  updated_at = ctx.at;
}

unfoldable pub validate_input : Host → CallContext → String → Input → Result SchedulerError Schedule
validate_input host ctx root input = do
  guard (leb 1 input.every_minutes && leb input.every_minutes 10080) invalid
  validate_scheduler_state host (validation_state ctx (candidate host ctx root input))
  guard (contains host.providers input.provider_id) provider_unavailable
  ok (candidate host ctx root input)

abbrev pub push_schedule : Schedule → Operation Schedule
push_schedule created state =
    ok (created, record state { schedules = state.schedules ++ created ∷ [] })

unfoldable pub create_schedule :
    Host
    → CallContext
    → Input
    → Option SchedulerState
    → Result SchedulerError (Schedule × SchedulerState)
create_schedule host ctx input file = do
  created ← validate_input host ctx ctx.root input
  mutate host ctx (push_schedule created) file

-- An edit that gives no authorization takes back the one to execute.
abbrev pub patched_authorization : Authorization → Option Authorization → Authorization
patched_authorization current given =
    or_else given (record current { execution_authorized = false })

abbrev pub patched : Definition → Patch → Input
patched current patch = record {
  timezone = some (or_else patch.timezone current.timezone);
  every_minutes = or_else patch.every_minutes current.every_minutes;
  provider_id = or_else patch.provider_id current.provider_id;
  instructions = or_else patch.instructions current.instructions;
  authorization = patched_authorization current.authorization patch.authorization;
  limits = record {
    timeout_ms = first_of patch.limits.timeout_ms (some current.limits.timeout_ms);
    output_limit_bytes =
        first_of patch.limits.output_limit_bytes (some current.limits.output_limit_bytes);
    max_runs = first_of patch.limits.max_runs (some current.limits.max_runs);
  };
}

abbrev pub expects : Option ℕ → ℕ → Bool
expects none revision = true
expects (some expected) revision = eqb expected revision

abbrev pub edited : CallContext → Schedule → Schedule → Schedule
edited ctx current replacement = record replacement {
  id = current.id;
  revision = current.revision + 1;
  enabled = current.enabled;
  runs = current.runs;
  created_at = current.created_at;
  updated_at = ctx.at;
}

unfoldable pub edit_schedule : Host → CallContext → String → Patch → Operation Schedule
edit_schedule host ctx id patch state = do
  current ← schedule state id
  guard (expects patch.expected_revision current.revision) revision_conflict
  guard (not (any is_running current.runs)) run_active
  replacement ←
      validate_input host ctx current.definition.target_project (patched current.definition patch)
  put (edited ctx current replacement) state

abbrev pub paused : CallContext → Schedule → Schedule
paused ctx current = record current {
  enabled = false;
  revision = current.revision + 1;
  updated_at = ctx.at;
}

unfoldable pub pause_schedule : CallContext → String → Operation Schedule
pause_schedule ctx id state = do current ← schedule state id; put (paused ctx current) state

abbrev pub resumed : CallContext → Schedule → Schedule
resumed ctx current = record current {
  enabled = true;
  next_run_at = next current ctx.at;
  revision = current.revision + 1;
  updated_at = ctx.at;
}

unfoldable pub resume_schedule : CallContext → String → Operation Schedule
resume_schedule ctx id state = do
  current ← schedule state id
  guard (not (any is_running current.runs)) run_active
  guard (not (any is_interrupted current.runs)) orphan_review_required
  put (resumed ctx current) state

abbrev pub splice : String → List Schedule → List Schedule
splice id [] = []
splice id (s ∷ rest) = let after = splice id rest in if s.id == id then rest else s ∷ after

unfoldable pub remove_schedule : String → Operation Schedule
remove_schedule id state = do
  current ← schedule state id
  guard (not (any is_running current.runs)) run_active
  ok (current, record state { schedules = splice id state.schedules })

abbrev pub update_last {ℓ} : {A : Type ℓ} → (A → Bool) → (A → A) → List A → List A
update_last p f [] = []
update_last p f (x ∷ xs) =
    let rest = update_last p f xs in if any p xs then x ∷ rest else if p x then f x ∷ xs else x ∷ xs

abbrev pub request_cancel : ℕ → ScheduleRun → ScheduleRun
request_cancel at run = record run {
  cancel_requested_at = first_of run.cancel_requested_at (some at);
  reason =
      some "Cancellation requested; waiting for the owning foreground process to stop its child.";
}

abbrev pub cancelled : CallContext → Schedule → Schedule
cancelled ctx current = record current {
  runs = update_last is_running (request_cancel ctx.at) current.runs;
  updated_at = ctx.at;
}

unfoldable pub cancel_schedule_run : CallContext → String → Operation (Bool × Schedule)
cancel_schedule_run ctx id state = do
  current ← schedule state id
  if any is_running current.runs
      then ok ((true, cancelled ctx current), put_schedule (cancelled ctx current) state)
      else ok ((false, current), state)
