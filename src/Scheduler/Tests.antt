-- ===== src/Scheduler/Tests.antt =====
-- One schedule from its creation to the end of its run.
use latchkit.Base.{
  ◌≡◌, refl, String, true, false, List, [], ◌∷◌, none, some, find, ok, arith, ◌==◌, is_blank, pos,
  ◌*◌, length, leb, if◌then◌else◌, err,
}
use latchkit.Scheduler.Model.{
  Host, CallContext, Input, Patch, Schedule, SchedulerState, ScheduleRun, cancelled, blocked,
  ProcessRunResult, exited, refused, invalid,
}
use latchkit.Scheduler.Validate.{
  is_text, has_id_shape, has_secret, validate_definition, validate_run, runs_valid,
  validate_schedule, validate_schedules, validate_scheduler_state, result_valid,
  schedule_failure_code,
}
use latchkit.Scheduler.Operations.{
  mutate, create_schedule, edit_schedule, cancel_schedule_run, validate_input, read_scheduler_state,
  empty_scheduler_state, has_schedule_id, candidate, edited, patched, put_schedule, stamped,
  request_cancel, cancelled as cancel_asked,
}
use latchkit.Scheduler.Foreground.{
  claim, claim_found, claimed_run, with_run, finish, finished_state, ended_state, finish_reason,
  has_run_id, with_finished, finished_run,
}
use latchkit.Scheduler.Calls.{SchedulerCall, create, claiming, recovering, resume, file_after_all}
use latchkit.Scheduler.Quarantine.{file_quarantined, file_after_all-quarantined}
use latchkit.Scheduler.Claims.{IsStart, claim-starts, claim-edit_schedule}
use latchkit.Scheduler.Endings.{finish-cancel_wins, finish-finish}
use latchkit.Scheduler.Writes.{finish-writes}

abbrev host : Host
host = record {
  digest = λ d. d.instructions;
  is_timezone = λ zone. zone == "UTC";
  local_timezone = "UTC";
  resolve = λ root. root;
  providers = "codex" ∷ [];
  size = λ state. 1024 * length state.schedules;
}

abbrev schedule_id : String
schedule_id = "schedule_00000000-0000-4000-8000-000000000001"

abbrev run_id : String
run_id = "schedule_run_00000000-0000-4000-8000-000000000002"

abbrev input : Input
input = record {
  timezone = none;
  every_minutes = 30;
  provider_id = "codex";
  instructions = "Run the checks.";
  authorization = record { scope = "checks"; reference = "issue 7"; execution_authorized = true };
  limits = record { timeout_ms = none; output_limit_bytes = none; max_runs = some 2 };
}

abbrev at_start : CallContext
at_start = record { root = "/p"; at = 1000; fresh_id = schedule_id; fresh_project_id = "project_1" }

abbrev at_claim : CallContext
at_claim = record { root = "/p"; at = 1801000; fresh_id = run_id; fresh_project_id = "project_1" }

abbrev later : CallContext
later = record { root = "/p"; at = 1802000; fresh_id = "x"; fresh_project_id = "project_1" }

abbrev created : Schedule
created = candidate host at_start "/p" input

abbrev state_1 : SchedulerState
state_1 = record {
  project_id = "project_1";
  revision = 1;
  schedules = created ∷ [];
  created_at = 1000;
  updated_at = 1000;
}

creates : create_schedule host at_start input none ≡ ok (created, state_1)
unfolding create_schedule validate_input mutate read_scheduler_state empty_scheduler_state
    validate_scheduler_state validate_schedules validate_schedule validate_definition runs_valid
    validate_run is_text has_id_shape has_secret is_blank
creates = refl

abbrev started : Schedule
started = with_run at_claim created (claimed_run at_claim true)

abbrev state_2 : SchedulerState
state_2 = stamped at_claim (put_schedule started state_1)

claims :
    mutate host at_claim (claim at_claim false schedule_id) (some state_1)
    ≡ ok (some (started, claimed_run at_claim true), state_2)
unfolding claim claim_found mutate read_scheduler_state validate_scheduler_state validate_schedules
    validate_schedule validate_definition runs_valid validate_run is_text has_id_shape has_secret
    is_blank
claims = refl

claim-starts_example :
    (state : SchedulerState) × (item : Schedule) × (read_scheduler_state host at_claim
        (some state_1)
      ≡ ok state)
    × (find (has_schedule_id schedule_id) state.schedules ≡ some item)
    × IsStart 1801000 item started (claimed_run at_claim true)
claim-starts_example =
    claim-starts host at_claim false schedule_id (some state_1) state_2 started
      (claimed_run at_claim true) claims refl

abbrev exit_zero : ProcessRunResult
exit_zero = record {
  status = exited;
  code = none;
  exit_code = some (pos 0);
  output_bytes = some 12;
}

abbrev asked : Schedule
asked = cancel_asked later started

abbrev state_3 : SchedulerState
state_3 = stamped later (put_schedule asked state_2)

cancels :
    mutate host later (cancel_schedule_run later schedule_id) (some state_2)
    ≡ ok ((true, asked), state_3)
unfolding cancel_schedule_run mutate read_scheduler_state validate_scheduler_state
    validate_schedules validate_schedule validate_definition runs_valid validate_run is_text
    has_id_shape has_secret is_blank
cancels = refl

abbrev asked_run : ScheduleRun
asked_run = request_cancel 1802000 (claimed_run at_claim true)

abbrev ended : Schedule
ended = with_finished 1802000 (finished_run 1802000 exit_zero true asked_run) asked

abbrev state_4 : SchedulerState
state_4 = stamped later (put_schedule ended state_3)

finishes :
    mutate host later (finish later schedule_id run_id exit_zero true) (some state_3)
    ≡ ok (ended, state_4)
unfolding finish finished_state ended_state finish_reason result_valid schedule_failure_code mutate
    read_scheduler_state validate_scheduler_state validate_schedules validate_schedule
    validate_definition runs_valid validate_run is_text has_id_shape has_secret is_blank
finishes = refl

finish-cancel_wins_example :
    (run : ScheduleRun) × (find (has_run_id run_id) ended.runs ≡ some run)
    × (run.state ≡ cancelled)
    × (ended.enabled ≡ asked.enabled)
finish-cancel_wins_example =
    finish-cancel_wins host later later schedule_id run_id exit_zero true (some state_2) state_3
      state_4 asked ended asked_run cancels refl refl finishes

finish-finish_example :
    finish at_claim schedule_id run_id
      (record exit_zero { status = refused })
      false
      (put_schedule ended state_3)
    ≡ ok (ended, put_schedule ended state_3)
unfolding finish
finish-finish_example =
    finish-finish later at_claim schedule_id run_id exit_zero
      (record exit_zero { status = refused }) true false state_3 (put_schedule ended state_3) ended
      refl

reads : read_scheduler_state host later (some state_3) ≡ ok state_3
unfolding read_scheduler_state validate_scheduler_state validate_schedules validate_schedule
    validate_definition runs_valid validate_run is_text has_id_shape has_secret is_blank
reads = refl

finish-writes_example :
    (s : Schedule) × (after : SchedulerState) × (finish later schedule_id run_id exit_zero true
        state_3
      ≡ ok (s, after))
    × (mutate host later (finish later schedule_id run_id exit_zero true) (some state_3) ≡ (
        if leb (host.size (stamped later after)) 4194304
        then ok (s, stamped later after)
        else err invalid))
finish-writes_example =
    finish-writes host later schedule_id run_id exit_zero true state_3 asked reads refl
      (omega arith) refl

abbrev patch : Patch
patch = record {
  expected_revision = some 1;
  timezone = none;
  every_minutes = some 20;
  provider_id = none;
  instructions = some "Run all checks.";
  authorization = none;
  limits = record { timeout_ms = none; output_limit_bytes = none; max_runs = none };
}

abbrev at_edit : CallContext
at_edit = record {
  root = "/p";
  at = 601000;
  fresh_id = schedule_id;
  fresh_project_id = "project_1";
}

abbrev edited_schedule : Schedule
edited_schedule =
    edited at_edit created (candidate host at_edit "/p" (patched created.definition patch))

edits :
    edit_schedule host at_edit schedule_id patch state_1
    ≡ ok (edited_schedule, put_schedule edited_schedule state_1)
unfolding edit_schedule validate_input validate_scheduler_state validate_schedules validate_schedule
    validate_definition runs_valid validate_run is_text has_id_shape has_secret is_blank
edits = refl

claims_edited :
    claim at_claim false schedule_id (put_schedule edited_schedule state_1)
    ≡ ok (
      some (
        with_run at_claim edited_schedule (claimed_run at_claim false),
        claimed_run at_claim false,
      ),
      put_schedule (with_run at_claim edited_schedule (claimed_run at_claim false)) state_1,
    )
unfolding claim claim_found
claims_edited = refl

claim-edit_schedule_example :
    ((claimed_run at_claim false).state ≡ blocked)
    × ((with_run at_claim edited_schedule (claimed_run at_claim false)).enabled ≡ false)
claim-edit_schedule_example =
    claim-edit_schedule host at_edit at_claim false schedule_id patch state_1
      (put_schedule edited_schedule state_1)
      (put_schedule (with_run at_claim edited_schedule (claimed_run at_claim false)) state_1)
      edited_schedule (with_run at_claim edited_schedule (claimed_run at_claim false))
      (claimed_run at_claim false) refl edits claims_edited

abbrev calls : List (CallContext × SchedulerCall)
calls =
    (at_start, create input)
    ∷ (at_claim, claiming false schedule_id)
    ∷ (later, recovering [])
    ∷ (later, resume schedule_id)
    ∷ []

file_after_all-quarantined_example : file_quarantined (file_after_all host calls none) ≡ true
file_after_all-quarantined_example = file_after_all-quarantined host calls none refl
