-- ===== src/Scheduler/Validate.antt =====
-- scheduler/contracts.ts: what every read and every write of the schedules checks.
use latchkit.Base.{
  ℕ, ◌+◌, ℤ, pos, negsuc, String, Bool, true, false, not, ◌&&◌, ◌||◌, List, [], ◌∷◌, Option, none,
  some, all, any, find, keep, length, map, ltb, leb, eqb, ◌==◌, codes, strip_prefix, is_lower_hex,
  lower, is_space, is_blank, contains, distinct, join, if◌then◌else◌, Result, ok, guard, ◌>>◌,
}
use latchkit.Scheduler.Model.{
  ScheduleRun, RunResult, Definition, Schedule, SchedulerState, SchedulerError, invalid, redacted,
  scope_changed, Host, is_running_run,
}

abbrev pub schedule_failure_codes : List String
schedule_failure_codes =
    "EPERM" ∷ "EACCES" ∷ "ENOENT" ∷ "ENOTEMPTY" ∷ "EBUSY" ∷ "ENOSPC" ∷ "EROFS" ∷ "EMFILE" ∷ "ENFILE"
    ∷ "TASK_STATE_BUSY" ∷ "TASK_STATE_LOCK_AMBIGUOUS" ∷ "TASK_STATE_LOCK_INVALID"
    ∷ "TASK_REVISION_CONFLICT" ∷ "TASK_OWNERSHIP_CONFLICT" ∷ "TASK_EXECUTION_BUSY"
    ∷ "TASK_AUTHORIZATION_REQUIRED" ∷ "TASK_TRANSITION_INVALID" ∷ "TASK_NOT_FOUND"
    ∷ "PROVIDER_UNAVAILABLE" ∷ "CAPABILITY_UNAVAILABLE" ∷ "EXECUTION_PROFILE_UNAVAILABLE"
    ∷ "EXECUTION_AUTHORIZATION_REQUIRED" ∷ "PROVIDER_CONTRACT_INVALID" ∷ "SCHEDULE_EXECUTION_FAILED"
    ∷ []

unfoldable pub schedule_failure_code : Option String → String
schedule_failure_code none = "SCHEDULE_EXECUTION_FAILED"
schedule_failure_code (some code) =
    elim (find (λ allowed. allowed == code) schedule_failure_codes) [
      | none ↦ "SCHEDULE_EXECUTION_FAILED"
      | some allowed ↦ allowed
    ]

-- The length of a text in UTF-16 units.
abbrev units : List ℕ → ℕ
units [] = 0
units (c ∷ cs) = (if ltb c 65536 then 1 else 2) + units cs

abbrev is_control : ℕ → Bool
is_control c = ltb c 32 && not (eqb c 9 || (eqb c 10 || eqb c 13))

unfoldable pub is_text : String → Bool
is_text value =
    not (is_blank value) && (leb (units (codes value)) 16384 && not (any is_control (codes value)))

abbrev drop_spaces : List ℕ → List ℕ
drop_spaces [] = []
drop_spaces (c ∷ cs) = let rest = drop_spaces cs in if is_space c then rest else c ∷ cs

abbrev is_assigned : List ℕ → Bool
is_assigned [] = false
is_assigned (c ∷ cs) = eqb c b'=' || eqb c b':'

abbrev secret_words : List String
secret_words =
    "authorization" ∷ "bearer" ∷ "token" ∷ "secret" ∷ "password" ∷ "apikey" ∷ "api_key" ∷ "api-key"
    ∷ []

abbrev word_assigned : List ℕ → String → Bool
word_assigned cs word = elim (strip_prefix (codes word) cs) [
  | none ↦ false
  | some rest ↦ is_assigned (drop_spaces rest)
]

abbrev secret_in : List ℕ → Bool
secret_in [] = false
secret_in (c ∷ cs) = any (word_assigned (c ∷ cs)) secret_words || secret_in cs

-- `secret.test(value)`.
unfoldable pub has_secret : String → Bool
has_secret value = secret_in (map lower (codes value))

abbrev id_shape : Option (List ℕ) → Bool
id_shape none = false
id_shape (some rest) = eqb (length rest) 36 && all (λ c. is_lower_hex c || eqb c b'-') rest

-- The `[0-9a-f-]{36}` behind a prefix, to the end of the text.
unfoldable pub has_id_shape : String → String → Bool
has_id_shape prefix id = id_shape (strip_prefix (codes prefix) (codes id))

abbrev pub max_safe_integer : ℕ
max_safe_integer = 9007199254740991

abbrev pub positive : ℕ → Bool
positive n = leb 1 n && leb n max_safe_integer

abbrev pub is_safe_code : Option ℤ → Bool
is_safe_code none = true
is_safe_code (some (pos n)) = leb n max_safe_integer
is_safe_code (some (negsuc n)) = ltb n max_safe_integer

abbrev pub all_some {ℓ} : {A : Type ℓ} → (A → Bool) → Option A → Bool
all_some p none = true
all_some p (some a) = p a

abbrev pub is_absent : Option ℕ → Bool
is_absent none = true
is_absent (some n) = false

abbrev pub same_bool : Bool → Bool → Bool
same_bool true b = b
same_bool false b = not b

unfoldable pub result_valid : RunResult → Bool
result_valid result =
    all_some (contains schedule_failure_codes) result.code
    && (is_text result.status
        && (is_safe_code result.exit_code && leb result.output_bytes max_safe_integer))

unfoldable pub validate_run : ScheduleRun → Bool
validate_run run =
    is_text run.id
    && (has_id_shape "schedule_run_" run.id
        && (all_some (has_id_shape "task_") run.task_id
            && (same_bool (is_running_run run.state) (is_absent run.ended_at)
                && (all_some is_text run.reason && all_some result_valid run.result))))

unfoldable pub validate_definition : Host → String → Definition → Result SchedulerError (Unit {0})
validate_definition host digest d = do
  guard (is_text d.timezone) invalid
  guard (host.is_timezone d.timezone) invalid
  guard (positive d.every_minutes) invalid
  guard (leb d.every_minutes 10080) invalid
  guard (is_text d.target_project) invalid
  guard (is_text d.provider_id) invalid
  guard (is_text d.instructions) invalid
  guard (not (has_secret d.instructions)) redacted
  guard (is_text d.authorization.scope) invalid
  guard (is_text d.authorization.reference) invalid
  guard (not (has_secret (join "\n" (d.authorization.scope ∷ d.authorization.reference ∷ []))))
      redacted
  guard (positive d.limits.timeout_ms) invalid
  guard (positive d.limits.output_limit_bytes) invalid
  guard (positive d.limits.max_runs) invalid
  guard
      (leb d.limits.timeout_ms 86400000
        && (leb d.limits.output_limit_bytes 16777216 && leb d.limits.max_runs 100))
      invalid
  guard (digest == host.digest d) scope_changed

abbrev pub is_running : ScheduleRun → Bool
is_running run = is_running_run run.state

abbrev pub run_ids : List ScheduleRun → List String
run_ids = map λ run. run.id

-- The runs of one schedule, as `validateSchedule` ends.
unfoldable pub runs_valid : List ScheduleRun → Bool
runs_valid runs =
    leb (length runs) 100
    && (all validate_run runs && (distinct (run_ids runs) && leb (length (keep is_running runs)) 1))

unfoldable pub validate_schedule : Host → Schedule → Result SchedulerError (Unit {0})
validate_schedule host s = do
  guard (is_text s.id) invalid
  guard (has_id_shape "schedule_" s.id) invalid
  guard (positive s.revision) invalid
  validate_definition host s.authorized_definition_sha256 s.definition
  guard (runs_valid s.runs) invalid

-- The schedules in order, with the ids of those before them.
unfoldable pub validate_schedules :
    Host → List String → List Schedule → Result SchedulerError (Unit {0})
validate_schedules host seen [] = ok tt
validate_schedules host seen (s ∷ rest) = do
  validate_schedule host s
  guard (not (contains seen s.id)) invalid
  validate_schedules host (s.id ∷ seen) rest

unfoldable pub validate_scheduler_state : Host → SchedulerState → Result SchedulerError (Unit {0})
validate_scheduler_state host state = do
  guard (is_text state.project_id) invalid
  guard (leb state.revision max_safe_integer) invalid
  guard (leb (length state.schedules) 100) invalid
  validate_schedules host [] state.schedules
