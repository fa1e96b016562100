-- ===== src/Scheduler/Sound.antt =====
-- What a read that succeeds has checked.
use latchkit.Base.{
  ℕ, ◌≤◌, ◌≡◌, refl, String, Bool, true, false, not, ◌&&◌, List, [], ◌∷◌, Option, none, some, all,
  arith, inl, inr, Result, ok, err, guard, ◌>>◌, Result-cases, contains,
}
use latchkit.Scheduler.Model.{
  Definition, ScheduleRun, Schedule, SchedulerState, SchedulerError, Host, CallContext,
}
use latchkit.Scheduler.Validate.{
  runs_valid, validate_definition, validate_schedule, validate_schedules, validate_scheduler_state,
}
use latchkit.Scheduler.Operations.{
  empty_scheduler_state, read_scheduler_state, mutate, Operation, stamped,
}

abbrev pub is_ok : {A : Type 0} → Result SchedulerError A → Bool
is_ok (ok a) = true
is_ok (err e) = false

abbrev pub accepts : Host → Schedule → Bool
accepts host s = is_ok (validate_schedule host s)

pub guard-ok :
    (b : Bool) (e : SchedulerError) (rest : Result SchedulerError (Unit {0}))
    → is_ok (guard b e >> rest) ≡ (b && is_ok rest)
guard-ok true e rest = refl
guard-ok false e rest = refl

pub validate_schedules-accepts :
    (host : Host) (seen : List String) (items : List Schedule)
    → is_ok (validate_schedules host seen items) ≡ true
    → all (accepts host) items ≡ true
unfolding validate_schedules
validate_schedules-accepts host seen [] h = refl
validate_schedules-accepts host seen (s ∷ rest) h = elim (Result-cases (validate_schedule host s)) [
  | inl (passed, v) ↦ ground (arith, validate_schedules-accepts host (s.id ∷ seen) rest)
  | inr (error, v) ↦ ground arith
]

pub validate_scheduler_state-accepts :
    (host : Host) (state : SchedulerState)
    → is_ok (validate_scheduler_state host state) ≡ true
    → all (accepts host) state.schedules ≡ true
unfolding validate_scheduler_state
validate_scheduler_state-accepts host state h =
    ground (arith, validate_schedules-accepts host [] state.schedules)

-- The bounds on the recurrence and on the limits.
pub record IsBounded (d : Definition) : Type 0 where
  pub at_least : 1 ≤ d.every_minutes
  pub at_most : d.every_minutes ≤ 10080
  pub some_runs : 1 ≤ d.limits.max_runs
  pub few_runs : d.limits.max_runs ≤ 100
  pub timeout : d.limits.timeout_ms ≤ 86400000
  pub output : d.limits.output_limit_bytes ≤ 16777216

pub validate_definition-IsBounded :
    (host : Host) (digest : String) (d : Definition)
    → is_ok (validate_definition host digest d) ≡ true
    → IsBounded d
unfolding validate_definition
validate_definition-IsBounded host digest d h = ground arith

pub accepts-IsBounded :
    (host : Host) (s : Schedule) → accepts host s ≡ true → IsBounded s.definition
unfolding validate_schedule
accepts-IsBounded host s h =
    elim (Result-cases (validate_definition host s.authorized_definition_sha256 s.definition)) [
      | inl (passed, v) ↦
          validate_definition-IsBounded host s.authorized_definition_sha256 s.definition (rw v refl)
      | inr (error, v) ↦ ground arith
    ]

pub accepts-runs_valid :
    (host : Host) (s : Schedule) → accepts host s ≡ true → runs_valid s.runs ≡ true
unfolding validate_schedule
accepts-runs_valid host s h =
    elim (Result-cases (validate_definition host s.authorized_definition_sha256 s.definition)) [
      | inl (passed, v) ↦ ground arith
      | inr (error, v) ↦ ground arith
    ]

-- A read gives accepted schedules.
pub read_scheduler_state-accepts :
    (host : Host) (ctx : CallContext) (file : Option SchedulerState) (state : SchedulerState)
    → read_scheduler_state host ctx file ≡ ok state
    → all (accepts host) state.schedules ≡ true
unfolding read_scheduler_state empty_scheduler_state
read_scheduler_state-accepts host ctx none state h = ground arith
read_scheduler_state-accepts host ctx (some s) state h =
    elim (Result-cases (validate_scheduler_state host s)) [
      | inl (passed, v) ↦ ground (arith, validate_scheduler_state-accepts host s)
      | inr (error, v) ↦ ground arith
    ]

-- A call that succeeds has read a state, and its operation succeeded on it.
pub mutate-ran :
    {A : Type 0} (host : Host) (ctx : CallContext) (operation : Operation A)
    (file : Option SchedulerState) (result : A) (written : SchedulerState)
    → mutate host ctx operation file ≡ ok (result, written)
    → (state : SchedulerState) × (after : SchedulerState) × (read_scheduler_state host ctx file
        ≡ ok state)
      × (operation state ≡ ok (result, after))
      × (is_ok (validate_scheduler_state host written) ≡ true)
      × (written ≡ stamped ctx after)
unfolding mutate
mutate-ran host ctx operation file result written h =
    elim (Result-cases (read_scheduler_state host ctx file)) [
      | inr (error, r) ↦ ground arith
      | inl (state, r) ↦ elim (Result-cases (operation state)) [
        | inr (error, o) ↦ ground arith
        | inl ((result', after), o) ↦
            elim (Result-cases (validate_scheduler_state host (stamped ctx after))) [
              | inr (error, v) ↦ ground arith
              | inl (passed, v) ↦
                  (state, after, ground arith, ground arith, ground arith, ground arith)
            ]
      ]
    ]

-- The runs are judged by themselves: other valid runs leave a schedule accepted.
pub accepts-runs :
    (host : Host) (s : Schedule) (runs : List ScheduleRun) (enabled : Bool) (at : ℕ)
    → accepts host s ≡ true
    → runs_valid runs ≡ true
    → accepts host (record s { runs = runs; enabled = enabled; updated_at = at }) ≡ true
unfolding validate_schedule
accepts-runs host s runs enabled at a v =
    elim (Result-cases (validate_definition host s.authorized_definition_sha256 s.definition)) [
      | inl (passed, d) ↦ ground arith
      | inr (error, d) ↦ ground arith
    ]

-- The schedules have different ids, which are not among those seen.
abbrev pub fresh_ids : List String → List Schedule → Bool
fresh_ids seen [] = true
fresh_ids seen (s ∷ rest) = not (contains seen s.id) && fresh_ids (s.id ∷ seen) rest

pub validate_schedules_iff :
    (host : Host) (seen : List String) (items : List Schedule)
    → is_ok (validate_schedules host seen items)
      ≡ (all (accepts host) items && fresh_ids seen items)
unfolding validate_schedules
validate_schedules_iff host seen [] = refl
validate_schedules_iff host seen (s ∷ rest) = elim (Result-cases (validate_schedule host s)) [
  | inl (passed, v) ↦ ground (arith, validate_schedules_iff host (s.id ∷ seen) rest)
  | inr (error, v) ↦ ground arith
]

pub read_scheduler_state-valid :
    (host : Host) (ctx : CallContext) (state : SchedulerState)
    → read_scheduler_state host ctx (some state) ≡ ok state
    → is_ok (validate_scheduler_state host state) ≡ true
unfolding read_scheduler_state
read_scheduler_state-valid host ctx state h =
    elim (Result-cases (validate_scheduler_state host state)) [
      | inl (passed, v) ↦ rw v refl
      | inr (error, v) ↦ ground arith
    ]
