-- ===== src/Scheduler/Texts.antt =====
-- The texts that `finish` writes pass the checks of the schedules.
use latchkit.Base.{
  ◌≡◌, refl, subst, String, Bool, true, List, [], ◌∷◌, Option, none, some, all, find, ◌==◌, arith,
  inl, inr, Option-cases, Bool-cases, eq_iff, contains, eq_self, concat, is_blank,
}
use latchkit.Scheduler.Model.{
  ScheduleRunState, ProcessRunResult, ProcessStatus, timed_out_process, exited, cancelled_process,
  refused, spawn_failed, output_limit, status_text,
}
use latchkit.Scheduler.Validate.{is_text, schedule_failure_codes, schedule_failure_code}
use latchkit.Scheduler.Foreground.{finish_reason}

reason_for : String → Bool
reason_for code = is_text (
    concat (
      "Scheduled execution ended with " ∷ code ∷ "; inspect the linked task before resuming." ∷ []))

failure_codes-texts : all reason_for schedule_failure_codes ≡ true
unfolding is_text reason_for is_blank
failure_codes-texts = refl

find-contains :
    (codes : List String) (code found : String)
    → find (λ allowed. allowed == code) codes ≡ some found
    → contains codes found ≡ true
find-contains [] code found e = cc
find-contains (c ∷ codes) code found e = ground (arith, find-contains codes code found, eq_self c)

pub schedule_failure_code-known :
    (code : Option String) → contains schedule_failure_codes (schedule_failure_code code) ≡ true
unfolding schedule_failure_code
schedule_failure_code-known none = refl
schedule_failure_code-known (some code) =
    elim (Option-cases (find (λ allowed. allowed == code) schedule_failure_codes)) [
      | inl e ↦ rw (e, schedule_failure_code) refl
      | inr (found, e) ↦
          rw (e, schedule_failure_code) (find-contains schedule_failure_codes code found e)
    ]

all-contains :
    (p : String → Bool) (codes : List String) (code : String)
    → all p codes ≡ true
    → contains codes code ≡ true
    → p code ≡ true
all-contains p [] code a c = cc
all-contains p (x ∷ codes) code a c = elim (Bool-cases (x == code)) [
  | inl e ↦ subst (λ y. p y ≡ true) ((eq_iff x code).0 e) (ground arith)
  | inr e ↦ all-contains p codes code (ground arith) (ground arith)
]

pub status-text : (status : ProcessStatus) → is_text (status_text status) ≡ true
unfolding is_text is_blank
status-text refused = refl
status-text spawn_failed = refl
status-text timed_out_process = refl
status-text cancelled_process = refl
status-text output_limit = refl
status-text exited = refl

status-reason :
    (status : ProcessStatus)
    → is_text (concat ("Owned process ended with " ∷ status_text status ∷ "." ∷ [])) ≡ true
unfolding is_text is_blank
status-reason refused = refl
status-reason spawn_failed = refl
status-reason timed_out_process = refl
status-reason cancelled_process = refl
status-reason output_limit = refl
status-reason exited = refl

unverified-text :
    is_text
      "Provider session did not produce verified task evidence; inspect the linked task before resuming."
    ≡ true
unfolding is_text is_blank
unverified-text = refl

pub finish_reason-text :
    (state : ScheduleRunState) (result : ProcessRunResult)
    → is_text (finish_reason state result) ≡ true
unfolding finish_reason reason_for
finish_reason-text state result = ground (
  arith,
  status-reason result.status,
  unverified-text,
  all-contains reason_for schedule_failure_codes (schedule_failure_code result.code)
      failure_codes-texts (schedule_failure_code-known result.code),
)
