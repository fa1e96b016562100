-- ===== src/Records/Limits.antt =====
-- What a full history leaves possible.
use latchkit.Base.{
  ◌+◌, ◌≤◌, ◌≡◌, ◌≢◌, refl, subst, ap, ◌⊎◌, inl, inr, String, true, List, [], ◌∷◌, ◌++◌, some, find,
  all, length, leb, ◌==◌, arith, Result, ok, err, ◌>>◌, Bool-cases, length-append,
}
use latchkit.Task.Model.{Task}
use latchkit.Records.Model.{
  TaskRecord, TaskRecordHistoryEntry, RecordedTask, RecordError, max_record_history,
}
use latchkit.Records.Links.{RecordContext, has_record_id}
use latchkit.Records.Operations.{RecordOperation, perform_record}
use latchkit.Records.Validate.{validate_task_records, validate_task_record, each}
use latchkit.Records.Changes.{IsChange, status_known}
use latchkit.Records.Lifecycle.{perform_record-IsChange}

passed-rest : (first rest : Result RecordError (Unit {0})) → (first >> rest) ≡ ok tt → rest ≡ ok tt
passed-rest (ok a) rest h = h
passed-rest (err e) rest h = cc

passed-first :
    (first rest : Result RecordError (Unit {0})) → (first >> rest) ≡ ok tt → first ≡ ok tt
passed-first (ok tt) rest h = refl
passed-first (err e) rest h = cc

each-find :
    (check : TaskRecord → Result RecordError (Unit {0})) (records : List TaskRecord) (id : String)
    (item : TaskRecord)
    → find (has_record_id id) records ≡ some item
    → each check records ≡ ok tt
    → check item ≡ ok tt
each-find check [] id item e h = cc
each-find check (r ∷ records) id item e h = elim (Bool-cases (r.id == id)) [
  | inl here ↦
      let same : r ≡ item = ground arith in
      subst (λ x. check x ≡ ok tt) same (passed-first (check r) (each check records) h)
  | inr later ↦
      each-find check records id item (ground arith) (passed-rest (check r) (each check records) h)
]

validate_task_record-history :
    (task : Task) (records : List TaskRecord) (item : TaskRecord)
    → validate_task_record task records item ≡ ok tt
    → leb (length item.history) max_record_history ≡ true
unfolding validate_task_record
validate_task_record-history task records item h = ground arith

full-refused :
    (after : RecordedTask) (id : String) (old new : TaskRecord)
    → max_record_history ≤ length old.history
    → find (has_record_id id) after.records ≡ some new
    → IsChange after.task old new
    → validate_task_records after ≢ ok tt
unfolding validate_task_records
full-refused after id old new full f change v =
    let small = validate_task_record-history after.task after.records new (
      each-find (validate_task_record after.task after.records) after.records id new f (
        ground (
          arith,
          passed-first (each (validate_task_record after.task after.records) after.records),
        ))) in
    absurd (
      long new.history change.entry (length-append old.history (change.entry ∷ [])) change.history
        small)
  where
    long :
        (history : List TaskRecordHistoryEntry) (entry : TaskRecordHistoryEntry)
        → length (old.history ++ entry ∷ []) ≡ length old.history + 1
        → history ≡ old.history ++ entry ∷ []
        → ¬ (leb (length history) max_record_history ≡ true)
    long history entry l same small = ground (arith, ap length same)

-- A record whose history is full can no longer change: an operation on the records fails, or leaves
-- this record as it was, or its result is refused when it is written. That includes superseding the
-- record.
pub perform_record-full_history :
    (ctx : RecordContext) (operation : RecordOperation) (t after : RecordedTask) (id : String)
    (old : TaskRecord)
    → all status_known t.records ≡ true
    → find (has_record_id id) t.records ≡ some old
    → max_record_history ≤ length old.history
    → perform_record ctx operation t ≡ ok after
    → (find (has_record_id id) after.records ≡ some old) ⊎ (validate_task_records after ≢ ok tt)
perform_record-full_history ctx operation t after id old known e full h =
    elim (perform_record-IsChange ctx operation t after id old known h e) [
      | inl kept ↦ inl kept
      | inr (new, f, change) ↦ inr (full-refused after id old new full f change)
    ]
