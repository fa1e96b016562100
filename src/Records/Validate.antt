-- ===== src/Records/Validate.antt =====
-- task-state/contracts.ts: what every write of a task checks of its records. The formats of ids, paths
-- and digests are left to the operations that make them.
use latchkit.Base.{
  ℕ, suc, String, Bool, false, ◌&&◌, List, [], ◌∷◌, Option, none, some, find, any, length, leb, eqb,
  ◌==◌, codes, utf8_bytes, map, distinct, same_option, Result, ok, guard, or_fail, ◌>>=◌, ◌>>◌,
}
use latchkit.Task.Model.{Task, Criterion}
use latchkit.Records.Model.{
  superseded, TaskRecord, TaskRecordHistoryEntry, RecordLink, record_link, criterion_link,
  evidence_link, memory_link, source_link, RecordedTask, RecordError, invalid, text_too_large,
  limit_exceeded, link_invalid, same_kind, same_status, includes, record_statuses,
  max_record_reason_bytes, max_record_reference_bytes, max_record_links, max_record_history,
  max_records_per_task,
}
use latchkit.Records.Links.{
  has_record_id, has_evidence_id, is_relative, normalize_record_text, bounded,
}
use latchkit.Records.Operations.{assert_no_record_cycle}

abbrev has_criterion_id : String → Criterion → Bool
has_criterion_id id item = item.id == id

unfoldable pub validate_record_link :
    Task → List TaskRecord → RecordLink → Result RecordError (Unit {0})
validate_record_link task records (record_link id revision) = do
  guard (leb 1 revision) invalid
  target ← or_fail (find (has_record_id id) records) link_invalid
  guard (leb revision target.revision) link_invalid
validate_record_link task records (criterion_link id revision) = do
  guard (leb 1 revision) invalid
  criterion ← or_fail (find (has_criterion_id id) task.criteria) link_invalid
  guard (leb revision criterion.revision) link_invalid
validate_record_link task records (evidence_link id) =
    guard (any (has_evidence_id id) task.evidence) link_invalid
validate_record_link task records (memory_link id revision) = guard (leb 1 revision) invalid
validate_record_link task records (source_link path digest observed_at) =
    guard (is_relative path) invalid

abbrev pub each {ℓ} :
    {A : Type ℓ} → (A → Result RecordError (Unit {0})) → List A → Result RecordError (Unit {0})
each check [] = ok tt
each check (x ∷ xs) = check x >> each check xs

abbrev short_reason : Option String → Result RecordError (Unit {0})
short_reason none = ok tt
short_reason (some reason) =
    guard (leb (utf8_bytes (codes reason)) max_record_reason_bytes) text_too_large

abbrev pub validate_record_history_entry : TaskRecordHistoryEntry → Result RecordError (Unit {0})
validate_record_history_entry entry = do
  guard (leb 1 entry.revision) invalid
  normalize_record_text entry.text
  short_reason entry.reason

-- The entries are numbered from 1.
abbrev validate_history : ℕ → List TaskRecordHistoryEntry → Result RecordError (Unit {0})
validate_history n [] = ok tt
validate_history n (entry ∷ entries) = do
  validate_record_history_entry entry
  guard (eqb entry.revision (suc n)) invalid
  validate_history (suc n) entries

abbrev ends_with : TaskRecord → List TaskRecordHistoryEntry → Bool
ends_with item [] = false
ends_with item (entry ∷ []) =
    eqb entry.revision item.revision
    && (same_status entry.status item.status && entry.text == item.text)
ends_with item (entry ∷ next ∷ entries) = ends_with item (next ∷ entries)

unfoldable pub validate_task_record :
    Task → List TaskRecord → TaskRecord → Result RecordError (Unit {0})
validate_task_record task records item = do
  guard (leb 1 item.revision) invalid
  guard (includes (record_statuses item.kind) item.status) invalid
  normalize_record_text item.text
  bounded max_record_reference_bytes item.provenance.reference
  guard (leb (length item.links) max_record_links) limit_exceeded
  each (validate_record_link task records) item.links
  guard (leb 1 (length item.history)) invalid
  guard (leb (length item.history) max_record_history) limit_exceeded
  validate_history 0 item.history
  guard (ends_with item item.history) invalid

abbrev points_to : String → Option String → Bool
points_to id given = same_option given (some id)

abbrev check_successor : List TaskRecord → TaskRecord → Result RecordError (Unit {0})
check_successor records item = elim item.supersedes [
  | none ↦ ok tt
  | some id ↦ do
    target ← or_fail (find (has_record_id id) records) link_invalid
    guard (same_kind target.kind item.kind) invalid
    guard (same_status target.status superseded && points_to item.id target.superseded_by) invalid
]

abbrev check_predecessor : List TaskRecord → TaskRecord → Result RecordError (Unit {0})
check_predecessor records item = elim item.superseded_by [
  | none ↦ ok tt
  | some id ↦ do
    successor ← or_fail (find (has_record_id id) records) invalid
    guard (points_to item.id successor.supersedes) invalid
]

abbrev check_supersession : List TaskRecord → TaskRecord → Result RecordError (Unit {0})
check_supersession records item = do check_successor records item; check_predecessor records item

abbrev record_ids : List TaskRecord → List String
record_ids = map λ item. item.id

unfoldable pub validate_task_records : RecordedTask → Result RecordError (Unit {0})
validate_task_records t = do
  guard (leb (length t.records) max_records_per_task) limit_exceeded
  each (validate_task_record t.task t.records) t.records
  guard (distinct (record_ids t.records)) invalid
  each (check_supersession t.records) t.records
  assert_no_record_cycle t.records
