-- ===== src/Records/Links.antt =====
-- task-state/service.ts: the inputs of the record operations, and their normalized forms.
use latchkit.Base.{
  ℕ, String, Bool, true, false, not, ◌&&◌, ◌||◌, List, [], ◌∷◌, Option, none, some, find, any, all,
  length, map, eqb, leb, ◌==◌, codes, strip_prefix, lower, is_hex, is_blank, utf8_bytes,
  if◌then◌else◌, Result, ok, err, guard, or_fail, ◌>>=◌, ◌>>◌,
}
use latchkit.Task.Model.{Task, TaskError, TaskEvidence, Criterion, Authorization}
use latchkit.Task.Store.{Context, is_stable_id}
use latchkit.Task.Operations.{AuthorizationInput, normalize_authorization}
use latchkit.Task.Model.{direct_request}
use latchkit.Records.Model.{
  RecordLink, record_link, criterion_link, evidence_link, memory_link, source_link, TaskRecord,
  TaskRecordProvenance, RecordError, invalid, text_too_large, limit_exceeded, record_not_found,
  record_stale, link_invalid, source_missing, record_authorization_invalid, authority_required,
  task_error, max_record_text_bytes, max_record_reason_bytes, max_record_reference_bytes,
  max_record_links,
}

pub data RecordLinkInput : Type 0 where
  record_input criterion_input : String → Option ℕ → RecordLinkInput
  evidence_input : String → RecordLinkInput
  memory_input : String → ℕ → RecordLinkInput
  -- The path, and `digestUnavailable`.
  source_input : List ℕ → Bool → RecordLinkInput

-- The call's context, and the digests of the project's files, `none` where there is no file.
pub record RecordContext : Type 0 where
  pub call : Context
  pub file_digest : List ℕ → Option String

abbrev pub has_record_id : String → TaskRecord → Bool
has_record_id id item = item.id == id

abbrev has_criterion_id : String → Criterion → Bool
has_criterion_id id item = item.id == id

abbrev pub has_evidence_id : String → TaskEvidence → Bool
has_evidence_id id item = item.id == id

abbrev pub has_authorization_id : String → Authorization → Bool
has_authorization_id id item = item.id == id

abbrev pub bounded : ℕ → String → Result RecordError (Unit {0})
bounded limit text = do
  guard (not (is_blank text)) invalid
  guard (leb (utf8_bytes (codes text)) limit) text_too_large

abbrev pub normalize_record_text : String → Result RecordError (Unit {0})
normalize_record_text = bounded max_record_text_bytes

abbrev pub normalize_record_reason : String → Result RecordError (Unit {0})
normalize_record_reason = bounded max_record_reason_bytes

abbrev pub normalize_record_provenance : TaskRecordProvenance → Result RecordError (Unit {0})
normalize_record_provenance provenance = bounded max_record_reference_bytes provenance.reference

abbrev revision_or : Option ℕ → ℕ → ℕ
revision_or none default = default
revision_or (some revision) default = revision

abbrev linked_revision : Option ℕ → ℕ → Result RecordError ℕ
linked_revision given current = do
  guard (leb 1 (revision_or given current) && leb (revision_or given current) current) link_invalid
  ok (revision_or given current)

-- `replaceAll('\\', '/')`.
abbrev forward : ℕ → ℕ
forward c = if eqb c 92 then 47 else c

abbrev split_next : ℕ → List (List ℕ) → List (List ℕ)
split_next c [] = (c ∷ []) ∷ []
split_next c (part ∷ parts) = (c ∷ part) ∷ parts

-- `split('/')`.
abbrev pub split_path : List ℕ → List (List ℕ)
split_path [] = [] ∷ []
split_path (c ∷ cs) = let rest = split_path cs in if eqb c 47 then [] ∷ rest else split_next c rest

abbrev bad_part : List ℕ → Bool
bad_part [] = true
bad_part (c ∷ []) = eqb c 46
bad_part (c ∷ d ∷ []) = eqb c 46 && eqb d 46
bad_part (c ∷ d ∷ e ∷ part) = false

abbrev pub is_relative : List ℕ → Bool
is_relative path = not (any bad_part (split_path path))

abbrev is_memory_part : ℕ → Bool
is_memory_part c = is_hex c || eqb c 45

abbrev memory_shape : Option (List ℕ) → Bool
memory_shape none = false
memory_shape (some rest) = eqb (length rest) 36 && all is_memory_part rest

abbrev pub is_memory_id : String → Bool
is_memory_id id = memory_shape (strip_prefix (codes "memory_") (map lower (codes id)))

unfoldable pub normalize_record_link :
    RecordContext → Task → List TaskRecord → RecordLinkInput → Result RecordError RecordLink
normalize_record_link ctx task records (record_input id given) = do
  guard (is_stable_id "record" id) invalid
  target ← or_fail (find (has_record_id id) records) link_invalid
  revision ← linked_revision given target.revision
  ok (record_link id revision)
normalize_record_link ctx task records (criterion_input id given) = do
  guard (is_stable_id "criterion" id) invalid
  criterion ← or_fail (find (has_criterion_id id) task.criteria) link_invalid
  revision ← linked_revision given criterion.revision
  ok (criterion_link id revision)
normalize_record_link ctx task records (evidence_input id) = do
  guard (is_stable_id "evidence" id) invalid
  guard (any (has_evidence_id id) task.evidence) link_invalid
  ok (evidence_link id)
normalize_record_link ctx task records (memory_input id revision) = do
  guard (is_memory_id id) invalid
  guard (leb 1 revision) invalid
  ok (memory_link id revision)
normalize_record_link ctx task records (source_input given digest_unavailable) = do
  guard (is_relative (map forward given)) invalid
  if digest_unavailable
      then ok (source_link (map forward given) none ctx.call.at)
      else or_fail (ctx.file_digest (map forward given)) source_missing
        >>= (λ digest. ok (source_link (map forward given) (some digest) ctx.call.at))

abbrev normalize_each :
    RecordContext
    → Task
    → List TaskRecord
    → List RecordLinkInput
    → Result RecordError (List RecordLink)
normalize_each ctx task records [] = ok []
normalize_each ctx task records (input ∷ inputs) = do
  link ← normalize_record_link ctx task records input
  links ← normalize_each ctx task records inputs
  ok (link ∷ links)

unfoldable pub normalize_links :
    RecordContext
    → Task
    → List TaskRecord
    → List RecordLinkInput
    → Result RecordError (List RecordLink)
normalize_links ctx task records inputs = do
  guard (leb (length inputs) max_record_links) limit_exceeded
  normalize_each ctx task records inputs

-- A test of an optional text for truth: the empty text is none.
abbrev pub given_text : Option String → Option String
given_text none = none
given_text (some text) = if text == "" then none else some text

abbrev pub lifted {ℓ} : {A : Type ℓ} → Result TaskError A → Result RecordError A
lifted (ok a) = ok a
lifted (err e) = err (task_error e)

unfoldable pub find_record : String → List TaskRecord → Result RecordError TaskRecord
find_record id records = do
  guard (is_stable_id "record" id) invalid
  or_fail (find (has_record_id id) records) record_not_found

unfoldable pub assert_record_expected : TaskRecord → ℕ → Result RecordError (Unit {0})
assert_record_expected target expected = do
  guard (leb 1 expected) invalid
  guard (eqb target.revision expected) record_stale

unfoldable pub resolve_record_authorization :
    RecordContext
    → Task
    → Option String
    → Option AuthorizationInput
    → Result RecordError (String × Option Authorization)
resolve_record_authorization ctx task id input = elim (given_text id) [
  | some id ↦ do
    guard (is_stable_id "authorization" id) invalid
    existing ←
        or_fail (find (has_authorization_id id) task.authorizations) record_authorization_invalid
    ok (existing.id, none)
  | none ↦ elim input [
    | none ↦ err authority_required
    | some given ↦
        lifted (normalize_authorization ctx.call (some given) direct_request)
        >>= (λ granted. ok (granted.id, some granted))
  ]
]
