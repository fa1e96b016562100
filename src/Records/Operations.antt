-- ===== src/Records/Operations.antt =====
-- task-state/service.ts: creating, revising and transitioning the records of a task that the caller
-- has looked up. The task and its records are one value, as an operation also adds authorizations.
use latchkit.Base.{
  ℕ, suc, String, Bool, true, false, not, ◌&&◌, ◌||◌, List, [], ◌∷◌, ◌++◌, Option, none, some, find,
  any, length, update_first, leb, ◌==◌, concat, is_some, if◌then◌else◌, Result, ok, err, guard,
  or_fail, ◌>>=◌, ◌>>◌,
}
use latchkit.Task.Model.{Task, Authorization, is_passed, source_equal}
use latchkit.Task.Store.{is_stable_id}
use latchkit.Task.Operations.{AuthorizationInput}
use latchkit.Records.Model.{
  RecordKind, observation, RecordStatus, superseded, verified, TaskRecord, TaskRecordProvenance,
  TaskRecordHistoryEntry, HistoryAction, created, revised, transitioned, RecordLink, evidence_link,
  RecordedTask, RecordError, invalid, limit_exceeded, record_not_found, link_invalid,
  record_transition_invalid, evidence_required, record_cycle, same_kind, same_status, includes,
  record_statuses, record_initial_status, is_record_transition_valid, is_record_status_terminal,
  is_record_authoritative_status, record_transition_requires_authority, max_record_history,
  max_records_per_task,
}
use latchkit.Records.Cycles.{
  Visit, cycle, detect_record_dependency_cycle, build_record_dependency_edges,
}
use latchkit.Records.Links.{
  RecordContext, RecordLinkInput, has_record_id, has_evidence_id, normalize_record_text,
  normalize_record_reason, normalize_record_provenance, normalize_links, given_text, find_record,
  assert_record_expected, resolve_record_authorization,
}

abbrev no_cycle : Visit → Result RecordError (Unit {0})
no_cycle (cycle path) = err (record_cycle path)
no_cycle _ = ok tt

unfoldable pub assert_no_record_cycle : List TaskRecord → Result RecordError (Unit {0})
assert_no_record_cycle records =
    no_cycle (detect_record_dependency_cycle (build_record_dependency_edges records))

-- A record at its next revision, with the entry for it.
abbrev pub next_entry :
    HistoryAction → Option String → Option String → ℕ → TaskRecord → TaskRecordHistoryEntry
next_entry action reason authorization_id at item = record {
  revision = suc item.revision;
  status = item.status;
  text = item.text;
  action = action;
  reason = reason;
  authorization_id = authorization_id;
  created_at = at;
}

abbrev pub advanced : HistoryAction → Option String → Option String → ℕ → TaskRecord → TaskRecord
advanced action reason authorization_id at item = record item {
  revision = suc item.revision;
  updated_at = at;
  history = item.history ++ next_entry action reason authorization_id at item ∷ [];
}

abbrev pub put_record : TaskRecord → List TaskRecord → List TaskRecord
put_record item = update_first (has_record_id item.id) (λ _. item)

abbrev granted : Option Authorization → Task → Task
granted none task = task
granted (some authorization) task = record task {
  authorizations = task.authorizations ++ authorization ∷ [];
}

-- The authorization that a change of status needs, and the task that holds it.
unfoldable pub authority :
    RecordContext
    → Task
    → Bool
    → Option String
    → Option AuthorizationInput
    → Result RecordError (Option String × Task)
authority ctx task false id input = ok (none, task)
authority ctx task true id input =
    resolve_record_authorization ctx task id input
    >>= (λ resolved. ok (some resolved.0, granted resolved.1 task))

pub record RecordCreateInput : Type 0 where
  pub kind : RecordKind
  pub text : String
  pub provenance : TaskRecordProvenance
  pub links : List RecordLinkInput
  pub supersedes : Option String
  pub authorization_id : Option String
  pub authorization : Option AuthorizationInput

abbrev pub new_record :
    RecordContext → RecordCreateInput → List RecordLink → Option String → TaskRecord
new_record ctx input links supersedes = record {
  id = ctx.call.fresh "record" 0;
  kind = input.kind;
  revision = 1;
  status = record_initial_status input.kind;
  text = input.text;
  provenance = input.provenance;
  links = links;
  supersedes = supersedes;
  superseded_by = none;
  history =
      record {
        revision = 1;
        status = record_initial_status input.kind;
        text = input.text;
        action = created;
        reason = none;
        authorization_id = none;
        created_at = ctx.call.at;
      }
      ∷ [];
  created_at = ctx.call.at;
  updated_at = ctx.call.at;
}

unfoldable pub superseded_target :
    RecordKind → List TaskRecord → Option String → Result RecordError (Option TaskRecord)
superseded_target kind records none = ok none
superseded_target kind records (some id) = do
  guard (is_stable_id "record" id) invalid
  target ← or_fail (find (has_record_id id) records) record_not_found
  guard (same_kind target.kind kind) invalid
  guard (not (is_record_status_terminal target.status)) record_transition_invalid
  ok (some target)

abbrev pub superseded_by_new : RecordContext → Option String → TaskRecord → TaskRecord
superseded_by_new ctx authorization_id target =
    advanced transitioned (some (concat ("Superseded by " ∷ ctx.call.fresh "record" 0 ∷ "." ∷ [])))
      authorization_id ctx.call.at
      (record target { status = superseded; superseded_by = some (ctx.call.fresh "record" 0) })

unfoldable pub supersede :
    RecordContext
    → RecordCreateInput
    → Option TaskRecord
    → RecordedTask
    → Result RecordError RecordedTask
supersede ctx input none t = ok t
supersede ctx input (some target) t =
    authority ctx t.task (record_transition_requires_authority target.kind target.status superseded)
      input.authorization_id input.authorization
    >>= (λ resolved. ok (record {
      task = resolved.1;
      records = put_record (superseded_by_new ctx resolved.0 target) t.records;
    }))

unfoldable pub apply_record_create_op :
    RecordContext → RecordCreateInput → RecordedTask → Result RecordError RecordedTask
apply_record_create_op ctx input t = do
  guard (not (leb max_records_per_task (length t.records))) limit_exceeded
  normalize_record_text input.text
  normalize_record_provenance input.provenance
  links ← normalize_links ctx t.task t.records input.links
  target ← superseded_target input.kind t.records (given_text input.supersedes)
  assert_no_record_cycle
      (t.records ++ new_record ctx input links (given_text input.supersedes) ∷ [])
  after ← supersede ctx input target t
  ok (record after {
    records = after.records ++ new_record ctx input links (given_text input.supersedes) ∷ [];
  })

pub record RecordReviseInput : Type 0 where
  pub record_id : String
  pub record_revision : ℕ
  pub text : Option String
  pub links : Option (List RecordLinkInput)
  pub reason : Option String

abbrev pub revised_text : Option String → TaskRecord → Result RecordError TaskRecord
revised_text none item = ok item
revised_text (some text) item = do normalize_record_text text; ok (record item { text = text })

abbrev pub revised_links :
    RecordContext
    → RecordedTask
    → Option (List RecordLinkInput)
    → TaskRecord
    → Result RecordError TaskRecord
revised_links ctx t none item = ok item
revised_links ctx t (some inputs) item = do
  links ← normalize_links ctx t.task (put_record item t.records) inputs
  assert_no_record_cycle (put_record (record item { links = links }) t.records)
  ok (record item { links = links })

unfoldable pub apply_record_revise_op :
    RecordContext → RecordReviseInput → RecordedTask → Result RecordError RecordedTask
apply_record_revise_op ctx input t = do
  target ← find_record input.record_id t.records
  assert_record_expected target input.record_revision
  guard (not (is_record_status_terminal target.status)) record_transition_invalid
  guard (not (is_record_authoritative_status target.kind target.status)) record_transition_invalid
  guard (is_some input.text || is_some input.links) invalid
  guard (not (leb max_record_history (length target.history))) limit_exceeded
  worded ← revised_text input.text target
  linked ← revised_links ctx t input.links worded
  ok (record t {
    records = put_record (advanced revised input.reason none ctx.call.at linked) t.records;
  })

pub record RecordTransitionInput : Type 0 where
  pub record_id : String
  pub record_revision : ℕ
  pub status : RecordStatus
  pub reason : String
  pub authorization_id : Option String
  pub authorization : Option AuthorizationInput
  pub evidence_id : Option String

abbrev pub links_evidence : String → RecordLink → Bool
links_evidence id (evidence_link linked) = linked == id
links_evidence id _ = false

abbrev pub with_evidence : String → TaskRecord → TaskRecord
with_evidence id item =
    if any (links_evidence id) item.links
    then item
    else record item { links = item.links ++ evidence_link id ∷ [] }

abbrev pub is_verification : RecordKind → RecordStatus → Bool
is_verification kind to = same_kind kind observation && same_status to verified

-- An observation is verified by passing evidence of the current source.
unfoldable pub assert_evidence : RecordContext → Task → Option String → Result RecordError String
assert_evidence ctx task none = err evidence_required
assert_evidence ctx task (some id) = do
  guard (is_stable_id "evidence" id) invalid
  evidence ← or_fail (find (has_evidence_id id) task.evidence) link_invalid
  guard (is_passed evidence.outcome) evidence_required
  guard (source_equal evidence.source ctx.call.source) evidence_required
  ok id

abbrev pub evidenced :
    RecordContext → Task → Option String → Bool → TaskRecord → Result RecordError TaskRecord
evidenced ctx task given false item = ok item
evidenced ctx task given true item = do
  id ← assert_evidence ctx task (given_text given)
  ok (with_evidence id item)

unfoldable pub apply_record_transition_op :
    RecordContext → RecordTransitionInput → RecordedTask → Result RecordError RecordedTask
apply_record_transition_op ctx input t = do
  target ← find_record input.record_id t.records
  assert_record_expected target input.record_revision
  normalize_record_reason input.reason
  guard (includes (record_statuses target.kind) input.status) invalid
  guard (is_record_transition_valid target.kind target.status input.status)
      record_transition_invalid
  guard (not (leb max_record_history (length target.history))) limit_exceeded
  resolved ←
      authority ctx t.task
        (record_transition_requires_authority target.kind target.status input.status)
        input.authorization_id input.authorization
  item ←
      evidenced ctx resolved.1 input.evidence_id (is_verification target.kind input.status) target
  ok (record {
    task = resolved.1;
    records =
        put_record
          (advanced transitioned (some input.reason) resolved.0 ctx.call.at
            (record item { status = input.status }))
          t.records;
  })

pub data RecordOperation : Type 0 where
  creating : RecordCreateInput → RecordOperation
  revising : RecordReviseInput → RecordOperation
  transitioning : RecordTransitionInput → RecordOperation

unfoldable pub perform_record :
    RecordContext → RecordOperation → RecordedTask → Result RecordError RecordedTask
perform_record ctx (creating input) t = apply_record_create_op ctx input t
perform_record ctx (revising input) t = apply_record_revise_op ctx input t
perform_record ctx (transitioning input) t = apply_record_transition_op ctx input t
