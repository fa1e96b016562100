-- ===== src/Records/Changes.antt =====
-- What the operations on records change, and with whose authority.
use latchkit.Base.{
  ℕ, suc, ◌≡◌, refl, sym, subst, ap, ◌⊎◌, inl, inr, String, Bool, true, false, List, [], ◌∷◌, ◌++◌,
  Option, none, some, find, any, eq_iff, eq_self, find-holds, arith, Bool-cases, Option-cases,
  Result-cases, ok,
}
use latchkit.Task.Model.{Task, Authorization}
use latchkit.Task.Operations.{AuthorizationInput, normalize_authorization}
use latchkit.Task.Model.{direct_request}
use latchkit.Records.Model.{
  RecordKind, question, RecordStatus, withdrawn, superseded, TaskRecord, TaskRecordHistoryEntry,
  RecordedTask, HistoryAction, includes, record_statuses, is_record_transition_valid,
  is_record_status_terminal, record_transition_requires_authority, allowed_record_transitions,
}
use latchkit.Records.Links.{
  RecordContext, has_record_id, has_authorization_id, given_text, resolve_record_authorization,
  RecordLinkInput, normalize_links,
}
use latchkit.Records.Operations.{
  authority, put_record, advanced, next_entry, revised_text, revised_links, evidenced,
  with_evidence, links_evidence, assert_evidence, assert_no_record_cycle,
}

-- How a record differs behind an operation that left the task with these authorizations.
pub record IsChange (task : Task) (old new : TaskRecord) : Type 0 where
  pub kind : new.kind ≡ old.kind
  pub entry : TaskRecordHistoryEntry
  pub history : new.history ≡ old.history ++ entry ∷ []
  pub revision : new.revision ≡ suc old.revision
  pub numbered : entry.revision ≡ new.revision
  pub snapshot : (entry.status ≡ new.status) × (entry.text ≡ new.text)
  pub status :
      (new.status ≡ old.status)
      ⊎ ((is_record_transition_valid old.kind old.status new.status ≡ true)
          ⊎ ((old.kind ≡ question) × (old.status ≡ withdrawn) × (new.status ≡ superseded)))
  pub authorized :
      (new.status ≡ old.status)
      ⊎ ((record_transition_requires_authority old.kind old.status new.status ≡ false)
          ⊎ ((id : String) × (entry.authorization_id ≡ some id)
              × (any (has_authorization_id id) task.authorizations ≡ true)))

abbrev pub status_known : TaskRecord → Bool
status_known item = includes (record_statuses item.kind) item.status

pub supersede_allowed :
    (kind : RecordKind) (status : RecordStatus)
    → includes (record_statuses kind) status ≡ true
    → is_record_status_terminal status ≡ false
    → (is_record_transition_valid kind status superseded ≡ true)
      ⊎ ((kind ≡ question) × (status ≡ withdrawn))
unfolding allowed_record_transitions
supersede_allowed kind status k t = ground arith

find-any :
    (id : String) (items : List Authorization) (item : Authorization)
    → find (has_authorization_id id) items ≡ some item
    → any (has_authorization_id item.id) items ≡ true
find-any id [] item e = cc
find-any id (x ∷ items) item e = ground (arith, find-any id items item, eq_self x.id)

any-append_last :
    (items : List Authorization) (item : Authorization)
    → any (has_authorization_id item.id) (items ++ item ∷ []) ≡ true
any-append_last [] item = ground (arith, eq_self item.id)
any-append_last (x ∷ items) item = ground (arith, any-append_last items item)

pub authority-held :
    (ctx : RecordContext) (task after : Task) (needed : Bool) (id resolved : Option String)
    (input : Option AuthorizationInput)
    → authority ctx task needed id input ≡ ok (resolved, after)
    → (needed ≡ false)
      ⊎ ((held : String) × (resolved ≡ some held)
          × (any (has_authorization_id held) after.authorizations ≡ true))
unfolding authority resolve_record_authorization
authority-held ctx task after false id resolved input h = inl refl
authority-held ctx task after true id resolved input h = elim (Option-cases (given_text id)) [
  | inr (given, g) ↦ elim (Option-cases (find (has_authorization_id given) task.authorizations)) [
    | inl e ↦ ground arith
    | inr (existing, e) ↦
        inr (
          existing.id,
          ground (arith),
          ground (arith, find-any given task.authorizations existing e),
        )
  ]
  | inl g ↦ elim (Option-cases input) [
    | inl i ↦ ground arith
    | inr (grant, i) ↦
        elim (Result-cases (normalize_authorization ctx.call (some grant) direct_request)) [
          | inl (new, n) ↦
              inr (new.id, ground arith, ground (arith, any-append_last task.authorizations new))
          | inr (error, n) ↦ ground arith
        ]
  ]
]

-- The records behind an operation: at most one was changed, and others may have been added.
pub record IsTouched (t after : RecordedTask) (target new : TaskRecord) (added : List TaskRecord)
    : Type 0 where
  pub found : find (has_record_id target.id) t.records ≡ some target
  pub same_id : new.id ≡ target.id
  pub records : after.records ≡ put_record new t.records ++ added
  pub change : IsChange after.task target new

pub find_record_self :
    (id : String) (records : List TaskRecord) (target : TaskRecord)
    → find (has_record_id id) records ≡ some target
    → find (has_record_id target.id) records ≡ some target
find_record_self id records target e =
    subst (λ x. find (has_record_id x) records ≡ some target)
      (sym ((eq_iff target.id id).0 (find-holds (has_record_id id) records target e))) e

pub append-none : (records : List TaskRecord) → records ≡ records ++ []
append-none [] = refl
append-none (r ∷ records) = ap (λ rest. r ∷ rest) (append-none records)

-- A change of nothing but the status, the links or the text, at the next revision.
pub advanced-IsChange :
    (task : Task) (old item : TaskRecord) (action : HistoryAction)
    (reason authorization_id : Option String) (at : ℕ)
    → item.kind ≡ old.kind
    → item.revision ≡ old.revision
    → item.history ≡ old.history
    → (item.status ≡ old.status)
      ⊎ ((is_record_transition_valid old.kind old.status item.status ≡ true)
          ⊎ ((old.kind ≡ question) × (old.status ≡ withdrawn) × (item.status ≡ superseded)))
    → (item.status ≡ old.status)
      ⊎ ((record_transition_requires_authority old.kind old.status item.status ≡ false)
          ⊎ ((id : String) × (authorization_id ≡ some id)
              × (any (has_authorization_id id) task.authorizations ≡ true)))
    → IsChange task old (advanced action reason authorization_id at item)
advanced-IsChange task old item action reason authorization_id at k r h status authorized = record {
  kind = k;
  entry = next_entry action reason authorization_id at item;
  history = ap (λ rest. rest ++ next_entry action reason authorization_id at item ∷ []) h;
  revision = ap suc r;
  numbered = refl;
  snapshot = (refl, refl);
  status = status;
  authorized = authorized;
}

abbrev pub Shape : TaskRecord → TaskRecord → Type 0
Shape old item =
    (item.id ≡ old.id)
    × (item.kind ≡ old.kind)
    × (item.revision ≡ old.revision)
    × (item.history ≡ old.history)
    × (item.status ≡ old.status)

pub revised_text-Shape :
    (text : Option String) (old item : TaskRecord)
    → revised_text text old ≡ ok item
    → Shape old item
revised_text-Shape none old item h = ground arith
revised_text-Shape (some text) old item h = ground arith

pub revised_links-Shape :
    (ctx : RecordContext) (t : RecordedTask) (links : Option (List RecordLinkInput))
    (old item : TaskRecord)
    → revised_links ctx t links old ≡ ok item
    → Shape old item
revised_links-Shape ctx t none old item h = ground arith
revised_links-Shape ctx t (some inputs) old item h =
    elim (Result-cases (normalize_links ctx t.task (put_record old t.records) inputs)) [
      | inr (error, n) ↦ ground arith
      | inl (links, n) ↦
          elim (Result-cases
            (assert_no_record_cycle (put_record (record old { links = links }) t.records))) [
              | inr (error, c) ↦ ground arith
              | inl (passed, c) ↦ ground arith
            ]
    ]

with_evidence-Shape : (id : String) (old : TaskRecord) → Shape old (with_evidence id old)
with_evidence-Shape id old = elim (Bool-cases (any (links_evidence id) old.links)) [
  | inl e ↦ rw e (refl, refl, refl, refl, refl)
  | inr e ↦ rw e (refl, refl, refl, refl, refl)
]

pub evidenced-Shape :
    (ctx : RecordContext) (task : Task) (given : Option String) (needed : Bool)
    (old item : TaskRecord)
    → evidenced ctx task given needed old ≡ ok item
    → Shape old item
evidenced-Shape ctx task given false old item h = ground arith
evidenced-Shape ctx task given true old item h =
    elim (Result-cases (assert_evidence ctx task (given_text given))) [
      | inr (error, e) ↦ ground arith
      | inl (id, e) ↦
          let same : with_evidence id old ≡ item = ground arith in
          subst (Shape old) same (with_evidence-Shape id old)
    ]
