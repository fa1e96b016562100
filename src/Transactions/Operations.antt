-- ===== src/Transactions/Operations.antt =====
-- installer/transactions.ts: classifying the files of a journal, recovering from an interrupted
-- transaction, and applying one. The digest of bytes is a parameter.
use latchkit.Base.{
  ℕ, suc, String, Bool, true, false, not, ◌&&◌, List, [], ◌∷◌, ◌++◌, Option, none, some, is_empty,
  find, contains, ◌==◌, if◌then◌else◌, Result, ok, err, guard, or_fail, ◌>>=◌, ◌>>◌,
}
use latchkit.Transactions.Model.{
  File, Snapshot, missing, present, JournalResource, TransactionJournal, Disk, ResourceState,
  before, after, conflict, ResourceDescriptor, TransactionChange, Boundary, journal, manifest,
  resource, TransactionError, recovery_required, fault, recovery_conflict, unknown_resource,
  duplicate_resource, file_changed, still_pending, RecoveredState, no_journal, finalized,
  rolled_back, TransactionAction, restore, finalize, InspectedState, none_pending, pending,
  committed, in_conflict, manifest_path, journal_path,
}

abbrev pub same_snapshot : Snapshot → Snapshot → Bool
same_snapshot missing missing = true
same_snapshot (present b s m) (present c t n) = b == c && s == t
same_snapshot _ _ = false

-- What a file is after its restoration.
abbrev pub restored_file : Snapshot → Option File
restored_file missing = none
restored_file (present b s m) = some (record { bytes = b; mode = m })

unfoldable pub restore_snapshot : Disk → String → Snapshot → Disk
restore_snapshot disk path state = record disk {
  files = λ p. if p == path then restored_file state else disk.files p;
}

abbrev pub conflict_paths : List (JournalResource × ResourceState) → List String
conflict_paths [] = []
conflict_paths ((entry, conflict) ∷ items) = entry.path ∷ conflict_paths items
conflict_paths (_ ∷ items) = conflict_paths items

abbrev pub manifest_conflict : ResourceState → List String
manifest_conflict conflict = manifest_path ∷ []
manifest_conflict _ = []

unfoldable pub roll_back : Disk → List (JournalResource × ResourceState) → Disk
unfolding restore_snapshot
roll_back disk [] = disk
roll_back disk ((entry, after) ∷ items) =
    roll_back (restore_snapshot disk entry.path entry.before) items
roll_back disk (_ ∷ items) = roll_back disk items

abbrev without_journal : Disk → Disk
without_journal disk = record disk { journal = none }

abbrev restorations : List (JournalResource × ResourceState) → List TransactionAction
restorations [] = []
restorations ((entry, after) ∷ items) = restore entry.path ∷ restorations items
restorations (_ ∷ items) = restorations items

-- The mode of the file, or of the change, or 0o600.
abbrev pub kept_mode : Option File → Option ℕ → ℕ
kept_mode (some file) mode = file.mode
kept_mode none (some mode) = mode
kept_mode none none = 384

abbrev pub has_resource_id : String → ResourceDescriptor → Bool
has_resource_id id descriptor = descriptor.id == id

abbrev pub started : Disk → TransactionJournal → Disk
started disk j = record disk { journal = some j }

module _ (digest : String → String) where
  abbrev pub snapshot_of : Option File → Snapshot
  snapshot_of none = missing
  snapshot_of (some file) = present file.bytes (digest file.bytes) file.mode

  abbrev pub snapshot : Disk → String → Snapshot
  snapshot disk path = snapshot_of (disk.files path)

  abbrev pub desired_snapshot : Option String → ℕ → Snapshot
  desired_snapshot none mode = missing
  desired_snapshot (some bytes) mode = present bytes (digest bytes) mode

  unfoldable pub resource_state : Snapshot → Snapshot → Snapshot → ResourceState
  resource_state actual old new =
      if same_snapshot actual old
      then before
      else if same_snapshot actual new
      then after
      else conflict

  unfoldable pub classify : Disk → List JournalResource → List (JournalResource × ResourceState)
  unfolding resource_state
  classify disk [] = []
  classify disk (entry ∷ entries) =
      (entry, resource_state (snapshot disk entry.path) entry.before entry.after)
      ∷ classify disk entries

  abbrev pub manifest_state : Disk → TransactionJournal → ResourceState
  manifest_state disk j =
      resource_state (snapshot disk manifest_path) j.manifest_before j.manifest_after

  abbrev pub conflicts : Disk → TransactionJournal → List String
  conflicts disk j =
      conflict_paths (classify disk j.resources) ++ manifest_conflict (manifest_state disk j)

  abbrev pub inspected :
      Disk → TransactionJournal → ResourceState → InspectedState × List TransactionAction
  inspected disk j after = (committed, finalize journal_path ∷ [])
  inspected disk j _ = (pending, restorations (classify disk j.resources))

  -- The state and the actions that `inspectTransaction` reports for a readable journal.
  unfoldable pub inspect_transaction : Disk → InspectedState × List TransactionAction
  unfolding classify resource_state
  inspect_transaction disk = elim disk.journal [
    | none ↦ (none_pending, [])
    | some j ↦
        if is_empty (conflicts disk j)
        then inspected disk j (manifest_state disk j)
        else (in_conflict, [])
  ]

  abbrev pub settled : Disk → TransactionJournal → ResourceState → Disk × RecoveredState
  settled disk j before =
      (without_journal (roll_back disk (classify disk j.resources)), rolled_back)
  settled disk j _ = (without_journal disk, finalized)

  -- Recovery refuses before it writes anything.
  unfoldable pub recover_transaction : Disk → Result TransactionError (Disk × RecoveredState)
  unfolding classify resource_state roll_back
  recover_transaction disk = elim disk.journal [
    | none ↦ ok (disk, no_journal)
    | some j ↦
        if is_empty (conflicts disk j)
        then ok (settled disk j (manifest_state disk j))
        else err (recovery_conflict (conflicts disk j))
  ]

  abbrev pub new_resource : Disk → ResourceDescriptor → TransactionChange → JournalResource
  new_resource disk descriptor change = record {
    resource_id = descriptor.id;
    path = descriptor.path;
    before = snapshot disk descriptor.path;
    after = desired_snapshot change.bytes (kept_mode (disk.files descriptor.path) change.mode);
  }

  -- The journal's entries; each change names a registered resource, and no two the same one.
  unfoldable pub prepare :
      Disk
      → List ResourceDescriptor
      → List String
      → List TransactionChange
      → Result TransactionError (List JournalResource)
  prepare disk registry seen [] = ok []
  prepare disk registry seen (change ∷ changes) = do
    descriptor ←
        or_fail (find (has_resource_id change.resource_id) registry)
          (unknown_resource change.resource_id)
    guard (not (contains seen change.resource_id)) (duplicate_resource change.resource_id)
    later ← prepare disk registry (change.resource_id ∷ seen) changes
    ok (new_resource disk descriptor change ∷ later)

  abbrev pub new_journal :
      Disk → String → String → ℕ → String → List JournalResource → TransactionJournal
  new_journal disk id operation at bytes resources = record {
    transaction_id = id;
    operation = operation;
    created_at = at;
    manifest_before = snapshot disk manifest_path;
    manifest_after = desired_snapshot (some bytes) (kept_mode (disk.files manifest_path) none);
    resources = resources;
  }

  module _ (fails : Boundary → Bool) where
    unfoldable pub publish :
        ℕ → Disk → List JournalResource → Disk × Result TransactionError (Unit {0})
    unfolding restore_snapshot
    publish index disk [] = (disk, ok tt)
    publish index disk (entry ∷ entries) =
        let next = restore_snapshot disk entry.path entry.after in
        let rest = publish (suc index) next entries in
        if same_snapshot (snapshot disk entry.path) entry.before
        then (if fails (resource index) then (next, err fault) else rest)
        else (disk, err (file_changed entry.path))

    -- An error in the middle is followed by a recovery.
    unfoldable pub after_error : Disk → TransactionError → Disk × Result TransactionError (Unit {0})
    unfolding recover_transaction
    after_error disk error = elim (recover_transaction disk) [
      | ok (recovered, state) ↦ (recovered, err error)
      | err other ↦ (disk, err (still_pending error other))
    ]

    abbrev pub commit_manifest :
        TransactionJournal
        → Disk × Result TransactionError (Unit {0})
        → Disk × Result TransactionError (Unit {0})
    commit_manifest j (disk, err error) = after_error disk error
    commit_manifest j (disk, ok _) =
        let written = restore_snapshot disk manifest_path j.manifest_after in
        if fails manifest then after_error written fault else (without_journal written, ok tt)

    -- The call's identifier and its time stand for `randomUUID` and the clock.
    unfoldable pub apply_registered_transaction :
        String
        → ℕ
        → String
        → List ResourceDescriptor
        → List TransactionChange
        → String
        → Disk
        → Disk × Result TransactionError (Unit {0})
    unfolding prepare publish after_error restore_snapshot
    apply_registered_transaction id at operation registry changes bytes disk = elim disk.journal [
      | some j ↦ (disk, err recovery_required)
      | none ↦ elim (prepare disk registry [] changes) [
        | err error ↦ (disk, err error)
        | ok resources ↦
            let j = new_journal disk id operation at bytes resources in
            if fails journal
            then (started disk j, err fault)
            else commit_manifest j (publish 0 (started disk j) resources)
      ]
    ]
