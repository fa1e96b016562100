-- ===== src/Transactions/Atomic.antt =====
-- A transaction happens whole or not at all, also when the process stops in the middle.
use latchkit.Base.{
  ℕ, ◌≡◌, ◌≢◌, refl, sym, ◌∙◌, subst, ap, String, Bool, true, false, List, [], ◌∷◌, none, some,
  contains, distinct, eq_iff, Result, Result-cases, ok, err, arith, ◌⊎◌, inl, inr, Bool-cases,
}
use latchkit.Transactions.Model.{
  Snapshot, JournalResource, TransactionJournal, Disk, ResourceDescriptor, TransactionChange,
  Boundary, journal, manifest, TransactionError, rolled_back, finalized, after, manifest_path,
}
use latchkit.Transactions.Operations.{
  same_snapshot, snapshot, resource_state, classify, conflict_paths, conflicts, manifest_state,
  restored_file, restore_snapshot, desired_snapshot, kept_mode, prepare, publish, new_journal,
  started, recover_transaction, after_error, commit_manifest, apply_registered_transaction,
}
use latchkit.Transactions.Rollback.{
  paths, no_conflict, same_snapshot_self, restored-at, restored_snapshot, AllEntries,
  recover_transaction-rolls_back,
}
use latchkit.Transactions.Publish.{
  write-AllEntries, restored-here, AllPublished, prepare-AllEntries, AllEntries_same,
  publish-journal, publish-elsewhere, publish-AllEntries, publish-AllPublished,
}

-- Every resource and the manifest are the new ones, and nothing else has changed.
pub record IsCommitted (disk done : Disk) (es : List JournalResource) (j : TransactionJournal)
    : Type 0 where
  pub published : AllPublished done es
  pub manifest_new : done.files manifest_path ≡ restored_file j.manifest_after
  pub others :
      (p : String)
      → (contains (paths es) p ≡ true) ⊎ ((p ≡ manifest_path) ⊎ (done.files p ≡ disk.files p))

-- All of it, or none.
abbrev pub IsAtomic :
    Disk
    → List JournalResource
    → TransactionJournal
    → Disk × Result TransactionError (Unit {0})
    → Type 0
IsAtomic disk es j (done, result) =
    ((result ≡ ok tt) × IsCommitted disk done es j)
    ⊎ ((result ≢ ok tt) × ((p : String) → done.files p ≡ disk.files p))

AllPublished_off :
    (es : List JournalResource) (disk : Disk) (path : String) (state : Snapshot)
    → contains (paths es) path ≡ false
    → AllPublished disk es
    → AllPublished (restore_snapshot disk path state) es
AllPublished_off [] disk path state h a = tt
AllPublished_off (e ∷ es) disk path state h (here, a) = elim (restored-at disk path e.path state) [
  | inl (same, _) ↦ absurd (ground (arith, eq_iff e.path path))
  | inr (_, kept) ↦ (kept ∙ here, AllPublished_off es disk path state (ground arith) a)
]

AllPublished_same :
    (es : List JournalResource) (disk done : Disk)
    → done.files ≡ disk.files
    → AllPublished disk es
    → AllPublished done es
AllPublished_same [] disk done h a = tt
AllPublished_same (e ∷ es) disk done h (here, a) =
    (ap (λ files. files e.path) h ∙ here, AllPublished_same es disk done h a)

restored-journal :
    (disk : Disk) (path : String) (state : Snapshot)
    → (restore_snapshot disk path state).journal ≡ disk.journal
unfolding restore_snapshot
restored-journal disk path state = refl

recover_transaction-finalized :
    (digest : String → String) (now : Disk) (j : TransactionJournal)
    → now.journal ≡ some j
    → conflict_paths (classify digest now j.resources) ≡ []
    → manifest_state digest now j ≡ after
    → recover_transaction digest now ≡ ok (record now { journal = none }, finalized)
unfolding recover_transaction
recover_transaction-finalized digest now j found clean state =
    let fits : conflicts digest now j ≡ [] = rw clean (rw state refl) in
    rw found (rw fits (rw state refl))

new_manifest-state :
    (digest : String → String) (disk : Disk) (old : Snapshot) (bytes : String) (mode : ℕ)
    → same_snapshot (desired_snapshot digest (some bytes) mode) old ≡ false
    → resource_state digest
        (snapshot digest
          (restore_snapshot disk manifest_path (desired_snapshot digest (some bytes) mode))
          manifest_path)
        old
        (desired_snapshot digest (some bytes) mode)
      ≡ after
unfolding resource_state
new_manifest-state digest disk old bytes mode differs =
    let state = desired_snapshot digest (some bytes) mode in
    let new : (restore_snapshot disk manifest_path state).files manifest_path
        ≡ some (record { bytes = bytes; mode = mode }) =
      restored-here disk manifest_path state in
    rw new (
      rw differs
        (rw (same_snapshot_self digest (some (record { bytes = bytes; mode = mode }))) refl))

-- Each resource's file is the one of before or the one that the journal announces.
abbrev pub AllOldOrNew : Disk → Disk → List JournalResource → Type 0
AllOldOrNew old now [] = Unit {0}
AllOldOrNew old now (e ∷ es) =
    ((now.files e.path ≡ old.files e.path) ⊎ (now.files e.path ≡ restored_file e.after))
    × AllOldOrNew old now es

AllOldOrNew-entries :
    (digest : String → String) (old now : Disk) (es : List JournalResource)
    → AllEntries digest old old es
    → AllOldOrNew old now es
    → AllEntries digest old now es
AllOldOrNew-entries digest old now [] a w = tt
AllOldOrNew-entries digest old now (e ∷ es) (i, a) (w, ws) = (
  record {
    new = i.new;
    before_is = i.before_is;
    after_is = i.after_is;
    same_mode = i.same_mode;
    touched = elim w [
      | inl same ↦ inl same
      | inr written ↦ inr (written ∙ ap restored_file i.after_is ∙ restored_snapshot digest i.new)
    ];
  },
  AllOldOrNew-entries digest old now es a ws,
)

-- On a disk that a transaction may have left between its journal and its manifest, recovery succeeds,
-- leaves every file as it was before the transaction and removes the journal. The disk holds the
-- journal of changes that were accepted; any of their files, none or all, in whatever order they were
-- written, are the new ones, and the others, the manifest with them, are as before.
pub interrupted-rolls_back :
    (digest : String → String) (id operation bytes : String) (at : ℕ)
    (registry : List ResourceDescriptor) (changes : List TransactionChange) (disk now : Disk)
    (es : List JournalResource)
    → prepare digest disk registry [] changes ≡ ok es
    → contains (paths es) manifest_path ≡ false
    → now.journal ≡ some (new_journal digest disk id operation at bytes es)
    → AllOldOrNew disk now es
    → ((p : String) → (contains (paths es) p ≡ true) ⊎ (now.files p ≡ disk.files p))
    → (done : Disk) × (recover_transaction digest now ≡ ok (done, rolled_back))
      × (done.journal ≡ none)
      × ((p : String) → done.files p ≡ disk.files p)
interrupted-rolls_back digest id operation bytes at registry changes disk now es ready apart found
      written others =
    recover_transaction-rolls_back digest disk now
      (new_journal digest disk id operation at bytes es)
      (record {
        journal_is = found;
        manifest_is = refl;
        manifest_kept = elim (others manifest_path) [
          | inl listed ↦ absurd (ground arith)
          | inr same ↦ same
        ];
        entries =
            AllOldOrNew-entries digest disk now es
              (prepare-AllEntries digest disk registry [] changes es ready) written;
        others = others;
      })

module _ (digest : String → String) (fails : Boundary → Bool) (id operation bytes : String) (at : ℕ)
    (registry : List ResourceDescriptor) (changes : List TransactionChange) (disk : Disk)
    (es : List JournalResource) (ready : prepare digest disk registry [] changes ≡ ok es)
    (unique : distinct (paths es) ≡ true) (apart : contains (paths es) manifest_path ≡ false) where
  abbrev pub written_journal : TransactionJournal
  written_journal = new_journal digest disk id operation at bytes es

  abbrev pub published : Disk × Result TransactionError (Unit {0})
  published = publish digest fails 0 (started disk written_journal) es

  elsewhere : (p : String) → (contains (paths es) p ≡ true) ⊎ (published.0.files p ≡ disk.files p)
  elsewhere p = elim (Bool-cases (contains (paths es) p)) [
    | inl e ↦ inl e
    | inr e ↦ inr (publish-elsewhere digest disk fails 0 (started disk written_journal) es p e)
  ]

  publish-rolls_back :
      (done : Disk) × (recover_transaction digest published.0 ≡ ok (done, rolled_back))
      × (done.journal ≡ none)
      × ((p : String) → done.files p ≡ disk.files p)
  publish-rolls_back =
      recover_transaction-rolls_back digest disk published.0 written_journal (record {
        journal_is = publish-journal digest disk fails 0 (started disk written_journal) es;
        manifest_is = refl;
        manifest_kept =
            publish-elsewhere digest disk fails 0 (started disk written_journal) es manifest_path
              apart;
        entries = publish-AllEntries digest disk fails 0 (started disk written_journal) es unique (
            AllEntries_same digest disk disk (started disk written_journal) es refl
              (prepare-AllEntries digest disk registry [] changes es ready));
        others = elsewhere;
      })

  unfoldable pub written_disk : Disk
  written_disk =
      record (restore_snapshot published.0 manifest_path written_journal.manifest_after) {
        journal = none;
      }

  written-IsCommitted : published.1 ≡ ok tt → IsCommitted disk written_disk es written_journal
  unfolding written_disk
  written-IsCommitted h =
      let state = written_journal.manifest_after in
      let all =
        publish-AllPublished digest disk fails 0 (started disk written_journal) es unique h in
      record {
        published =
            AllPublished_same es (restore_snapshot published.0 manifest_path state) written_disk
              refl (AllPublished_off es published.0 manifest_path state apart all);
        manifest_new = restored-here published.0 manifest_path state;
        others = λ p. elim (elsewhere p) [
          | inl e ↦ inl e
          | inr e ↦ inr (elim (restored-at published.0 manifest_path p state) [
            | inl (same, _) ↦ inl same
            | inr (_, kept) ↦ inr (kept ∙ e)
          ])
        ];
      }

  -- Once all resources and the manifest are written, recovery succeeds and changes no file but the
  -- journal, when the manifest's text is new and the changes are accepted and have paths of their
  -- own, none the manifest's.
  pub publish-finalizes :
      published.1 ≡ ok tt
      → same_snapshot written_journal.manifest_after written_journal.manifest_before ≡ false
      → recover_transaction digest
          (restore_snapshot published.0 manifest_path written_journal.manifest_after)
        ≡ ok (written_disk, finalized)
  unfolding written_disk
  publish-finalizes h differs =
      let now = restore_snapshot published.0 manifest_path written_journal.manifest_after in
      let entries =
        publish-AllEntries digest disk fails 0 (started disk written_journal) es unique (
          AllEntries_same digest disk disk (started disk written_journal) es refl
            (prepare-AllEntries digest disk registry [] changes es ready)) in
      recover_transaction-finalized digest now written_journal
        (restored-journal published.0 manifest_path written_journal.manifest_after
          ∙ publish-journal digest disk fails 0 (started disk written_journal) es)
        (no_conflict digest disk now es (
          write-AllEntries digest disk es published.0 manifest_path written_journal.manifest_after
            apart entries))
        (new_manifest-state digest published.0 written_journal.manifest_before bytes
          (kept_mode (disk.files manifest_path) none) differs)

  apply-commit_manifest :
      disk.journal ≡ none
      → fails journal ≡ false
      → apply_registered_transaction digest fails id at operation registry changes bytes disk
        ≡ commit_manifest digest fails written_journal published
  unfolding apply_registered_transaction
  apply-commit_manifest clear no_stop = ground (arith, ready)

  commit_manifest-ok :
      published.1 ≡ ok tt
      → fails manifest ≡ false
      → commit_manifest digest fails written_journal published ≡ (written_disk, ok tt)
  unfolding written_disk
  commit_manifest-ok h no_stop = rw h (rw no_stop refl)

  commit_manifest-err :
      (error : TransactionError) (done : Disk)
      → published.1 ≡ err error
      → recover_transaction digest published.0 ≡ ok (done, rolled_back)
      → commit_manifest digest fails written_journal published ≡ (done, err error)
  unfolding after_error
  commit_manifest-err error done h recovers = ground arith

  -- A transaction on a disk without a journal, whose changes are accepted and have paths of their
  -- own, none the manifest's, and that is not stopped at the journal or behind the manifest, either
  -- publishes all its changes and the manifest and nothing else, or reports an error and leaves
  -- every file as it was. The journal is gone either way.
  pub apply_registered_transaction-IsAtomic :
      disk.journal ≡ none
      → fails journal ≡ false
      → fails manifest ≡ false
      → IsAtomic disk es written_journal
          (apply_registered_transaction digest fails id at operation registry changes bytes disk)
        × ((apply_registered_transaction digest fails id at operation registry changes bytes
              disk).0.journal
            ≡ none)
  unfolding written_disk
  apply_registered_transaction-IsAtomic clear no_stop no_late_stop =
      let P = λ (r : Disk × Result TransactionError (Unit {0})).
        IsAtomic disk es written_journal r × (r.0.journal ≡ none) in
      let runs = apply-commit_manifest clear no_stop in
      elim (Result-cases published.1) [
        | inl (_, h) ↦
            subst P (sym (runs ∙ commit_manifest-ok h no_late_stop))
              (inl (refl, written-IsCommitted h), refl)
        | inr (error, h) ↦
            let (done, recovers, clean, same) = publish-rolls_back in
            subst P (sym (runs ∙ commit_manifest-err error done h recovers))
              (inr ((λ e. cc), same), clean)
      ]
