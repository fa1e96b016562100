-- ===== src/Transactions/Publish.antt =====
-- Publishing the resources of a prepared transaction: what each stop in the middle leaves.
use latchkit.Base.{
  ℕ, suc, ◌≡◌, refl, sym, ◌∙◌, subst, ap, String, Bool, true, false, List, [], ◌∷◌, Option, none,
  some, contains, distinct, eq_iff, eq_self, Result-cases, ok, err, find, arith, ◌⊎◌, inl, inr,
  Bool-cases, Option-cases,
}
use latchkit.Transactions.Model.{
  File, Snapshot, JournalResource, Disk, ResourceDescriptor, TransactionChange, Boundary, resource,
  fault, file_changed,
}
use latchkit.Transactions.Operations.{
  same_snapshot, restored_file, restore_snapshot, snapshot_of, snapshot, desired_snapshot,
  kept_mode, has_resource_id, new_resource, prepare, publish,
}
use latchkit.Transactions.Rollback.{
  paths, keeps_mode, IsEntry, AllEntries, restored-at, restored_snapshot,
}

-- Every entry has its new file.
abbrev pub AllPublished : Disk → List JournalResource → Type 0
AllPublished disk [] = Unit {0}
AllPublished disk (e ∷ es) = (disk.files e.path ≡ restored_file e.after) × AllPublished disk es

abbrev pub desired_file : Option String → ℕ → Option File
desired_file none mode = none
desired_file (some bytes) mode = some (record { bytes = bytes; mode = mode })

pub desired_snapshot-file :
    (digest : String → String) (bytes : Option String) (mode : ℕ)
    → desired_snapshot digest bytes mode ≡ snapshot_of digest (desired_file bytes mode)
desired_snapshot-file digest none mode = refl
desired_snapshot-file digest (some bytes) mode = refl

keeps_mode-kept :
    (f : Option File) (bytes : Option String) (mode : Option ℕ)
    → keeps_mode f (desired_file bytes (kept_mode f mode)) ≡ true
keeps_mode-kept none bytes mode = refl
keeps_mode-kept (some f) none mode = refl
keeps_mode-kept (some f) (some bytes) mode = ground arith

new_resource-IsEntry :
    (digest : String → String) (disk : Disk) (descriptor : ResourceDescriptor)
    (change : TransactionChange)
    → IsEntry digest disk disk (new_resource digest disk descriptor change)
new_resource-IsEntry digest disk descriptor change =
    let f = disk.files descriptor.path in
    record {
      new = desired_file change.bytes (kept_mode f change.mode);
      before_is = refl;
      after_is = desired_snapshot-file digest change.bytes (kept_mode f change.mode);
      same_mode = keeps_mode-kept f change.bytes change.mode;
      touched = inl refl;
    }

-- A prepared transaction has touched nothing.
pub prepare-AllEntries :
    (digest : String → String) (disk : Disk) (registry : List ResourceDescriptor)
    (seen : List String) (changes : List TransactionChange) (es : List JournalResource)
    → prepare digest disk registry seen changes ≡ ok es
    → AllEntries digest disk disk es
unfolding prepare
prepare-AllEntries digest disk registry seen [] es h =
    subst (λ xs. AllEntries digest disk disk xs) {x = []} (ground arith) tt
prepare-AllEntries digest disk registry seen (change ∷ changes) es h =
    elim (Option-cases (find (has_resource_id change.resource_id) registry)) [
      | inl absent ↦ absurd (ground arith)
      | inr (descriptor, found) ↦
          elim (Result-cases (prepare digest disk registry (change.resource_id ∷ seen) changes)) [
            | inr (error, e) ↦ absurd (ground arith)
            | inl (later, e) ↦
                subst (λ xs. AllEntries digest disk disk xs)
                  {x = new_resource digest disk descriptor change ∷ later} (ground arith)
                  (
                    new_resource-IsEntry digest disk descriptor change,
                    prepare-AllEntries digest disk registry (change.resource_id ∷ seen) changes
                        later e,
                  )
          ]
    ]

pub restored-here :
    (disk : Disk) (path : String) (state : Snapshot)
    → (restore_snapshot disk path state).files path ≡ restored_file state
restored-here disk path state = elim (restored-at disk path path state) [
  | inl (_, done) ↦ done
  | inr (other, _) ↦ absurd (ground (arith, eq_self path))
]

module _ (digest : String → String) (old : Disk) where
  moved-IsEntry :
      (disk later : Disk) (e : JournalResource)
      → later.files e.path ≡ disk.files e.path
      → IsEntry digest old disk e
      → IsEntry digest old later e
  moved-IsEntry disk later e same i = record {
    new = i.new;
    before_is = i.before_is;
    after_is = i.after_is;
    same_mode = i.same_mode;
    touched = rw same i.touched;
  }

  pub write-AllEntries :
      (es : List JournalResource) (disk : Disk) (path : String) (state : Snapshot)
      → contains (paths es) path ≡ false
      → AllEntries digest old disk es
      → AllEntries digest old (restore_snapshot disk path state) es
  write-AllEntries [] disk path state h a = tt
  write-AllEntries (e ∷ es) disk path state h (i, a) = elim (restored-at disk path e.path state) [
    | inl (same, _) ↦ absurd (ground (arith, eq_iff e.path path))
    | inr (_, kept) ↦
        (moved-IsEntry disk _ e kept i, write-AllEntries es disk path state (ground arith) a)
  ]

  written-IsEntry :
      (disk : Disk) (e : JournalResource)
      → IsEntry digest old disk e
      → IsEntry digest old (restore_snapshot disk e.path e.after) e
  written-IsEntry disk e i = record {
    new = i.new;
    before_is = i.before_is;
    after_is = i.after_is;
    same_mode = i.same_mode;
    touched = inr (
        restored-here disk e.path e.after
        ∙ (ap restored_file i.after_is ∙ restored_snapshot digest i.new));
  }

  pub AllEntries_same :
      (disk later : Disk) (es : List JournalResource)
      → later.files ≡ disk.files
      → AllEntries digest old disk es
      → AllEntries digest old later es
  AllEntries_same disk later [] h a = tt
  AllEntries_same disk later (e ∷ es) h (i, a) = (
    moved-IsEntry disk later e (ap (λ files. files e.path) h) i,
    AllEntries_same disk later es h a,
  )

  module _ (fails : Boundary → Bool) where
    pub publish-journal :
        (n : ℕ) (disk : Disk) (es : List JournalResource)
        → (publish digest fails n disk es).0.journal ≡ disk.journal
    unfolding publish
    publish-journal n disk [] = refl
    publish-journal n disk (e ∷ es) =
        ground (arith, publish-journal (suc n) (restore_snapshot disk e.path e.after) es)

    pub publish-elsewhere :
        (n : ℕ) (disk : Disk) (es : List JournalResource) (p : String)
        → contains (paths es) p ≡ false
        → (publish digest fails n disk es).0.files p ≡ disk.files p
    unfolding publish
    publish-elsewhere n disk [] p h = refl
    publish-elsewhere n disk (e ∷ es) p h = ground (
      arith,
      publish-elsewhere (suc n) (restore_snapshot disk e.path e.after) es p,
      eq_iff p e.path,
      eq_iff e.path p,
    )

    -- The three ways in which the first entry is dealt with.
    Steps : ℕ → Disk → JournalResource → List JournalResource → Type 0
    Steps n disk e es =
        (publish digest fails n disk (e ∷ es) ≡ (disk, err (file_changed e.path)))
        ⊎ ((publish digest fails n disk (e ∷ es)
              ≡ (restore_snapshot disk e.path e.after, err fault))
            ⊎ (publish digest fails n disk (e ∷ es)
                ≡ publish digest fails (suc n) (restore_snapshot disk e.path e.after) es))

    publish-Steps :
        (n : ℕ) (disk : Disk) (e : JournalResource) (es : List JournalResource) → Steps n disk e es
    unfolding Steps publish
    publish-Steps n disk e es =
        elim (Bool-cases (same_snapshot (snapshot digest disk e.path) e.before)) [
          | inr changed ↦ inl (rw changed refl)
          | inl same ↦ inr (elim (Bool-cases (fails (resource n))) [
            | inl stop ↦ inl (rw same (rw stop refl))
            | inr go ↦ inr (rw same (rw go refl))
          ])
        ]

    -- Wherever publishing stops, each entry has its old file or its new one.
    pub publish-AllEntries :
        (n : ℕ) (disk : Disk) (es : List JournalResource)
        → distinct (paths es) ≡ true
        → AllEntries digest old disk es
        → AllEntries digest old (publish digest fails n disk es).0 es
    unfolding Steps
    publish-AllEntries n disk [] d a = a
    publish-AllEntries n disk (e ∷ es) d (i, a) =
        let next = restore_snapshot disk e.path e.after in
        let later = write-AllEntries es disk e.path e.after (ground arith) a in
        let written = written-IsEntry disk e i in
        elim (publish-Steps n disk e es) [
          | inl s ↦ subst (λ r. AllEntries digest old r.0 (e ∷ es)) (sym s) (i, a)
          | inr (inl s) ↦ subst (λ r. AllEntries digest old r.0 (e ∷ es)) (sym s) (written, later)
          | inr (inr s) ↦
              subst (λ r. AllEntries digest old r.0 (e ∷ es)) (sym s)
                (
                  moved-IsEntry next _ e (publish-elsewhere (suc n) next es e.path (ground arith))
                      written,
                  publish-AllEntries (suc n) next es (ground arith) later,
                )
        ]

    -- Publishing that ends without an error has published every entry.
    pub publish-AllPublished :
        (n : ℕ) (disk : Disk) (es : List JournalResource)
        → distinct (paths es) ≡ true
        → (publish digest fails n disk es).1 ≡ ok tt
        → AllPublished (publish digest fails n disk es).0 es
    unfolding Steps
    publish-AllPublished n disk [] d h = tt
    publish-AllPublished n disk (e ∷ es) d h =
        let next = restore_snapshot disk e.path e.after in
        elim (publish-Steps n disk e es) [
          | inl s ↦ absurd (ground arith)
          | inr (inl s) ↦ absurd (ground arith)
          | inr (inr s) ↦
              subst (λ r. AllPublished r.0 (e ∷ es)) (sym s)
                (
                  publish-elsewhere (suc n) next es e.path (ground arith)
                      ∙ restored-here disk e.path e.after,
                  publish-AllPublished (suc n) next es (ground arith) (ground arith),
                )
        ]
