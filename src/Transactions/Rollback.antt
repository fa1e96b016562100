-- ===== src/Transactions/Rollback.antt =====
-- Recovering from a transaction that stopped before its manifest was written.
use latchkit.Base.{
  ◌≡◌, refl, ◌∙◌, String, Bool, true, false, List, [], ◌∷◌, Option, none, some, contains, ◌==◌,
  eq_iff, eq_self, eqb, ok, arith, ◌⊎◌, inl, inr, Bool-cases, map,
}
use latchkit.Transactions.Model.{
  File, Snapshot, JournalResource, TransactionJournal, Disk, before, after, rolled_back,
  manifest_path,
}
use latchkit.Transactions.Operations.{
  same_snapshot, restored_file, restore_snapshot, snapshot_of, snapshot, resource_state, classify,
  conflict_paths, conflicts, manifest_state, roll_back, recover_transaction,
}

abbrev pub paths : List JournalResource → List String
paths = map λ e. e.path

-- The mode of a file that exists is kept.
abbrev pub keeps_mode : Option File → Option File → Bool
keeps_mode (some f) (some g) = eqb f.mode g.mode
keeps_mode _ _ = true

-- A journal's entry that records the file of `old` and a new one, which `now` has or has not yet.
pub record IsEntry (digest : String → String) (old now : Disk) (e : JournalResource) : Type 0 where
  pub new : Option File
  pub before_is : e.before ≡ snapshot digest old e.path
  pub after_is : e.after ≡ snapshot_of digest new
  pub same_mode : keeps_mode (old.files e.path) new ≡ true
  pub touched : (now.files e.path ≡ old.files e.path) ⊎ (now.files e.path ≡ new)

abbrev pub AllEntries : (String → String) → Disk → Disk → List JournalResource → Type 0
AllEntries digest old now [] = Unit {0}
AllEntries digest old now (e ∷ es) = IsEntry digest old now e × AllEntries digest old now es

-- A disk on which the transaction of a journal has written some of its resources, in any order, and
-- not its manifest; `old` is the disk before.
pub record IsInterrupted (digest : String → String) (old now : Disk) (j : TransactionJournal)
    : Type 0 where
  pub journal_is : now.journal ≡ some j
  pub manifest_is : j.manifest_before ≡ snapshot digest old manifest_path
  pub manifest_kept : now.files manifest_path ≡ old.files manifest_path
  pub entries : AllEntries digest old now j.resources
  pub others : (p : String) → (contains (paths j.resources) p ≡ true) ⊎ (now.files p ≡ old.files p)

pub restored_snapshot :
    (digest : String → String) (f : Option File) → restored_file (snapshot_of digest f) ≡ f
restored_snapshot digest none = refl
restored_snapshot digest (some f) = refl

pub same_snapshot_self :
    (digest : String → String) (f : Option File)
    → same_snapshot (snapshot_of digest f) (snapshot_of digest f) ≡ true
same_snapshot_self digest none = refl
same_snapshot_self digest (some f) = ground (arith, eq_self f.bytes, eq_self (digest f.bytes))

same_files :
    (digest : String → String) (f g : Option File)
    → keeps_mode f g ≡ true
    → same_snapshot (snapshot_of digest g) (snapshot_of digest f) ≡ true
    → g ≡ f
same_files digest none none k h = refl
same_files digest none (some g) k h = cc
same_files digest (some f) none k h = cc
same_files digest (some f) (some g) k h = ground (arith, eq_iff g.bytes f.bytes)

-- A file that is the old one or the new one is classified, and as untouched only when it is the old.
pub classified :
    (digest : String → String) (f g n : Option File)
    → keeps_mode f g ≡ true
    → (n ≡ f) ⊎ (n ≡ g)
    → ((resource_state digest (snapshot_of digest n) (snapshot_of digest f) (snapshot_of digest g)
          ≡ before)
        × (n ≡ f))
      ⊎ (resource_state digest (snapshot_of digest n) (snapshot_of digest f) (snapshot_of digest g)
          ≡ after)
unfolding resource_state
classified digest f g n k (inl e) = inl (rw e (rw (same_snapshot_self digest f) refl), e)
classified digest f g n k (inr e) =
    elim (Bool-cases (same_snapshot (snapshot_of digest g) (snapshot_of digest f))) [
      | inl same ↦ inl (rw e (rw same refl), e ∙ same_files digest f g k same)
      | inr other ↦ inr (rw e (rw other (rw (same_snapshot_self digest g) refl)))
    ]

entry_state :
    (digest : String → String) (old now : Disk) (e : JournalResource)
    → IsEntry digest old now e
    → ((resource_state digest (snapshot digest now e.path) e.before e.after ≡ before)
        × (now.files e.path ≡ old.files e.path))
      ⊎ (resource_state digest (snapshot digest now e.path) e.before e.after ≡ after)
entry_state digest old now e i = rw i.before_is (
    rw i.after_is
      (classified digest (old.files e.path) i.new (now.files e.path) i.same_mode i.touched))

pub no_conflict :
    (digest : String → String) (old now : Disk) (es : List JournalResource)
    → AllEntries digest old now es
    → conflict_paths (classify digest now es) ≡ []
unfolding classify
no_conflict digest old now [] a = refl
no_conflict digest old now (e ∷ es) (i, a) = elim (entry_state digest old now e i) [
  | inl (b, same) ↦ rw b (no_conflict digest old now es a)
  | inr b ↦ rw b (no_conflict digest old now es a)
]

-- What a restoration leaves.
pub restored-at :
    (disk : Disk) (path p : String) (state : Snapshot)
    → ((p ≡ path) × ((restore_snapshot disk path state).files p ≡ restored_file state))
      ⊎ (((path == p) ≡ false) × ((restore_snapshot disk path state).files p ≡ disk.files p))
unfolding restore_snapshot
restored-at disk path p state = ground (arith, eq_iff p path, eq_iff path p)

module _ (digest : String → String) (old now : Disk) where
  -- Going back over entries restores their paths, and leaves what is restored.
  roll_back-files :
      (es : List JournalResource) (current : Disk) (p : String)
      → AllEntries digest old now es
      → ((q : String) → (current.files q ≡ now.files q) ⊎ (current.files q ≡ old.files q))
      → (contains (paths es) p ≡ true) ⊎ (current.files p ≡ old.files p)
      → (roll_back current (classify digest now es)).files p ≡ old.files p
  unfolding roll_back classify
  roll_back-files [] current p a c h = ground arith
  roll_back-files (e ∷ es) current p (i, a) c h = elim (entry_state digest old now e i) [
    | inl (b, same) ↦
        rw b (roll_back-files es current p a c (ground (arith, eq_iff e.path p, same, c p, h)))
    | inr b ↦
        let back : restored_file e.before ≡ old.files e.path =
          rw i.before_is (restored_snapshot digest (old.files e.path)) in
        rw b (
          roll_back-files es (restore_snapshot current e.path e.before) p a
            (λ q. ground (arith, back, eq_iff q e.path, c q))
            (ground (arith, back, eq_iff p e.path, eq_iff e.path p, h)))
  ]

-- Recovery from a transaction that had written some of its resources, in any order, but not its
-- manifest, succeeds, leaves every file as it was before the transaction, and removes the journal.
pub recover_transaction-rolls_back :
    (digest : String → String) (old now : Disk) (j : TransactionJournal)
    → IsInterrupted digest old now j
    → (done : Disk) × (recover_transaction digest now ≡ ok (done, rolled_back))
      × (done.journal ≡ none)
      × ((p : String) → done.files p ≡ old.files p)
unfolding recover_transaction resource_state
recover_transaction-rolls_back digest old now j i =
    let clean = no_conflict digest old now j.resources i.entries in
    let untouched : manifest_state digest now j ≡ before =
      rw i.manifest_is
        (rw i.manifest_kept (rw (same_snapshot_self digest (old.files manifest_path)) refl)) in
    let fits : conflicts digest now j ≡ [] = rw clean (rw untouched refl) in
    (
      record (roll_back now (classify digest now j.resources)) { journal = none },
      rw i.journal_is (rw fits (rw untouched refl)),
      refl,
      λ p. roll_back-files digest old now j.resources now p i.entries (λ q. inl refl) (i.others p),
    )
