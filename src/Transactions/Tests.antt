-- ===== src/Transactions/Tests.antt =====
-- Transactions over two files: one that is replaced and one that is new.
use latchkit.Base.{
  ◌≡◌, refl, String, Bool, false, List, [], ◌∷◌, Option, none, some, ◌==◌, if◌then◌else◌, ok, eqb,
  inl, inr, ◌⊎◌, true, contains, arith, eq_iff,
}
use latchkit.Transactions.Model.{
  File, Disk, JournalResource, ResourceDescriptor, TransactionChange, Boundary, resource,
  rolled_back, finalized, manifest_path,
}
use latchkit.Transactions.Operations.{
  prepare, publish, restore_snapshot, recover_transaction, apply_registered_transaction,
  new_resource, new_journal,
}
use latchkit.Transactions.Operations.{inspect_transaction}
use latchkit.Transactions.Rollback.{paths}
use latchkit.Transactions.Inspect.{announced, inspect_transaction-announces}
use latchkit.Transactions.Atomic.{
  IsAtomic, written_journal, published, written_disk, interrupted-rolls_back, publish-finalizes,
  apply_registered_transaction-IsAtomic,
}

abbrev digest : String → String
digest bytes = bytes

abbrev old_file : String → Option File
old_file path = if path == "AGENTS.md" then some (record { bytes = "old"; mode = 420 }) else none

abbrev disk : Disk
disk = record { files = old_file; journal = none }

abbrev agents : ResourceDescriptor
agents = record { id = "agents"; path = "AGENTS.md" }

abbrev guide : ResourceDescriptor
guide = record { id = "guide"; path = "docs/guide.md" }

abbrev registry : List ResourceDescriptor
registry = agents ∷ guide ∷ []

abbrev change : String → TransactionChange
change id = record { resource_id = id; bytes = some "new"; mode = none }

abbrev changes : List TransactionChange
changes = change "agents" ∷ change "guide" ∷ []

abbrev entries : List JournalResource
entries =
    new_resource digest disk agents (change "agents")
    ∷ new_resource digest disk guide (change "guide")
    ∷ []

prepared : prepare digest disk registry [] changes ≡ ok entries
unfolding prepare
prepared = refl

-- The caller stops behind the first file.
abbrev stops_early : Boundary → Bool
stops_early (resource n) = eqb n 0
stops_early _ = false

abbrev never_stops : Boundary → Bool
never_stops _ = false

-- The stop came in a batch, behind the second file alone.
abbrev in_batch_file : String → Option File
in_batch_file path =
    if path == "docs/guide.md" then some (record { bytes = "new"; mode = 384 }) else old_file path

abbrev in_batch : Disk
in_batch = record {
  files = in_batch_file;
  journal = some (new_journal digest disk "t1" "install" 7 "{}" entries);
}

interrupted-rolls_back_example :
    (done : Disk) × (recover_transaction digest in_batch ≡ ok (done, rolled_back))
    × (done.journal ≡ none)
    × ((p : String) → done.files p ≡ disk.files p)
interrupted-rolls_back_example =
    interrupted-rolls_back digest "t1" "install" "{}" 7 registry changes disk in_batch entries
      prepared refl refl (inl refl, (inr refl, tt)) only_entries
  where
    only_entries :
        (p : String) → (contains (paths entries) p ≡ true) ⊎ (in_batch.files p ≡ disk.files p)
    only_entries p = ground (arith, eq_iff p "docs/guide.md", eq_iff "docs/guide.md" p)

publishes :
    (published digest never_stops "t1" "install" "{}" 7 registry changes disk entries prepared refl
      refl).1
    ≡ ok tt
unfolding publish
publishes = refl

publish-finalizes_example :
    recover_transaction digest (
      restore_snapshot
        (published digest never_stops "t1" "install" "{}" 7 registry changes disk entries prepared
          refl refl).0
        manifest_path
        (written_journal digest never_stops "t1" "install" "{}" 7 registry changes disk entries
          prepared refl refl).manifest_after)
    ≡ ok (
      written_disk digest never_stops "t1" "install" "{}" 7 registry changes disk entries prepared
          refl refl,
      finalized,
    )
publish-finalizes_example =
    publish-finalizes digest never_stops "t1" "install" "{}" 7 registry changes disk entries
      prepared refl refl publishes refl

apply_registered_transaction-IsAtomic_example :
    IsAtomic disk entries
      (written_journal digest stops_early "t1" "install" "{}" 7 registry changes disk entries
        prepared refl refl)
      (apply_registered_transaction digest stops_early "t1" 7 "install" registry changes "{}" disk)
    × ((apply_registered_transaction digest stops_early "t1" 7 "install" registry changes "{}"
          disk).0.journal
        ≡ none)
apply_registered_transaction-IsAtomic_example =
    apply_registered_transaction-IsAtomic digest stops_early "t1" "install" "{}" 7 registry changes
      disk entries prepared refl refl refl refl refl

inspect_transaction-announces_example :
    (inspect_transaction digest disk).0 ≡ announced (recover_transaction digest disk)
inspect_transaction-announces_example = inspect_transaction-announces digest disk
